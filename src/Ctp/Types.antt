-- ===== src/Ctp/Types.antt =====
-- ctp/include/ThostFtdcUserApiDataType.h: the types of the records' fields. A `double` is a W.
use ultra_mds.Base.{ℕ}
use ultra_mds.Base.Int.{ℤ}
use ultra_mds.Base.Bytes.{Bytes}

-- `char a[size]`, by its bytes. An array of a parameter may hold any bytes; what reads one writes its size
-- out.
abbrev pub CharArray : ℕ → Type 0
CharArray size = Bytes

abbrev pub DateType : Type 0
DateType = CharArray 9

abbrev pub BrokerIdType : Type 0
BrokerIdType = CharArray 11

abbrev pub UserIdType : Type 0
UserIdType = CharArray 16

abbrev pub PasswordType : Type 0
PasswordType = CharArray 41

abbrev pub ProductInfoType : Type 0
ProductInfoType = CharArray 11

abbrev pub ProtocolInfoType : Type 0
ProtocolInfoType = CharArray 11

abbrev pub MacAddressType : Type 0
MacAddressType = CharArray 21

abbrev pub OldIpAddressType : Type 0
OldIpAddressType = CharArray 16

abbrev pub LoginRemarkType : Type 0
LoginRemarkType = CharArray 36

abbrev pub IpPortType : Type 0
IpPortType = ℤ

abbrev pub IpAddressType : Type 0
IpAddressType = CharArray 33

abbrev pub TimeType : Type 0
TimeType = CharArray 9

abbrev pub SystemNameType : Type 0
SystemNameType = CharArray 41

abbrev pub FrontIdType : Type 0
FrontIdType = ℤ

abbrev pub SessionIdType : Type 0
SessionIdType = ℤ

abbrev pub OrderRefType : Type 0
OrderRefType = CharArray 13

abbrev pub SysVersionType : Type 0
SysVersionType = CharArray 41

abbrev pub DrIdentityIdType : Type 0
DrIdentityIdType = ℤ

abbrev pub DateTimeType : Type 0
DateTimeType = CharArray 17

abbrev pub ReserveInfoType : Type 0
ReserveInfoType = CharArray 65

abbrev pub ErrorIdType : Type 0
ErrorIdType = ℤ

abbrev pub ErrorMsgType : Type 0
ErrorMsgType = CharArray 81

abbrev pub OldInstrumentIdType : Type 0
OldInstrumentIdType = CharArray 31

abbrev pub InstrumentIdType : Type 0
InstrumentIdType = CharArray 81

abbrev pub ExchangeIdType : Type 0
ExchangeIdType = CharArray 9

abbrev pub OldExchangeInstIdType : Type 0
OldExchangeInstIdType = CharArray 31

abbrev pub PriceType : Type 0 → Type 0
PriceType W = W

abbrev pub LargeVolumeType : Type 0 → Type 0
LargeVolumeType W = W

abbrev pub VolumeType : Type 0
VolumeType = ℤ

abbrev pub MoneyType : Type 0 → Type 0
MoneyType W = W

abbrev pub RatioType : Type 0 → Type 0
RatioType W = W

abbrev pub MillisecType : Type 0
MillisecType = ℤ

abbrev pub ExchangeInstIdType : Type 0
ExchangeInstIdType = CharArray 81

abbrev pub InstallIdType : Type 0
InstallIdType = ℤ

abbrev pub VolumeMultipleType : Type 0
VolumeMultipleType = ℤ

abbrev pub OrderSysIdType : Type 0
OrderSysIdType = CharArray 21

abbrev pub LoginModeType : Type 0
LoginModeType = ℕ
