-- ===== src/Ctp.antt =====
-- ctp/include: the records of the exchange's API that the program reads or writes, with their fields in
-- order, the calls of the market interface and its callbacks. A pointer to a record that may be null is an
-- `Option`.
pub mod Types
use ultra_mds.Base.{ℕ, Bool, Option, List}
use ultra_mds.Base.Int.{ℤ}
use ultra_mds.Base.Bytes.{Bytes}
use ultra_mds.Ctp.Types.{
  DateType, BrokerIdType, UserIdType, PasswordType, ProductInfoType, ProtocolInfoType,
  MacAddressType, OldIpAddressType, LoginRemarkType, IpPortType, IpAddressType, TimeType,
  SystemNameType, FrontIdType, SessionIdType, OrderRefType, SysVersionType, DrIdentityIdType,
  DateTimeType, ReserveInfoType, ErrorIdType, ErrorMsgType, OldInstrumentIdType, InstrumentIdType,
  ExchangeIdType, OldExchangeInstIdType, PriceType, LargeVolumeType, VolumeType, MoneyType,
  RatioType, MillisecType, ExchangeInstIdType, InstallIdType, VolumeMultipleType, OrderSysIdType,
  LoginModeType,
}

-- CThostFtdcReqUserLoginField; a text is the bytes before the array's first NUL.
pub record ReqUserLogin : Type 0 where
  pub trading_day : DateType
  pub broker_id : BrokerIdType
  pub user_id : UserIdType
  pub password : PasswordType
  pub user_product_info : ProductInfoType
  pub interface_product_info : ProductInfoType
  pub protocol_info : ProtocolInfoType
  pub mac_address : MacAddressType
  pub one_time_password : PasswordType
  pub reserve1 : OldIpAddressType
  pub login_remark : LoginRemarkType
  pub client_ip_port : IpPortType
  pub client_ip_address : IpAddressType

-- CThostFtdcRspUserLoginField.
pub record RspUserLogin : Type 0 where
  pub trading_day : DateType
  pub login_time : TimeType
  pub broker_id : BrokerIdType
  pub user_id : UserIdType
  pub system_name : SystemNameType
  pub front_id : FrontIdType
  pub session_id : SessionIdType
  pub max_order_ref : OrderRefType
  pub shfe_time : TimeType
  pub dce_time : TimeType
  pub czce_time : TimeType
  pub ffex_time : TimeType
  pub ine_time : TimeType
  pub sys_version : SysVersionType
  pub gfex_time : TimeType
  pub login_dr_identity_id : DrIdentityIdType
  pub user_dr_identity_id : DrIdentityIdType
  pub last_login_time : DateTimeType
  pub reserve_info : ReserveInfoType

-- CThostFtdcRspInfoField.
pub record RspInfo : Type 0 where
  pub error_id : ErrorIdType
  pub error_msg : ErrorMsgType

-- CThostFtdcSpecificInstrumentField.
pub record SpecificInstrument : Type 0 where
  pub reserve1 : OldInstrumentIdType
  pub instrument_id : InstrumentIdType

-- CThostFtdcDepthMarketDataField.
pub record DepthMarketData (W : Type 0) : Type 0 where
  pub trading_day : DateType
  pub reserve1 : OldInstrumentIdType
  pub exchange_id : ExchangeIdType
  pub reserve2 : OldExchangeInstIdType
  pub last_price : PriceType W
  pub pre_settlement_price : PriceType W
  pub pre_close_price : PriceType W
  pub pre_open_interest : LargeVolumeType W
  pub open_price : PriceType W
  pub highest_price : PriceType W
  pub lowest_price : PriceType W
  pub volume : VolumeType
  pub turnover : MoneyType W
  pub open_interest : LargeVolumeType W
  pub close_price : PriceType W
  pub settlement_price : PriceType W
  pub upper_limit_price : PriceType W
  pub lower_limit_price : PriceType W
  pub pre_delta : RatioType W
  pub curr_delta : RatioType W
  pub update_time : TimeType
  pub update_millisec : MillisecType
  pub bid_price1 : PriceType W
  pub bid_volume1 : VolumeType
  pub ask_price1 : PriceType W
  pub ask_volume1 : VolumeType
  pub bid_price2 : PriceType W
  pub bid_volume2 : VolumeType
  pub ask_price2 : PriceType W
  pub ask_volume2 : VolumeType
  pub bid_price3 : PriceType W
  pub bid_volume3 : VolumeType
  pub ask_price3 : PriceType W
  pub ask_volume3 : VolumeType
  pub bid_price4 : PriceType W
  pub bid_volume4 : VolumeType
  pub ask_price4 : PriceType W
  pub ask_volume4 : VolumeType
  pub bid_price5 : PriceType W
  pub bid_volume5 : VolumeType
  pub ask_price5 : PriceType W
  pub ask_volume5 : VolumeType
  pub average_price : PriceType W
  pub action_day : DateType
  pub instrument_id : InstrumentIdType
  pub exchange_inst_id : ExchangeInstIdType
  pub banding_upper_price : PriceType W
  pub banding_lower_price : PriceType W

-- The records of the calls and callbacks that the program does not use: CThostFtdcUserLogoutField,
-- CThostFtdcMulticastInstrumentField, CThostFtdcQryMulticastInstrumentField, CThostFtdcForQuoteRspField and
-- CThostFtdcFensUserInfoField.
pub record UserLogout : Type 0 where
  pub broker_id : BrokerIdType
  pub user_id : UserIdType

pub record MulticastInstrument (W : Type 0) : Type 0 where
  pub topic_id : InstallIdType
  pub reserve1 : OldInstrumentIdType
  pub instrument_no : InstallIdType
  pub code_price : PriceType W
  pub volume_multiple : VolumeMultipleType
  pub price_tick : PriceType W
  pub instrument_id : InstrumentIdType

pub record QryMulticastInstrument : Type 0 where
  pub topic_id : InstallIdType
  pub reserve1 : OldInstrumentIdType
  pub instrument_id : InstrumentIdType

pub record ForQuoteRsp : Type 0 where
  pub trading_day : DateType
  pub reserve1 : OldInstrumentIdType
  pub for_quote_sys_id : OrderSysIdType
  pub for_quote_time : TimeType
  pub action_day : DateType
  pub exchange_id : ExchangeIdType
  pub instrument_id : InstrumentIdType

pub record FensUserInfo : Type 0 where
  pub broker_id : BrokerIdType
  pub user_id : UserIdType
  pub login_mode : LoginModeType

-- CThostFtdcMdApi: the calls of the market interface.
pub data ApiCall : Type 0 where
  create_ftdc_md_api : Bytes → Bool → Bool → Bool → ApiCall
  get_api_version release init join get_trading_day : ApiCall
  register_front register_name_server : Bytes → ApiCall
  register_fens_user_info : FensUserInfo → ApiCall
  register_spi : ApiCall
  subscribe_market_data un_subscribe_market_data : List Bytes → ℕ → ApiCall
  subscribe_for_quote_rsp un_subscribe_for_quote_rsp : List Bytes → ℕ → ApiCall
  req_user_login : ReqUserLogin → ℤ → ApiCall
  req_user_logout : UserLogout → ℤ → ApiCall
  req_qry_multicast_instrument : QryMulticastInstrument → ℤ → ApiCall

-- CThostFtdcMdSpi: the callbacks.
pub data Callback (W : Type 0) : Type 0 where
  front_connected : Callback W
  front_disconnected : ℤ → Callback W
  heart_beat_warning : ℤ → Callback W
  rsp_user_login : Option RspUserLogin → Option RspInfo → ℤ → Bool → Callback W
  rsp_user_logout : Option UserLogout → Option RspInfo → ℤ → Bool → Callback W
  rsp_qry_multicast_instrument :
      Option (MulticastInstrument W) → Option RspInfo → ℤ → Bool → Callback W
  rsp_error : Option RspInfo → ℤ → Bool → Callback W
  rsp_sub_market_data : Option SpecificInstrument → Option RspInfo → ℤ → Bool → Callback W
  rsp_un_sub_market_data : Option SpecificInstrument → Option RspInfo → ℤ → Bool → Callback W
  rsp_sub_for_quote_rsp : Option SpecificInstrument → Option RspInfo → ℤ → Bool → Callback W
  rsp_un_sub_for_quote_rsp : Option SpecificInstrument → Option RspInfo → ℤ → Bool → Callback W
  rtn_depth_market_data : Option (DepthMarketData W) → Callback W
  rtn_for_quote_rsp : Option ForQuoteRsp → Callback W
