-- ===== src/Config.antt =====
-- DataHandler/UnitProcessor.h, struct SpecialConfig: the rules of one contract, loaded from the global
-- JSON object and overridden by the contract's own. A thrown `type_error` is `none`.
pub mod Load
pub mod Bounds
pub mod Layers
pub mod Target
pub mod WellTyped
pub mod Errors
use ultra_mds.Base.{ℕ, Bool, true, Option, none, some, List, [], ◌∷◌}
use ultra_mds.Base.Int.{ℤ, pos}
use ultra_mds.Base.Bytes.{Bytes, bytes}
use ultra_mds.Double.{Double}

-- asio's `ip::address`, and a UDP endpoint. A default-constructed endpoint is port 0 of 0.0.0.0.
pub data Address : Type 0 where
  v4 : ℕ → Address
  v6 : ℕ → Address

pub record Endpoint : Type 0 where
  pub address : Address
  pub port_number : ℕ

abbrev pub default_endpoint : Endpoint
default_endpoint = record { address = v4 0; port_number = 0 }

pub record UdpConfig : Type 0 where
  pub multi_add : Bytes
  pub port : ℤ
  pub target_endpoint : Endpoint

pub record SpecialConfig (W : Type 0) : Type 0 where
  pub udp_config : UdpConfig
  pub enable_exchange_check : Bool
  pub enable_timestamp_check : Bool
  pub enable_price_check : Bool
  pub enable_volume_check : Bool
  pub enable_abnormal_packet_check : Bool
  pub timestamp_base : Bytes
  pub max_disorder_tolerance_ms : ℤ
  pub allow_same_ms_data : Bool
  pub check_bid_ask_levels : ℤ
  pub max_invert_spread_tick : ℤ
  pub tick_size : W
  pub limit_price_tolerance_ratio : W
  pub skip_zero_limit_price : Bool
  pub exchange_whitelist : List Bytes

-- The default member initialisers.
abbrev pub default_udp_config : UdpConfig
default_udp_config = record {
  multi_add = bytes "";
  port = pos 8888;
  target_endpoint = default_endpoint;
}

module _ {W : Type 0} ⦃d : Double W⦄ where
  unfoldable pub default_config : SpecialConfig W
  default_config = record {
    udp_config = default_udp_config;
    enable_exchange_check = true;
    enable_timestamp_check = true;
    enable_price_check = true;
    enable_volume_check = true;
    enable_abnormal_packet_check = true;
    timestamp_base = bytes "TradingDay";
    max_disorder_tolerance_ms = pos 10;
    allow_same_ms_data = true;
    check_bid_ask_levels = pos 1;
    max_invert_spread_tick = pos 1;
    tick_size = d.one;
    limit_price_tolerance_ratio = d.default_ratio;
    skip_zero_limit_price = true;
    exchange_whitelist = [];
  }

-- The log lines of the loading.
pub data ConfigMessage : Type 0 where
  tick_size_reset bad_address : ConfigMessage
