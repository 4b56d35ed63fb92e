-- ===== src/Tests/Data.antt =====
-- Concrete ticks, rules and JSON texts for the tests.
use ultra_mds.Base.{ℕ, some, true, [], ◌∷◌, ◌++◌}
use ultra_mds.Base.Int.{pos}
use ultra_mds.Base.Bytes.{Bytes, bytes}
use ultra_mds.Double.Fixed.{Fixed, fixed_double, units, whole}
use ultra_mds.Ctp.{DepthMarketData}
use ultra_mds.Tick.{TickData, make_tick}
use ultra_mds.Config.{SpecialConfig, default_udp_config}
use ultra_mds.Processor.{UnitProcessor}
use ultra_mds.Processor.Timestamp.Packed.{Moment}

abbrev pub sample_config : SpecialConfig Fixed
sample_config = record {
  udp_config = default_udp_config;
  enable_exchange_check = true;
  enable_timestamp_check = true;
  enable_price_check = true;
  enable_volume_check = true;
  enable_abnormal_packet_check = true;
  timestamp_base = bytes "TradingDay";
  max_disorder_tolerance_ms = pos 10;
  allow_same_ms_data = true;
  check_bid_ask_levels = pos 2;
  max_invert_spread_tick = pos 1;
  tick_size = whole (pos 1);
  limit_price_tolerance_ratio = units (pos 10_000);
  skip_zero_limit_price = true;
  exchange_whitelist = bytes "SHFE" ∷ [];
}

abbrev pub sample_processor : ℕ → UnitProcessor Fixed
sample_processor last = record {
  last_timestamp = pos last;
  contract_name = bytes "rb2405";
  config = sample_config;
}

abbrev pub nul : Bytes
nul = 0 ∷ []

abbrev pub sample_data : Bytes → ℕ → DepthMarketData Fixed
sample_data time ms = record {
  trading_day = bytes "20240102" ++ nul;
  reserve1 = nul;
  exchange_id = bytes "SHFE" ++ nul;
  reserve2 = nul;
  last_price = whole (pos 3700);
  pre_settlement_price = whole (pos 3690);
  pre_close_price = whole (pos 3695);
  pre_open_interest = whole (pos 800);
  open_price = whole (pos 3698);
  highest_price = whole (pos 3710);
  lowest_price = whole (pos 3680);
  volume = pos 120;
  turnover = whole (pos 444000);
  open_interest = whole (pos 810);
  close_price = whole (pos 0);
  settlement_price = whole (pos 0);
  upper_limit_price = whole (pos 4000);
  lower_limit_price = whole (pos 3400);
  pre_delta = whole (pos 0);
  curr_delta = whole (pos 0);
  update_time = time ++ nul;
  update_millisec = pos ms;
  bid_price1 = whole (pos 3699);
  bid_volume1 = pos 5;
  ask_price1 = whole (pos 3701);
  ask_volume1 = pos 6;
  bid_price2 = whole (pos 3698);
  bid_volume2 = pos 4;
  ask_price2 = whole (pos 3702);
  ask_volume2 = pos 7;
  bid_price3 = whole (pos 3697);
  bid_volume3 = pos 3;
  ask_price3 = whole (pos 3703);
  ask_volume3 = pos 8;
  bid_price4 = whole (pos 3696);
  bid_volume4 = pos 2;
  ask_price4 = whole (pos 3704);
  ask_volume4 = pos 9;
  bid_price5 = whole (pos 3695);
  bid_volume5 = pos 1;
  ask_price5 = whole (pos 3705);
  ask_volume5 = pos 10;
  average_price = whole (pos 3700);
  action_day = bytes "20240102" ++ nul;
  instrument_id = bytes "rb2405" ++ nul;
  exchange_inst_id = nul;
  banding_upper_price = whole (pos 0);
  banding_lower_price = whole (pos 0);
}

abbrev pub sample_tick : Bytes → ℕ → TickData Fixed
sample_tick time ms = make_tick (sample_data time ms) (some 0) (pos 7)

abbrev pub moment : ℕ → ℕ → ℕ → ℕ → Moment
moment hour minute second ms = record {
  day = 20_240_102;
  hour = hour;
  minute = minute;
  second = second;
  millisecond = ms;
}
