-- ===== src/Processor.antt =====
-- DataHandler/UnitProcessor.h, class UnitProcessor: the state that a contract's checks keep and what a
-- check leaves. The children model the checks, in the order in which `validate` runs them. An
-- optional result is `none` where the code would read outside an array. The log lines of a call are
-- values, without their formatted arguments.
pub mod Verdict
pub mod WhiteList
pub mod Timestamp
pub mod Price
pub mod Volume
pub mod Validate
use ultra_mds.Base.{Bool, true, false, Option, List, [], ◌∷◌}
use ultra_mds.Base.Int.{ℤ}
use ultra_mds.Base.Bytes.{Bytes}
use ultra_mds.Config.{SpecialConfig}

pub data Message : Type 0 where
  not_in_whitelist bad_colons bad_clock bad_millisecond bad_day bad_timestamp not_increasing :
      Message
  bad_last_price bad_limit_up bad_limit_down outside_limits bid_disorder ask_disorder : Message
  inverted negative_volume negative_bid_volume negative_ask_volume empty_packet : Message

pub record UnitProcessor (W : Type 0) : Type 0 where
  pub last_timestamp : ℤ
  pub contract_name : Bytes
  pub config : SpecialConfig W

-- What a check leaves: its result, the processor after it and the log lines.
pub record Outcome (W : Type 0) : Type 0 where
  pub passed : Bool
  pub processor : UnitProcessor W
  pub messages : List Message

abbrev pub Check : Type 0 → Type 0
Check W = UnitProcessor W → Option (Outcome W)

module _ {W : Type 0} where
  abbrev pub passes : UnitProcessor W → List Message → Outcome W
  passes p ms = record { passed = true; processor = p; messages = ms }

  abbrev pub fails : UnitProcessor W → List Message → Outcome W
  fails p ms = record { passed = false; processor = p; messages = ms }
