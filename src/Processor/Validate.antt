-- ===== src/Processor/Validate.antt =====
-- UnitProcessor::validate, reset and the accessors.
pub mod Ends
pub mod Rules
pub mod History
pub mod Replay
pub mod LockOut
use ultra_mds.Base.{
  Bool, true, false, Option, none, some, List, [], ◌∷◌, ◌++◌, ◌>>=◌, if◌then◌else◌,
}
use ultra_mds.Base.Int.{ℤ, pos}
use ultra_mds.Base.Bytes.{Bytes}
use ultra_mds.Double.{Double}
use ultra_mds.Tick.{TickData}
use ultra_mds.Config.{Endpoint}
use ultra_mds.Processor.{UnitProcessor, Outcome, Check, passes}
use ultra_mds.Processor.WhiteList.{check_white_list}
use ultra_mds.Processor.Timestamp.{check_timestamp_new}
use ultra_mds.Processor.Price.{check_price_validity}
use ultra_mds.Processor.Volume.{check_volume_validity, check_abnormal_packet}

module _ {W : Type 0} where
  -- `if (enabled && !check(tick)) return false;`
  abbrev pub gate : Bool → Check W → Check W
  gate enabled check p = if enabled then check p else some (passes p [])

  -- The next statement runs on the processor that a check left, if the check passed.
  abbrev pub continue : (UnitProcessor W → Option (Outcome W)) → Outcome W → Option (Outcome W)
  continue next o =
      if o.passed
      then (next o.processor >>= λ r. some (record r { messages = o.messages ++ r.messages }))
      else some o

  abbrev pub and_then : Check W → Check W → Check W
  and_then check next p = check p >>= continue next

module _ {W : Type 0} ⦃d : Double W⦄ where
  unfoldable pub validate : TickData W → Check W
  validate tick p =
      let config = p.config in
      and_then (gate config.enable_exchange_check (λ q. some (check_white_list tick q)))
        (and_then (gate config.enable_timestamp_check (λ q. some (check_timestamp_new tick q))) (
          and_then (gate config.enable_price_check (check_price_validity tick)) (
            and_then (gate config.enable_volume_check (check_volume_validity tick)) (
              gate config.enable_abnormal_packet_check
                (λ q. some (check_abnormal_packet tick q))))))
        p

module _ {W : Type 0} where
  unfoldable pub reset : UnitProcessor W → UnitProcessor W
  reset p = record p { last_timestamp = pos 0 }

  unfoldable pub get_contract_name : UnitProcessor W → Bytes
  get_contract_name p = p.contract_name

  unfoldable pub get_multicast_endpoint : UnitProcessor W → Endpoint
  get_multicast_endpoint p = p.config.udp_config.target_endpoint
