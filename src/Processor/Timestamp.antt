-- ===== src/Processor/Timestamp.antt =====
-- UnitProcessor::strToInt64, combineTimestamp and checkTimestampNew.
pub mod Packed
pub mod Order
pub mod Readings
pub mod Tolerance
use ultra_mds.Base.{
  ℕ, zero, suc, ◌+◌, ◌-◌, ◌*◌, Bool, not, ◌&&◌, ◌||◌, Option, none, some, List, [], ◌∷◌, ◌++◌,
  if◌then◌else◌, get_or, ◌==◌,
}
use ultra_mds.Base.Int.{ℤ, pos, negsuc, ◌+ℤ◌, ◌-ℤ◌, ◌*ℤ◌, ltb_ℤ, eq_ℤ, outside}
use ultra_mds.Base.Bytes.{Bytes, bytes, same, signed_char, is_digit}
use ultra_mds.Tick.{TickData}
use ultra_mds.Config.{SpecialConfig}
use ultra_mds.Processor.{
  UnitProcessor, Outcome, passes, fails, Message, Message.bad_colons, Message.bad_clock,
  Message.bad_millisecond, Message.bad_day, Message.bad_timestamp, Message.not_increasing,
}

-- `strToInt64` from index i, with `left` characters to go; `none` is `false`. The number never
-- falls below zero, since each character is a digit.
unfoldable pub str_to_int64_from : Bytes → ℕ → ℕ → ℕ → Option ℕ
str_to_int64_from s zero i out = some out
str_to_int64_from s (suc left) i out =
    let c = get_or s i 0 in
    let rest = str_to_int64_from s left (i + 1) (out * 10 + (c - b'0')) in
    if is_digit c then rest else none

unfoldable pub str_to_int64 : Bytes → ℕ → Option ℕ
unfolding str_to_int64_from
str_to_int64 s len = str_to_int64_from s len 0 0

-- `(s[i] - '0') * 10 + (s[i + 1] - '0')`.
unfoldable pub two_digits : Bytes → ℕ → ℤ
two_digits s i =
    (signed_char (get_or s i 0) -ℤ pos b'0') *ℤ pos 10
    +ℤ (signed_char (get_or s (i + 1) 0) -ℤ pos b'0')

module _ {W : Type 0} where
  -- A pair of the packed timestamp, or -1, and the log lines.
  unfoldable pub combine_timestamp : SpecialConfig W → TickData W → ℤ × List Message
  combine_timestamp config tick =
      let time = tick.update_time in
      let hour = two_digits time 0 in
      let minute = two_digits time 3 in
      let second = two_digits time 6 in
      let day_str =
        if same config.timestamp_base (bytes "TradingDay")
        then tick.trading_day
        else tick.action_day in
      if not (get_or time 2 0 == b':') || not (get_or time 5 0 == b':')
      then (negsuc 0, bad_colons ∷ [])
      else if outside (pos 0) (pos 23) hour
          || outside (pos 0) (pos 59) minute
          || outside (pos 0) (pos 59) second
      then (negsuc 0, bad_clock ∷ [])
      else if outside (pos 0) (pos 999) tick.updatemill
      then (negsuc 0, bad_millisecond ∷ [])
      else elim (str_to_int64 day_str 8) [
        | none ↦ (negsuc 0, bad_day ∷ [])
        | some day_num ↦ (
          pos day_num *ℤ pos 1_000_000_000
              +ℤ hour *ℤ pos 10_000_000
              +ℤ minute *ℤ pos 100_000
              +ℤ second *ℤ pos 1000
              +ℤ tick.updatemill,
          [],
        )
      ]

  -- The body after the call of `combineTimestamp`, on what that returned.
  unfoldable pub judge_timestamp : UnitProcessor W → ℤ × List Message → Outcome W
  judge_timestamp p (current_ts, ms) =
      let last = p.last_timestamp in
      if ltb_ℤ current_ts (pos 0)
      then fails p (ms ++ bad_timestamp ∷ [])
      else if eq_ℤ current_ts last && p.config.allow_same_ms_data
      then passes p ms
      else if ltb_ℤ current_ts last
      then (if ltb_ℤ p.config.max_disorder_tolerance_ms (last -ℤ current_ts)
          then fails p (ms ++ not_increasing ∷ [])
          else passes p ms)
      else passes (record p { last_timestamp = current_ts }) ms

  unfoldable pub check_timestamp_new : TickData W → UnitProcessor W → Outcome W
  unfolding judge_timestamp
  check_timestamp_new tick p = judge_timestamp p (combine_timestamp p.config tick)
