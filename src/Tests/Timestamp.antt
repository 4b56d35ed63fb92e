-- ===== src/Tests/Timestamp.antt =====
-- The timestamp check on concrete ticks.
use ultra_mds.Base.{◌≡◌, ◌↔◌, refl, ◌⊎◌, inl, inr, arith, true, false}
use ultra_mds.Base.Int.{pos, ◌-ℤ◌, ◌+ℤ◌, ◌*ℤ◌, ltb_ℤ}
use ultra_mds.Base.Bytes.{bytes, same, c_string}
use ultra_mds.Double.Fixed.{fixed_double}
use ultra_mds.Tick.{make_tick}
use ultra_mds.Processor.Timestamp.{
  combine_timestamp, check_timestamp_new, two_digits, str_to_int64, str_to_int64_from,
}
use ultra_mds.Processor.Timestamp.Packed.{
  IsMoment, Shows, packed, IsRefused, IsRead, combine_timestamp_cases,
}
use ultra_mds.Processor.Timestamp.Order.{Before}
use ultra_mds.Processor.Timestamp.Readings.{combine_timestamp_order, combine_timestamp_difference}
use ultra_mds.Processor.Timestamp.Tolerance.{
  InTolerance, advanced, check_timestamp_new_ignores_same_ms, check_timestamp_new-Shows,
  check_timestamp_new_across_minute,
}
use ultra_mds.Tick.{TickData}
use ultra_mds.Double.Fixed.{Fixed, whole}
use ultra_mds.Base.{some}
use ultra_mds.Processor.{Outcome}
use ultra_mds.Processor.Validate.{validate}
use ultra_mds.Processor.Validate.Rules.{ListedRule}
use ultra_mds.Processor.Validate.LockOut.{validate_locks_out}
use ultra_mds.Tests.Data.{sample_config, sample_processor, sample_tick, moment}

Shows-first : Shows sample_config (sample_tick (bytes "09:30:01") 500) (moment 9 30 1 500)
unfolding two_digits str_to_int64 str_to_int64_from make_tick same ◌-ℤ◌ ◌+ℤ◌ ◌*ℤ◌
Shows-first = record {
  first_colon = refl;
  second_colon = refl;
  hour_eq = refl;
  minute_eq = refl;
  second_eq = refl;
  millisecond_eq = refl;
  day_eq = refl;
}

IsMoment-first : IsMoment (moment 9 30 1 500)
IsMoment-first = record {
  day_lt = omega arith;
  hour_le = omega arith;
  minute_le = omega arith;
  second_le = omega arith;
  millisecond_le = omega arith;
}

Shows-last_of_minute : Shows sample_config (sample_tick (bytes "09:30:59") 999) (moment 9 30 59 999)
unfolding two_digits str_to_int64 str_to_int64_from make_tick same ◌-ℤ◌ ◌+ℤ◌ ◌*ℤ◌
Shows-last_of_minute = record {
  first_colon = refl;
  second_colon = refl;
  hour_eq = refl;
  minute_eq = refl;
  second_eq = refl;
  millisecond_eq = refl;
  day_eq = refl;
}

IsMoment-last_of_minute : IsMoment (moment 9 30 59 999)
IsMoment-last_of_minute = record {
  day_lt = omega arith;
  hour_le = omega arith;
  minute_le = omega arith;
  second_le = omega arith;
  millisecond_le = omega arith;
}

Shows-next_minute : Shows sample_config (sample_tick (bytes "09:31:00") 0) (moment 9 31 0 0)
unfolding two_digits str_to_int64 str_to_int64_from make_tick same ◌-ℤ◌ ◌+ℤ◌ ◌*ℤ◌
Shows-next_minute = record {
  first_colon = refl;
  second_colon = refl;
  hour_eq = refl;
  minute_eq = refl;
  second_eq = refl;
  millisecond_eq = refl;
  day_eq = refl;
}

IsMoment-next_minute : IsMoment (moment 9 31 0 0)
IsMoment-next_minute = record {
  day_lt = omega arith;
  hour_le = omega arith;
  minute_le = omega arith;
  second_le = omega arith;
  millisecond_le = omega arith;
}

check_timestamp_new-Shows_example :
    let p = sample_processor 20_240_102_093_001_505 in
    (((check_timestamp_new (sample_tick (bytes "09:30:01") 500) p).passed ≡ true)
      ↔ InTolerance p (pos (packed (moment 9 30 1 500))))
    × ((check_timestamp_new (sample_tick (bytes "09:30:01") 500) p).processor
        ≡ advanced p (pos (packed (moment 9 30 1 500))))
check_timestamp_new-Shows_example =
    check_timestamp_new-Shows (sample_tick (bytes "09:30:01") 500)
      (sample_processor 20_240_102_093_001_505) (moment 9 30 1 500) IsMoment-first Shows-first

-- The tick of 09:30:59.999 after that of 09:31:00.000, one millisecond late.
check_timestamp_new_across_minute_example :
    (check_timestamp_new
      (sample_tick (bytes "09:30:59") 999)
      (sample_processor (packed (moment 9 31 0 0)))).passed
    ≡ false
check_timestamp_new_across_minute_example =
    check_timestamp_new_across_minute (sample_tick (bytes "09:30:59") 999)
      (sample_processor (packed (moment 9 31 0 0))) (moment 9 30 59 999) (moment 9 31 0 0)
      IsMoment-last_of_minute IsMoment-next_minute Shows-last_of_minute refl refl
      (inr (refl, omega arith)) (ground arith)

combine_timestamp_order_example :
    (ltb_ℤ
        (combine_timestamp sample_config (sample_tick (bytes "09:30:59") 999)).0
        (combine_timestamp sample_config (sample_tick (bytes "09:31:00") 0)).0
      ≡ true)
    ↔ Before (moment 9 30 59 999) (moment 9 31 0 0)
combine_timestamp_order_example =
    combine_timestamp_order sample_config (sample_tick (bytes "09:30:59") 999)
      (sample_tick (bytes "09:31:00") 0) (moment 9 30 59 999) (moment 9 31 0 0)
      IsMoment-last_of_minute IsMoment-next_minute Shows-last_of_minute Shows-next_minute

-- One millisecond later, the combined timestamp is 40,001 larger.
combine_timestamp_difference_example :
    (combine_timestamp sample_config (sample_tick (bytes "09:31:00") 0)).0
      -ℤ (combine_timestamp sample_config (sample_tick (bytes "09:30:59") 999)).0
    ≡ pos 40_001
combine_timestamp_difference_example =
    combine_timestamp_difference sample_config (sample_tick (bytes "09:30:59") 999)
      (sample_tick (bytes "09:31:00") 0) (moment 9 30 59 999) (moment 9 31 0 0)
      IsMoment-last_of_minute IsMoment-next_minute Shows-last_of_minute Shows-next_minute refl
      (inr (refl, inr (refl, inl (omega arith))))

combine_timestamp_cases_example :
    IsRefused sample_config
      (sample_tick (bytes "24:00:00") 0)
      (combine_timestamp sample_config (sample_tick (bytes "24:00:00") 0))
    ⊎ IsRead sample_config
        (sample_tick (bytes "24:00:00") 0)
        (combine_timestamp sample_config (sample_tick (bytes "24:00:00") 0))
combine_timestamp_cases_example =
    combine_timestamp_cases sample_config (sample_tick (bytes "24:00:00") 0)

check_timestamp_new_ignores_same_ms_example :
    let p = sample_processor 20_240_102_093_001_500 in
    let o = check_timestamp_new (sample_tick (bytes "09:30:01") 500) p in
    let r =
      check_timestamp_new
        (sample_tick (bytes "09:30:01") 500)
        (record p { config = record p.config { allow_same_ms_data = false } }) in
    (o.passed ≡ r.passed)
    × (o.messages ≡ r.messages)
    × (o.processor.last_timestamp ≡ r.processor.last_timestamp)
check_timestamp_new_ignores_same_ms_example =
    check_timestamp_new_ignores_same_ms (sample_tick (bytes "09:30:01") 500)
      (sample_processor 20_240_102_093_001_500) false

-- A tick of 09:31:00.000 with a price of 0, which the price check refuses.
abbrev bad : TickData Fixed
bad = record (sample_tick (bytes "09:31:00") 0) { last_price = whole (pos 0) }

Shows-bad : Shows sample_config bad (moment 9 31 0 0)
unfolding two_digits str_to_int64 str_to_int64_from make_tick same ◌-ℤ◌ ◌+ℤ◌ ◌*ℤ◌
Shows-bad = record {
  first_colon = refl;
  second_colon = refl;
  hour_eq = refl;
  minute_eq = refl;
  second_eq = refl;
  millisecond_eq = refl;
  day_eq = refl;
}

listed : ListedRule bad (sample_processor 20_240_102_093_001_505)
unfolding make_tick c_string
listed _ = inr (inl refl)

-- It makes the tick of one millisecond earlier late.
validate_locks_out_example :
    (o r : Outcome Fixed) × (validate bad (sample_processor 20_240_102_093_001_505) ≡ some o)
    × (validate (sample_tick (bytes "09:30:59") 999) o.processor ≡ some r)
    × (r.passed ≡ false)
validate_locks_out_example =
    validate_locks_out bad (sample_tick (bytes "09:30:59") 999)
      (sample_processor 20_240_102_093_001_505) (moment 9 31 0 0) (moment 9 30 59 999) 10 refl refl
      listed IsMoment-next_minute Shows-bad IsMoment-last_of_minute Shows-last_of_minute
      (omega arith)
