-- ===== src/Tests/Checks.antt =====
-- The checks and `validate` on concrete ticks.
use mathlib.Core.Option.{some-injective}
use ultra_mds.Base.{◌≡◌, refl, arith, true, false, some, List, [], ◌∷◌, zero, suc}
use ultra_mds.Base.Int.{pos, ltb_ℤ}
use ultra_mds.Base.Bytes.{bytes}
use ultra_mds.Double.Fixed.{Fixed, fixed_double, whole, Fixed-IsDouble}
use ultra_mds.Tick.{TickData, make_tick}
use ultra_mds.Processor.{UnitProcessor, passes}
use ultra_mds.Processor.Verdict.{PassesWhen}
use ultra_mds.Processor.WhiteList.{check_white_list}
use ultra_mds.Processor.WhiteList.Rules.{IsListed, check_white_list_iff}
use ultra_mds.Processor.Price.{
  check_price_validity, is_invalid_price, bids_in_order, asks_in_order, in_order, is_outside_limits,
  is_inverted,
}
use ultra_mds.Processor.Price.Rules.{IsPriceValid, check_price_validity_iff}
use ultra_mds.Processor.Price.Sorted.{AllQuoted, check_price_validity-bids}
use ultra_mds.Processor.Volume.{check_volume_validity}
use ultra_mds.Processor.Volume.Rules.{IsVolumeValid, check_volume_validity_iff}
use ultra_mds.Processor.Volume.Feed.{check_volume_validity-make_tick}
use ultra_mds.Processor.Validate.{validate}
use ultra_mds.Processor.Validate.Ends.{Ends}
use ultra_mds.Processor.Validate.Rules.{Success, Failure, validate-Ends}
use ultra_mds.Processor.Validate.History.{validate_all, IsNearlySorted, validate_all-IsNearlySorted}
use ultra_mds.Tests.Data.{sample_config, sample_processor, sample_data, sample_tick}

abbrev tick : TickData Fixed
tick = sample_tick (bytes "09:30:01") 500

abbrev processor : UnitProcessor Fixed
processor = sample_processor 20_240_102_093_001_400

validate-Ends_example :
    Ends (validate tick processor) (Success tick processor) (Failure tick processor)
validate-Ends_example = validate-Ends tick processor

validate_all-IsNearlySorted_example :
    (r : List (TickData Fixed) × UnitProcessor Fixed) × (validate_all
        (tick ∷ sample_tick (bytes "09:30:02") 0 ∷ [])
        processor
      ≡ some r)
    × IsNearlySorted sample_config r.0
validate_all-IsNearlySorted_example =
    validate_all-IsNearlySorted (tick ∷ sample_tick (bytes "09:30:02") 0 ∷ []) processor refl

check_white_list_iff_example :
    PassesWhen (some (check_white_list tick processor)) processor (IsListed sample_config tick)
check_white_list_iff_example = check_white_list_iff tick processor

check_price_validity_iff_example :
    PassesWhen (check_price_validity tick processor) processor (IsPriceValid sample_config tick)
check_price_validity_iff_example = check_price_validity_iff tick processor

price_check_passes : check_price_validity tick processor ≡ some (passes processor [])
unfolding check_price_validity is_invalid_price bids_in_order asks_in_order in_order
    is_outside_limits is_inverted make_tick
price_check_passes = refl

quoted_bids : AllQuoted tick.bid_price 2
unfolding make_tick is_invalid_price
quoted_bids zero x h e = rw (← some-injective _ _ e) refl
quoted_bids (suc zero) x h e = rw (← some-injective _ _ e) refl
quoted_bids (suc (suc i)) x h e = absurd (omega arith)

check_price_validity-bids_example : fixed_double.le (whole (pos 3698)) (whole (pos 3699)) ≡ true
unfolding make_tick
check_price_validity-bids_example =
    check_price_validity-bids Fixed-IsDouble tick processor price_check_passes refl quoted_bids 0 1
      (whole (pos 3699)) (whole (pos 3698)) (omega arith) (omega arith) refl refl

check_volume_validity_iff_example :
    PassesWhen (check_volume_validity tick processor) processor (IsVolumeValid sample_config tick)
check_volume_validity_iff_example = check_volume_validity_iff tick processor

check_volume_validity-make_tick_example :
    PassesWhen
      (check_volume_validity
        (make_tick (sample_data (bytes "09:30:01") 500) (some 0) (pos 7))
        processor)
      processor
      (ltb_ℤ (pos 120) (pos 0) ≡ false)
check_volume_validity-make_tick_example =
    check_volume_validity-make_tick (sample_data (bytes "09:30:01") 500) (some 0) (pos 7) processor
