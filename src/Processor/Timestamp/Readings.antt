-- ===== src/Processor/Timestamp/Readings.antt =====
-- What the readings of two ticks say of the moments that they show.
use ultra_mds.Base.{ℕ, ◌+◌, ◌-◌, ◌*◌, ◌<◌, ◌≡◌, ◌↔◌, true, arith}
use ultra_mds.Base.Int.{pos, ltb_ℤ, ◌-ℤ◌, -ℤ_parts, eq_of_parts}
use ultra_mds.Tick.{TickData}
use ultra_mds.Config.{SpecialConfig}
use ultra_mds.Processor.Timestamp.{combine_timestamp}
use ultra_mds.Processor.Timestamp.Packed.{
  Moment, IsMoment, Shows, packed, elapsed, combine_timestamp-Shows,
}
use ultra_mds.Processor.Timestamp.Order.{Before, packed-lt_iff, packed_difference}

sub_pos : (a b k : ℕ) → b < a → a - b ≡ k → pos a -ℤ pos b ≡ pos k
sub_pos a b k h e = eq_of_parts (pos a -ℤ pos b) (pos k) (ground (arith, -ℤ_parts (pos a) (pos b)))

module _ {W : Type 0} (config : SpecialConfig W) (t u : TickData W) (c e : Moment) (v : IsMoment c)
    (w : IsMoment e) (s : Shows config t c) (r : Shows config u e) where
  -- For two ticks that show moments in range, the combined timestamps are ordered as the calendar
  -- orders the moments.
  pub combine_timestamp_order :
      (ltb_ℤ (combine_timestamp config t).0 (combine_timestamp config u).0 ≡ true) ↔ Before c e
  combine_timestamp_order =
      let (to, from) = packed-lt_iff c e v w in
      rw (combine_timestamp-Shows config t c v s, combine_timestamp-Shows config u e w r)
        (λ h. to (ground arith), λ b. ground (arith, from b))

  -- For two ticks that show moments of one day, the first before the second, the difference of the
  -- combined timestamps, which the code compares with a tolerance in milliseconds, is the true number
  -- of milliseconds and 40,000 more for each step of the minutes, where a step of the hours counts as
  -- 160 steps of the minutes.
  pub combine_timestamp_difference :
      c.day ≡ e.day
      → Before c e
      → (combine_timestamp config u).0 -ℤ (combine_timestamp config t).0
        ≡ pos (
            (elapsed e - elapsed c)
            + 40_000 * ((160 * e.hour + e.minute) - (160 * c.hour + c.minute)))
  combine_timestamp_difference d b =
      rw (combine_timestamp-Shows config t c v s, combine_timestamp-Shows config u e w r)
        (sub_pos (packed e) (packed c) _ ((packed-lt_iff c e v w).1 b)
          (packed_difference c e v w d b))
