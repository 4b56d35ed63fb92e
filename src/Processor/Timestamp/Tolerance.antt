-- ===== src/Processor/Timestamp/Tolerance.antt =====
-- The disorder check of `checkTimestampNew`.
use ultra_mds.Base.{◌<◌, ◌≡◌, ◌↔◌, ◌⊎◌, inl, inr, Bool, true, false, List, [], arith}
use ultra_mds.Base.Int.{ℤ, pos, ◌-ℤ◌, ◌≤ℤ◌, max_ℤ, eq_ℤ_iff, -ℤ_parts}
use ultra_mds.Tick.{TickData}
use ultra_mds.Processor.{UnitProcessor, Message}
use ultra_mds.Processor.Timestamp.{combine_timestamp, judge_timestamp, check_timestamp_new}
use ultra_mds.Processor.Timestamp.Packed.{
  Moment, IsMoment, Shows, packed, combine_timestamp-Shows, combine_timestamp_cases,
}

-- The minute of `c` lies before that of `e` in one day.
abbrev pub EarlierMinute : Moment → Moment → Type 0
EarlierMinute c e = (c.hour < e.hour) ⊎ ((c.hour ≡ e.hour) × (c.minute < e.minute))

module _ {W : Type 0} where
  -- A timestamp may go back, but by the configured tolerance at most.
  abbrev pub InTolerance : UnitProcessor W → ℤ → Type 0
  InTolerance p ts =
      (p.last_timestamp ≤ℤ ts) ⊎ ((p.last_timestamp -ℤ ts) ≤ℤ p.config.max_disorder_tolerance_ms)

  abbrev pub advanced : (p : UnitProcessor W) → ℤ → UnitProcessor W
  advanced p ts = record p { last_timestamp = max_ℤ p.last_timestamp ts }

module _ {W : Type 0} (p : UnitProcessor W) (read : ℤ × List Message) where
  judge_timestamp_ignores_same_ms :
      (allow : Bool)
      → let o = judge_timestamp p read in
        let r =
          judge_timestamp
            (record p { config = record p.config { allow_same_ms_data = allow } })
            read in
        (o.passed ≡ r.passed)
        × (o.messages ≡ r.messages)
        × (o.processor.last_timestamp ≡ r.processor.last_timestamp)
  unfolding judge_timestamp
  judge_timestamp_ignores_same_ms allow = ground (arith, eq_ℤ_iff read.0 p.last_timestamp)

  judge_timestamp-mono : p.last_timestamp ≤ℤ (judge_timestamp p read).processor.last_timestamp
  unfolding judge_timestamp
  judge_timestamp-mono = ground arith

module _ {W : Type 0} (tick : TickData W) (p : UnitProcessor W) where
  -- A tick that shows a moment passes exactly when its timestamp is in tolerance, and the processor
  -- then keeps the later of the two timestamps, whether the tick passed or not.
  pub check_timestamp_new-Shows :
      (c : Moment)
      → IsMoment c
      → Shows p.config tick c
      → (((check_timestamp_new tick p).passed ≡ true) ↔ InTolerance p (pos (packed c)))
        × ((check_timestamp_new tick p).processor ≡ advanced p (pos (packed c)))
  unfolding check_timestamp_new
  check_timestamp_new-Shows c v s = rw (combine_timestamp-Shows p.config tick c v s) (
      ground (
        arith,
        -ℤ_parts p.last_timestamp (pos (packed c)),
        eq_ℤ_iff (pos (packed c)) p.last_timestamp,
      ))

  -- Whether data of the same millisecond is allowed makes no difference: not to the verdict, the log
  -- lines or the timestamp that is kept.
  pub check_timestamp_new_ignores_same_ms :
      (allow : Bool)
      → let o = check_timestamp_new tick p in
        let r =
          check_timestamp_new tick
            (record p { config = record p.config { allow_same_ms_data = allow } }) in
        (o.passed ≡ r.passed)
        × (o.messages ≡ r.messages)
        × (o.processor.last_timestamp ≡ r.processor.last_timestamp)
  unfolding check_timestamp_new combine_timestamp
  check_timestamp_new_ignores_same_ms allow =
      judge_timestamp_ignores_same_ms p (combine_timestamp p.config tick) allow

  -- The check logs exactly when it fails, a failed check leaves the processor as it was, and the
  -- timestamp that is kept never falls.
  pub check_timestamp_new_logs :
      let o = check_timestamp_new tick p in
      ((o.passed ≡ true) ↔ (o.messages ≡ []))
      × (p.last_timestamp ≤ℤ o.processor.last_timestamp)
      × ((o.passed ≡ true) ⊎ (o.processor ≡ p))
  unfolding check_timestamp_new
  check_timestamp_new_logs = elim (combine_timestamp_cases p.config tick) [
    | inl (m, e) ↦ rw e (ground arith)
    | inr (c, v, s, e) ↦ rw e (ground (arith, judge_timestamp-mono p (pos (packed c), [])))
  ]

  -- A tick of an earlier minute of the same day than the last accepted one is dropped, however few
  -- milliseconds late it is, unless the tolerance is above 40,000.
  pub check_timestamp_new_across_minute :
      (c e : Moment)
      → IsMoment c
      → IsMoment e
      → Shows p.config tick c
      → p.last_timestamp ≡ pos (packed e)
      → c.day ≡ e.day
      → EarlierMinute c e
      → p.config.max_disorder_tolerance_ms ≤ℤ pos 40_000
      → (check_timestamp_new tick p).passed ≡ false
  unfolding check_timestamp_new
  check_timestamp_new_across_minute c e v w s l d m t =
      rw (combine_timestamp-Shows p.config tick c v s)
        (ground (arith, -ℤ_parts p.last_timestamp (pos (packed c))))
