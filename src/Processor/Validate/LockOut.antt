-- ===== src/Processor/Validate/LockOut.antt =====
-- What a tick that is refused leaves behind.
use mathlib.Core.Path.{subst}
use ultra_mds.Base.{
  ℕ, ◌+◌, ◌<◌, ◌≡◌, refl, sym, ap, ◌∙◌, ◌⊎◌, inl, inr, true, false, some, arith, Bool-cases,
}
use ultra_mds.Base.Int.{ℤ, pos, ◌-ℤ◌, ◌≤ℤ◌, max_ℤ, -ℤ_parts}
use ultra_mds.Double.{Double}
use ultra_mds.Tick.{TickData}
use ultra_mds.Processor.{UnitProcessor, Outcome, Check}
use ultra_mds.Processor.WhiteList.{check_white_list}
use ultra_mds.Processor.WhiteList.Rules.{check_white_list_iff}
use ultra_mds.Processor.Timestamp.{check_timestamp_new}
use ultra_mds.Processor.Timestamp.Packed.{Moment, IsMoment, Shows, packed}
use ultra_mds.Processor.Timestamp.Tolerance.{
  InTolerance, advanced, check_timestamp_new-Shows, check_timestamp_new_logs,
}
use ultra_mds.Processor.Validate.{gate, and_then, validate}
use ultra_mds.Processor.Validate.Ends.{
  Ends, EndsBy, EndsBy-cases, Ends-gate, Ends-and_then, Ends-PassesWhen, PassesWhen-gate,
}
use ultra_mds.Processor.Validate.Rules.{
  Success, Failure, rest, rest-PassesWhen, ListedRule, stamp, validate-Ends, packed_unique,
}
use ultra_mds.Processor.Validate.Replay.{validate-total}

far_behind :
    (last limit : ℤ) (later earlier tolerance : ℕ)
    → limit ≡ pos tolerance
    → earlier + tolerance < later
    → (max_ℤ last (pos later) ≤ℤ pos earlier) ⊎ ((max_ℤ last (pos later) -ℤ pos earlier) ≤ℤ limit)
    → ⊥
far_behind last limit later earlier tolerance same far fits =
    ground (arith, -ℤ_parts (max_ℤ last (pos later)) (pos earlier))

module _ {W : Type 0} ⦃d : Double W⦄ (tick : TickData W) (p : UnitProcessor W) (c : Moment)
    (on : p.config.enable_timestamp_check ≡ true) (v : IsMoment c) (s : Shows p.config tick c) where
  abbrev Moved : UnitProcessor W → Type 0
  Moved q = q ≡ advanced p (pos (packed c))

  stamp-Moved : Ends (stamp tick p p) Moved Moved
  stamp-Moved =
      let o = check_timestamp_new tick p in
      let (silent, _, _) = check_timestamp_new_logs tick p in
      let (_, moved) = check_timestamp_new-Shows tick p c v s in
      EndsBy-cases Moved Moved o (λ t. (silent.0 t, moved))
        (λ f. ((λ e. cc (f, silent.1 e)), moved))

  rest-Moved : (q : UnitProcessor W) → Moved q → Ends (rest tick p q) Moved Moved
  rest-Moved q m =
      Ends-PassesWhen Moved Moved (rest tick p q) q (rest-PassesWhen tick p q) (λ _. m) (λ _. m)

  past_stamp :
      Ends
        (and_then (gate p.config.enable_timestamp_check (stamp tick p)) (rest tick p) p)
        Moved
        Moved
  past_stamp =
      Ends-and_then Moved Moved Moved Moved (gate p.config.enable_timestamp_check (stamp tick p) p)
        (rest tick p)
        (Ends-gate Moved Moved p.config.enable_timestamp_check (stamp tick p) p (λ _. stamp-Moved)
          (λ off. absurd (cc (on, off))))
        rest-Moved (λ q m. m)

  -- A tick that gets past the white list moves the timestamp, whatever the later checks say of it.
  validate-Moved : ListedRule tick p → Ends (validate tick p) Moved Moved
  unfolding validate
  validate-Moved listed =
      let check : Check W = λ q. some (check_white_list tick q) in
      let Here : UnitProcessor W → Type 0 = λ q. q ≡ p in
      let Nowhere : UnitProcessor W → Type 0 = λ q. ⊥ in
      Ends-and_then Moved Moved Here Nowhere (gate p.config.enable_exchange_check check p)
        (and_then (gate p.config.enable_timestamp_check (stamp tick p)) (rest tick p))
        (Ends-PassesWhen Here Nowhere (gate p.config.enable_exchange_check check p) p
          (PassesWhen-gate _ p.config.enable_exchange_check check p (check_white_list_iff tick p))
          (λ _. refl) (λ barred. barred listed))
        (λ q e. rw e past_stamp) (λ q f. absurd f)

  after_Moved : (o : Outcome W) → ListedRule tick p → validate tick p ≡ some o → Moved o.processor
  after_Moved o listed e =
      let ends = subst (λ r. Ends r Moved Moved) e (validate-Moved listed) in
      elim (Bool-cases o.passed) [
        | inl t ↦ (subst (λ b. EndsBy b o.messages o.processor Moved Moved) t ends).1
        | inr f ↦ (subst (λ b. EndsBy b o.messages o.processor Moved Moved) f ends).1
      ]

module _ {W : Type 0} ⦃d : Double W⦄ (tick : TickData W) (p : UnitProcessor W) (c : Moment)
    (on : p.config.enable_timestamp_check ≡ true) (v : IsMoment c) (s : Shows p.config tick c) where
  -- A tick that is not in tolerance is refused.
  late_fails :
      (o : Outcome W)
      → validate tick p ≡ some o
      → ¬ InTolerance p (pos (packed c))
      → o.passed ≡ false
  late_fails o e late =
      let ends = subst (λ r. Ends r (Success tick p) (Failure tick p)) e (validate-Ends tick p) in
      elim (Bool-cases o.passed) [
        | inl t ↦
            let done =
              subst (λ b. EndsBy b o.messages o.processor (Success tick p) (Failure tick p)) t
                ends in
            let (x, v', s', fits) = done.1.0.timely on in
            let same : packed x ≡ packed c = packed_unique tick p x c v' v s' s in
            absurd (late (subst (λ n. InTolerance p (pos n)) same fits))
        | inr f ↦ f
      ]

module _ {W : Type 0} ⦃d : Double W⦄ (bad good : TickData W) (p : UnitProcessor W) where
  too_late :
      (e c : Moment) (tolerance : ℕ)
      → p.config.max_disorder_tolerance_ms ≡ pos tolerance
      → packed c + tolerance < packed e
      → ¬ InTolerance (advanced p (pos (packed e))) (pos (packed c))
  too_late e c tolerance same far fits =
      far_behind p.last_timestamp p.config.max_disorder_tolerance_ms (packed e) (packed c) tolerance
        same far fits

  -- One tick of a wrong, later time locks out the good ones behind it: with the timestamp check on, a tick
  -- that gets past the white list makes the processor refuse each tick that is behind it by more than the
  -- tolerance, also if the tick itself is refused by a later check.
  pub validate_locks_out :
      (e c : Moment) (tolerance : ℕ)
      → p.config.enable_timestamp_check ≡ true
      → p.config.max_disorder_tolerance_ms ≡ pos tolerance
      → ListedRule bad p
      → IsMoment e
      → Shows p.config bad e
      → IsMoment c
      → Shows p.config good c
      → packed c + tolerance < packed e
      → (o r : Outcome W) × (validate bad p ≡ some o)
        × (validate good o.processor ≡ some r)
        × (r.passed ≡ false)
  validate_locks_out e c tolerance on same listed ve se vc sc far =
      let (o, run) = validate-total bad p in
      let (r, run') = validate-total good o.processor in
      let moved = after_Moved bad p e on ve se o listed run in
      let run'' : validate good (advanced p (pos (packed e))) ≡ some r =
        ap (validate good) (sym moved) ∙ run' in
      (
        o,
        r,
        run,
        run',
        late_fails good (advanced p (pos (packed e))) c on vc sc r run''
            (too_late e c tolerance same far),
      )
