-- ===== src/Processor/Validate/History.antt =====
-- A processor over a whole sequence of ticks, as its handler's thread feeds it.
use mathlib.Core.Path.{subst}
use ultra_mds.Base.{
  ◌≡◌, refl, ap, ◌∙◌, inl, inr, true, false, Option, some, List, [], ◌∷◌, ◌>>=◌, if◌then◌else◌, All,
  arith, Bool-cases, Option-cases,
}
use ultra_mds.Base.Int.{ℤ, pos, ◌+ℤ◌, ◌≤ℤ◌, max_ℤ, +ℤ_parts, -ℤ_parts}
use ultra_mds.Double.{Double}
use ultra_mds.Tick.{TickData}
use ultra_mds.Config.{SpecialConfig}
use ultra_mds.Processor.{UnitProcessor, Outcome}
use ultra_mds.Processor.Timestamp.Packed.{Moment, IsMoment, Shows, packed}
use ultra_mds.Processor.Timestamp.Tolerance.{InTolerance}
use ultra_mds.Processor.Validate.{validate}
use ultra_mds.Processor.Validate.Ends.{Ends, EndsBy}
use ultra_mds.Processor.Validate.Rules.{
  IsAdvanced, AfterTimestamp, Success, Failure, validate-Ends, AfterTimestamp-config,
  IsAdvanced-config, packed_unique,
}

module _ {W : Type 0} ⦃d : Double W⦄ where
  -- The ticks that pass, in order, and the processor after them.
  unfoldable pub validate_all :
      List (TickData W) → UnitProcessor W → Option (List (TickData W) × UnitProcessor W)
  validate_all [] p = some ([], p)
  validate_all (t ∷ ts) p = validate t p >>= λ o.
      validate_all ts o.processor >>= λ (kept, q). some (if o.passed then t ∷ kept else kept, q)

module _ {W : Type 0} (config : SpecialConfig W) where
  abbrev slack : ℤ
  slack = max_ℤ (pos 0) config.max_disorder_tolerance_ms

  -- No tick of the list is behind the bound by more than the tolerance.
  abbrev pub BehindAtMost : ℤ → List (TickData W) → Type 0
  BehindAtMost bound =
      All λ t. (c : Moment) → IsMoment c → Shows config t c → bound ≤ℤ pos (packed c) +ℤ slack

  -- No tick of the list is behind an earlier one by more than the tolerance.
  abbrev pub IsNearlySorted : List (TickData W) → Type 0
  IsNearlySorted [] = Unit
  IsNearlySorted (t ∷ ts) =
      ((c : Moment) → IsMoment c → Shows config t c → BehindAtMost (pos (packed c)) ts)
      × IsNearlySorted ts

  BehindAtMost-mono :
      (a b : ℤ) (ts : List (TickData W)) → a ≤ℤ b → BehindAtMost b ts → BehindAtMost a ts
  BehindAtMost-mono a b [] h k = tt
  BehindAtMost-mono a b (t ∷ ts) h (k, ks) =
      (λ c v s. omega (arith, k c v s), BehindAtMost-mono a b ts h ks)

module _ {W : Type 0} ⦃d : Double W⦄ where
  -- What the induction carries: the result, and its order from the processor's timestamp on.
  abbrev Kept : List (TickData W) → UnitProcessor W → Type 0
  Kept ts p =
      (r : List (TickData W) × UnitProcessor W) × (validate_all ts p ≡ some r)
      × BehindAtMost p.config p.last_timestamp r.0
      × IsNearlySorted p.config r.0

  on_time :
      (p : UnitProcessor W) (a b : ℤ)
      → InTolerance p a
      → a ≡ b
      → p.last_timestamp ≤ℤ b +ℤ slack p.config
  on_time p a b h e =
      rw (← e) (ground (arith, -ℤ_parts p.last_timestamp a, +ℤ_parts a (slack p.config)))

  module _ (t : TickData W) (ts : List (TickData W)) (p : UnitProcessor W) (o : Outcome W)
      (on : p.config.enable_timestamp_check ≡ true) (e : validate t p ≡ some o) where
    Kept-passed :
        o.passed ≡ true → AfterTimestamp t p o.processor → Kept ts o.processor → Kept (t ∷ ts) p
    unfolding validate_all
    Kept-passed passed (inl (off, _)) k = absurd (cc (off, on))
    Kept-passed passed (inr (_, (c, v, s, h, same))) (r, run, behind, sorted) =
        let later : BehindAtMost p.config (max_ℤ p.last_timestamp (pos (packed c))) r.0 =
          subst (λ q. BehindAtMost q.config q.last_timestamp r.0) same behind in
        let order : IsNearlySorted p.config r.0 =
          subst (λ q. IsNearlySorted q.config r.0) same sorted in
        let agree = λ (x : Moment) (v' : IsMoment x) (s' : Shows p.config t x).
          packed_unique t p c x v v' s s' in
        (
          (t ∷ r.0, r.1),
          rw (e, run, passed),
          (
            λ x v' s'. on_time p (pos (packed c)) (pos (packed x)) h (ap pos (agree x v' s')),
            BehindAtMost-mono p.config p.last_timestamp (max_ℤ p.last_timestamp (pos (packed c)))
                r.0 (ground arith) later,
          ),
          (
            λ x v' s'.
                BehindAtMost-mono p.config (pos (packed x))
                  (max_ℤ p.last_timestamp (pos (packed c))) r.0 (ground (arith, agree x v' s'))
                  later,
            order,
          ),
        )

    Kept-failed :
        o.passed ≡ false → IsAdvanced t p o.processor → Kept ts o.processor → Kept (t ∷ ts) p
    unfolding validate_all
    Kept-failed failed (inl same) (r, run, behind, sorted) = (
      (r.0, r.1),
      rw (e, run, failed),
      subst (λ q. BehindAtMost q.config q.last_timestamp r.0) same behind,
      subst (λ q. IsNearlySorted q.config r.0) same sorted,
    )
    Kept-failed failed (inr (_, (c, v, s, same))) (r, run, behind, sorted) =
        let later : BehindAtMost p.config (max_ℤ p.last_timestamp (pos (packed c))) r.0 =
          subst (λ q. BehindAtMost q.config q.last_timestamp r.0) same behind in
        (
          (r.0, r.1),
          rw (e, run, failed),
          BehindAtMost-mono p.config p.last_timestamp (max_ℤ p.last_timestamp (pos (packed c))) r.0
              (ground arith) later,
          subst (λ q. IsNearlySorted q.config r.0) same sorted,
        )

  validate_all-Kept :
      (ts : List (TickData W)) (p : UnitProcessor W)
      → p.config.enable_timestamp_check ≡ true
      → Kept ts p
  validate_all-Kept [] p on = unfold validate_all in (([], p), refl, tt, tt)
  validate_all-Kept (t ∷ ts) p on = elim (Option-cases (validate t p)) [
    | inl e ↦ absurd (subst (λ r. Ends r (Success t p) (Failure t p)) e (validate-Ends t p))
    | inr (o, e) ↦
        let still = λ (q : UnitProcessor W) (same : q.config ≡ p.config).
          ap (λ (c : SpecialConfig W). c.enable_timestamp_check) same ∙ on in
        let ends = subst (λ r. Ends r (Success t p) (Failure t p)) e (validate-Ends t p) in
        elim (Bool-cases o.passed) [
          | inl passed ↦
              let done =
                subst (λ b. EndsBy b o.messages o.processor (Success t p) (Failure t p)) passed
                  ends in
              Kept-passed t ts p o on e passed done.1.1 (
                validate_all-Kept ts o.processor
                  (still o.processor (AfterTimestamp-config t p o.processor done.1.1)))
          | inr failed ↦
              let done =
                subst (λ b. EndsBy b o.messages o.processor (Success t p) (Failure t p)) failed
                  ends in
              Kept-failed t ts p o on e failed done.1.1 (
                validate_all-Kept ts o.processor
                  (still o.processor (IsAdvanced-config t p o.processor done.1.1)))
        ]
  ]

  -- With the timestamp check on, a processor handles every sequence of ticks without a fault, and
  -- among the ticks that it lets pass none is behind an earlier one by more than the tolerance.
  pub validate_all-IsNearlySorted :
      (ts : List (TickData W)) (p : UnitProcessor W)
      → p.config.enable_timestamp_check ≡ true
      → (r : List (TickData W) × UnitProcessor W) × (validate_all ts p ≡ some r)
        × IsNearlySorted p.config r.0
  validate_all-IsNearlySorted ts p on =
      let (r, run, _, sorted) = validate_all-Kept ts p on in (r, run, sorted)
