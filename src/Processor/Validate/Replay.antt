-- ===== src/Processor/Validate/Replay.antt =====
-- A tick at the end of a sequence, and the rules over a sequence.
use mathlib.Core.Path.{subst}
use mathlib.Core.Option.{some-injective}
use ultra_mds.Base.{
  ◌≡◌, refl, sym, ap, ◌∙◌, inl, inr, none, some, List, [], ◌∷◌, ◌++◌, if◌then◌else◌, Bool-cases,
  Option-cases,
}
use ultra_mds.Double.{Double}
use ultra_mds.Tick.{TickData}
use ultra_mds.Processor.{UnitProcessor, Outcome}
use ultra_mds.Processor.Validate.{validate}
use ultra_mds.Processor.Validate.Ends.{Ends, EndsBy}
use ultra_mds.Processor.Validate.Rules.{
  Success, Failure, validate-Ends, AfterTimestamp-config, IsAdvanced-config,
}
use ultra_mds.Processor.Validate.History.{validate_all}

-- The ticks that passed, and the processor after them.
abbrev pub Replayed : Type 0 → Type 0
Replayed W = List (TickData W) × UnitProcessor W

module _ {W : Type 0} ⦃d : Double W⦄ where
  pub validate-total :
      (t : TickData W) (p : UnitProcessor W) → (o : Outcome W) × (validate t p ≡ some o)
  validate-total t p = elim (Option-cases (validate t p)) [
    | inl g ↦ absurd (subst (λ r. Ends r (Success t p) (Failure t p)) g (validate-Ends t p))
    | inr found ↦ found
  ]

  pub validate-config :
      (t : TickData W) (p : UnitProcessor W) (o : Outcome W)
      → validate t p ≡ some o
      → o.processor.config ≡ p.config
  validate-config t p o e =
      let ends = subst (λ r. Ends r (Success t p) (Failure t p)) e (validate-Ends t p) in
      elim (Bool-cases o.passed) [
        | inl passed ↦
            let done =
              subst (λ b. EndsBy b o.messages o.processor (Success t p) (Failure t p)) passed
                ends in
            AfterTimestamp-config t p o.processor done.1.1
        | inr failed ↦
            let done =
              subst (λ b. EndsBy b o.messages o.processor (Success t p) (Failure t p)) failed
                ends in
            IsAdvanced-config t p o.processor done.1.1
      ]

  abbrev pub kept_of : TickData W → Outcome W → List (TickData W)
  kept_of t o = if o.passed then t ∷ [] else []

  -- The result of the first tick, then those of the rest.
  abbrev joined : TickData W → Outcome W → Replayed W → Replayed W
  joined t o r = (if o.passed then t ∷ r.0 else r.0, r.1)

  validate_all-cons :
      (t : TickData W) (ts : List (TickData W)) (p : UnitProcessor W) (o : Outcome W)
      (r : Replayed W)
      → validate t p ≡ some o
      → validate_all ts o.processor ≡ some r
      → validate_all (t ∷ ts) p ≡ some (joined t o r)
  unfolding validate_all
  validate_all-cons t ts p o r e f = rw (e, f) refl

  validate_all-cons_none :
      (t : TickData W) (ts : List (TickData W)) (p : UnitProcessor W) (o : Outcome W)
      → validate t p ≡ some o
      → validate_all ts o.processor ≡ none
      → validate_all (t ∷ ts) p ≡ none
  unfolding validate_all
  validate_all-cons_none t ts p o e f = rw (e, f) refl

  -- What a sequence that is not empty has done.
  validate_all_cases :
      (t : TickData W) (ts : List (TickData W)) (p : UnitProcessor W) (r : Replayed W)
      → validate_all (t ∷ ts) p ≡ some r
      → (o : Outcome W) × (s : Replayed W) × (validate t p ≡ some o)
        × (validate_all ts o.processor ≡ some s)
        × (r ≡ joined t o s)
  validate_all_cases t ts p r h =
      let (o, e) = validate-total t p in
      elim (Option-cases (validate_all ts o.processor)) [
        | inl f ↦ absurd (cc (h, validate_all-cons_none t ts p o e f))
        | inr (s, f) ↦ (o, s, e, f, some-injective _ _ (sym h ∙ validate_all-cons t ts p o s e f))
      ]

  joined-append :
      (t : TickData W) (o : Outcome W) (s : Replayed W) (more : List (TickData W))
      (q : UnitProcessor W)
      → joined t o (s.0 ++ more, q) ≡ ((joined t o s).0 ++ more, q)
  joined-append t o s more q = elim (Bool-cases o.passed) [ inl e ↦ rw e refl | inr e ↦ rw e refl ]

  pub validate_all-snoc :
      (ts : List (TickData W)) (t : TickData W) (p : UnitProcessor W) (r : Replayed W)
      (o : Outcome W)
      → validate_all ts p ≡ some r
      → validate t r.1 ≡ some o
      → validate_all (ts ++ t ∷ []) p ≡ some (r.0 ++ kept_of t o, o.processor)
  validate_all-snoc [] t p r o h e =
      let empty : validate_all [] p ≡ some ([], p) = unfold validate_all in refl in
      let done : validate_all [] o.processor ≡ some ([], o.processor) =
        unfold validate_all in refl in
      let same : r ≡ ([], p) = some-injective _ _ (sym h ∙ empty) in
      let e' : validate t p ≡ some o = ap (λ (x : Replayed W). validate t x.1) (sym same) ∙ e in
      validate_all-cons t [] p o ([], o.processor) e' done
      ∙ ap (λ (x : Replayed W). some (x.0 ++ kept_of t o, o.processor)) (sym same)
  validate_all-snoc (u ∷ us) t p r o h e =
      let (o', s, first, others, same) = validate_all_cases u us p r h in
      let e' : validate t s.1 ≡ some o = ap (λ (x : Replayed W). validate t x.1) (sym same) ∙ e in
      let ih = validate_all-snoc us t o'.processor s o others e' in
      validate_all-cons u (us ++ t ∷ []) p o' (s.0 ++ kept_of t o, o.processor) first ih
      ∙ ap some (joined-append u o' s (kept_of t o) o.processor)
      ∙ ap (λ (x : Replayed W). some (x.0 ++ kept_of t o, o.processor)) (sym same)
