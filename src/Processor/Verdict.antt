-- ===== src/Processor/Verdict.antt =====
-- How the result of a check is stated.
use ultra_mds.Base.{◌≡◌, ◌↔◌, refl, true, Option, none, some, List, [], ◌∷◌}
use ultra_mds.Processor.{UnitProcessor, Outcome, Message, passes, fails}

-- The call ends without a fault, leaves the processor as it was, logs exactly when it fails, and
-- passes exactly when P holds.
abbrev pub PassesWhen : {W : Type 0} → Option (Outcome W) → UnitProcessor W → Type 0 → Type 0
PassesWhen none p P = ⊥
PassesWhen (some o) p P =
    (o.processor ≡ p) × ((o.passed ≡ true) ↔ P) × ((o.passed ≡ true) ↔ (o.messages ≡ []))

module _ {W : Type 0} (p : UnitProcessor W) {P : Type 0} where
  pub PassesWhen-passes : P → PassesWhen (some (passes p [])) p P
  PassesWhen-passes h = (refl, (λ _. h, λ _. refl), (λ _. refl, λ _. refl))

  pub PassesWhen-fails :
      (m : Message) (ms : List Message) → ¬ P → PassesWhen (some (fails p (m ∷ ms))) p P
  PassesWhen-fails m ms no_P = (refl, (λ e. cc, λ h. absurd (no_P h)), (λ e. cc, λ e. cc))

pub PassesWhen-iff :
    {W : Type 0} {P Q : Type 0} (r : Option (Outcome W)) (p : UnitProcessor W)
    → P ↔ Q
    → PassesWhen r p P
    → PassesWhen r p Q
PassesWhen-iff none p e h = h
PassesWhen-iff (some o) p e h = (h.0, (λ t. e.0 (h.1.0 t), λ q. h.1.1 (e.1 q)), h.2)
