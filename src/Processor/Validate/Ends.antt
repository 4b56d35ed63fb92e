-- ===== src/Processor/Validate/Ends.antt =====
-- Rules for the chain of checks in `validate`: how a call ends, on success and on failure.
use mathlib.Core.Path.{subst}
use ultra_mds.Base.{
  ◌≡◌, refl, inl, inr, Bool, true, false, Option, none, some, List, [], ◌++◌, ◌>>=◌, Bool-cases,
}
use ultra_mds.Processor.{UnitProcessor, Outcome, Check, Message}
use ultra_mds.Processor.Verdict.{PassesWhen, PassesWhen-passes, PassesWhen-iff}
use ultra_mds.Processor.Validate.{gate, continue}

module _ {W : Type 0} where
  -- A call that ends without a fault: with no log line in a state of S, or with one in a state of F.
  abbrev pub EndsBy :
      Bool
      → List Message
      → UnitProcessor W
      → (UnitProcessor W → Type 0)
      → (UnitProcessor W → Type 0)
      → Type 0
  EndsBy true ms q S F = (ms ≡ []) × S q
  EndsBy false ms q S F = (ms ≡ [] → ⊥) × F q

  abbrev pub Ends :
      Option (Outcome W) → (UnitProcessor W → Type 0) → (UnitProcessor W → Type 0) → Type 0
  Ends none S F = ⊥
  Ends (some o) S F = EndsBy o.passed o.messages o.processor S F

module _ {W : Type 0} (S F : UnitProcessor W → Type 0) where
  pub EndsBy-cases :
      (o : Outcome W)
      → (o.passed ≡ true → (o.messages ≡ []) × S o.processor)
      → (o.passed ≡ false → (o.messages ≡ [] → ⊥) × F o.processor)
      → Ends (some o) S F
  EndsBy-cases o good bad = elim (Bool-cases o.passed) [
    | inl e ↦ rw e (good e)
    | inr e ↦ rw e (bad e)
  ]

  pub Ends-mono :
      (S' F' : UnitProcessor W → Type 0) (r : Option (Outcome W))
      → Ends r S' F'
      → ((q : UnitProcessor W) → S' q → S q)
      → ((q : UnitProcessor W) → F' q → F q)
      → Ends r S F
  Ends-mono S' F' none h good bad = h
  Ends-mono S' F' (some o) h good bad =
      EndsBy-cases o
        (λ t.
          let done = subst (λ b. EndsBy b o.messages o.processor S' F') t h in
          (done.0, good o.processor done.1))
        (λ f.
          let failed = subst (λ b. EndsBy b o.messages o.processor S' F') f h in
          (failed.0, bad o.processor failed.1))

  pub Ends-gate :
      (enabled : Bool) (check : Check W) (p : UnitProcessor W)
      → (enabled ≡ true → Ends (check p) S F)
      → (enabled ≡ false → S p)
      → Ends (gate enabled check p) S F
  Ends-gate true check p on off = on refl
  Ends-gate false check p on off = (refl, off refl)

module _ {W : Type 0} (S F : UnitProcessor W → Type 0) where
  Ends-prefix :
      (ms : List Message) (r : Option (Outcome W))
      → ms ≡ []
      → Ends r S F
      → Ends (r >>= λ o. some (record o { messages = ms ++ o.messages })) S F
  Ends-prefix ms none e h = h
  Ends-prefix ms (some o) e h = rw e h

  pub Ends-and_then :
      (S' F' : UnitProcessor W → Type 0) (r : Option (Outcome W)) (next : Check W)
      → Ends r S' F'
      → ((q : UnitProcessor W) → S' q → Ends (next q) S F)
      → ((q : UnitProcessor W) → F' q → F q)
      → Ends (r >>= continue next) S F
  Ends-and_then S' F' none next h good bad = h
  Ends-and_then S' F' (some o) next h good bad = elim (Bool-cases o.passed) [
    | inl e ↦
        let done : (o.messages ≡ []) × S' o.processor =
          subst (λ b. EndsBy b o.messages o.processor S' F') e h in
        rw e (Ends-prefix o.messages (next o.processor) done.0 (good o.processor done.1))
    | inr e ↦
        let failed : (o.messages ≡ [] → ⊥) × F' o.processor =
          subst (λ b. EndsBy b o.messages o.processor S' F') e h in
        rw e (failed.0, bad o.processor failed.1)
  ]

module _ {W : Type 0} (S F : UnitProcessor W → Type 0) {P : Type 0} where
  pub Ends-PassesWhen :
      (r : Option (Outcome W)) (p : UnitProcessor W)
      → PassesWhen r p P
      → (P → S p)
      → (¬ P → F p)
      → Ends r S F
  Ends-PassesWhen none p h good bad = h
  Ends-PassesWhen (some o) p h good bad =
      EndsBy-cases S F o (λ t. (h.2.0 t, rw h.0 (good (h.1.0 t))))
        (λ f. (λ e. cc (f, h.2.1 e), rw h.0 (bad (λ x. cc (f, h.1.1 x)))))

-- Checks that leave the processor as it was: a gate and a chain of them are such checks again.
module _ {W : Type 0} (P : Type 0) where
  pub PassesWhen-gate :
      (enabled : Bool) (check : Check W) (p : UnitProcessor W)
      → PassesWhen (check p) p P
      → PassesWhen (gate enabled check p) p (enabled ≡ true → P)
  PassesWhen-gate true check p h = PassesWhen-iff (check p) p (λ x _. x, λ f. f refl) h
  PassesWhen-gate false check p h = PassesWhen-passes p (λ e. cc)

  PassesWhen-prefix :
      (Q : Type 0) (ms : List Message) (r : Option (Outcome W)) (p : UnitProcessor W)
      → ms ≡ []
      → P
      → PassesWhen r p Q
      → PassesWhen (r >>= λ o. some (record o { messages = ms ++ o.messages })) p (P × Q)
  PassesWhen-prefix Q ms none p e x h = h
  PassesWhen-prefix Q ms (some o) p e x h = rw e (h.0, (λ t. (x, h.1.0 t), λ y. h.1.1 y.1), h.2)

  pub PassesWhen-and_then :
      (Q : Type 0) (r : Option (Outcome W)) (next : Check W) (p : UnitProcessor W)
      → PassesWhen r p P
      → PassesWhen (next p) p Q
      → PassesWhen (r >>= continue next) p (P × Q)
  PassesWhen-and_then Q none next p h k = h
  PassesWhen-and_then Q (some o) next p h k = elim (Bool-cases o.passed) [
    | inl e ↦ rw (e, h.0) (PassesWhen-prefix Q o.messages (next p) p (h.2.0 e) (h.1.0 e) k)
    | inr e ↦ rw e (h.0, (λ t. cc, λ y. cc (e, h.1.1 y.0)), rw e at (h.2))
  ]
