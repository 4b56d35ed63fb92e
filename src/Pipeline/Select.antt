-- ===== src/Pipeline/Select.antt =====
-- The ticks of one processor among those of all, and what was sent for them.
use ultra_mds.Base.{
  ℕ, ◌≡◌, ◌≢◌, refl, ap, ◌∙◌, sym, Bool, true, false, Option, none, some, List, [], ◌∷◌, ◌++◌, ◌==◌,
  inl, inr, if◌then◌else◌, map, Bool-cases, arith,
}
use ultra_mds.Tick.{TickData}
use ultra_mds.Handler.{SendEvent}

abbrev pub is_index : ℕ → Option ℕ → Bool
is_index i none = false
is_index i (some j) = i == j

module _ {A : Type 0} where
  pub append_assoc : (xs ys zs : List A) → (xs ++ ys) ++ zs ≡ xs ++ (ys ++ zs)
  append_assoc [] ys zs = refl
  append_assoc (x ∷ xs) ys zs = ap (λ rest. x ∷ rest) (append_assoc xs ys zs)

  pub append_nil : (xs : List A) → xs ++ [] ≡ xs
  append_nil [] = refl
  append_nil (x ∷ xs) = ap (λ rest. x ∷ rest) (append_nil xs)

pub map-append :
    {A B : Type 0} (f : A → B) (xs ys : List A) → map f (xs ++ ys) ≡ map f xs ++ map f ys
map-append f [] ys = refl
map-append f (x ∷ xs) ys = ap (λ rest. f x ∷ rest) (map-append f xs ys)

module _ {W : Type 0} (i : ℕ) where
  -- The ticks of the i-th processor, in order.
  unfoldable pub ticks_of : List (TickData W) → List (TickData W)
  ticks_of [] = []
  ticks_of (t ∷ ts) = let rest = ticks_of ts in if is_index i t.detector then t ∷ rest else rest

  pub ticks_of-append :
      (ts us : List (TickData W)) → ticks_of (ts ++ us) ≡ ticks_of ts ++ ticks_of us
  unfolding ticks_of
  ticks_of-append [] us = refl
  ticks_of-append (t ∷ ts) us = elim (Bool-cases (is_index i t.detector)) [
    | inl e ↦ rw e (ap (λ rest. t ∷ rest) (ticks_of-append ts us))
    | inr e ↦ rw e (ticks_of-append ts us)
  ]

  ticks_of_when :
      (t : TickData W) (b : Bool)
      → is_index i t.detector ≡ b
      → ticks_of (t ∷ []) ≡ (if b then t ∷ [] else [])
  unfolding ticks_of
  ticks_of_when t b e = ap (λ c. if c then t ∷ [] else []) e

  -- What the handlers sent for the ticks of the i-th processor, in order.
  unfoldable pub sent_of : List (TickData W × List SendEvent) → List SendEvent
  sent_of [] = []
  sent_of ((t, events) ∷ turns) =
      let rest = sent_of turns in if is_index i t.detector then events ++ rest else rest

  pub sent_of-append :
      (ts us : List (TickData W × List SendEvent)) → sent_of (ts ++ us) ≡ sent_of ts ++ sent_of us
  unfolding sent_of
  sent_of-append [] us = refl
  sent_of-append ((t, events) ∷ ts) us = elim (Bool-cases (is_index i t.detector)) [
    | inl e ↦ rw e (
        ap (λ rest. events ++ rest) (sent_of-append ts us)
        ∙ sym (append_assoc events (sent_of ts) (sent_of us)))
    | inr e ↦ rw e (sent_of-append ts us)
  ]

  sent_of_when :
      (t : TickData W) (events : List SendEvent) (b : Bool)
      → is_index i t.detector ≡ b
      → sent_of ((t, events) ∷ []) ≡ (if b then events else [])
  unfolding sent_of
  sent_of_when t events b e = ap (λ c. if c then events ++ [] else []) e ∙ when b
    where
      when : (c : Bool) → (if c then events ++ [] else []) ≡ (if c then events else [])
      when true = append_nil events
      when false = refl

is_index_self : (i : ℕ) → is_index i (some i) ≡ true
is_index_self i = ground arith

is_index_other : (i j : ℕ) → i ≢ j → is_index i (some j) ≡ false
is_index_other i j h = ground arith

module _ {W : Type 0} (i j : ℕ) (t : TickData W) (e : t.detector ≡ some j) where
  pub ticks_of_own : i ≡ j → ticks_of i (t ∷ []) ≡ t ∷ []
  ticks_of_own h = ticks_of_when i t true (ap (is_index i) e ∙ rw h (is_index_self j))

  pub ticks_of_other : i ≢ j → ticks_of i (t ∷ []) ≡ []
  ticks_of_other h = ticks_of_when i t false (ap (is_index i) e ∙ is_index_other i j h)

  pub sent_of_own : (events : List SendEvent) → i ≡ j → sent_of i ((t, events) ∷ []) ≡ events
  sent_of_own events h = sent_of_when i t events true (ap (is_index i) e ∙ rw h (is_index_self j))

  pub sent_of_other : (events : List SendEvent) → i ≢ j → sent_of i ((t, events) ∷ []) ≡ []
  sent_of_other events h = sent_of_when i t events false (ap (is_index i) e ∙ is_index_other i j h)
