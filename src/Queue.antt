-- ===== src/Queue.antt =====
-- Tool/SPSCQueue.h, rigtorp's SPSCQueue: what the program calls of it, as an interface over an abstract
-- type of queues.
pub mod Bounded
use ultra_mds.Base.{
  ℕ, ◌<◌, ◌≡◌, Bool, true, false, Option, none, some, List, [], ◌∷◌, ◌++◌, length, ltb,
}

pub record SpscQueue (A Q : Type 0) : Type 0 where
  -- The constructor, with the capacity.
  pub make : ℕ → Q
  -- `try_emplace` of a complete element; the result says whether there was room.
  pub try_emplace : A → Q → Bool × Q
  -- `empty()` is whether `front()` is `nullptr`.
  pub front : Q → Option A
  pub pop : Q → Q

-- What the documentation says of these operations, with the queued elements, oldest first.
pub record IsSpscQueue (A Q : Type 0) ⦃qs : SpscQueue A Q⦄ : Type 0 where
  pub contents : Q → List A
  pub contents-make : (n : ℕ) → contents (qs.make n) ≡ []
  pub contents-try_emplace :
      (a : A) (q : Q)
      → (qs.try_emplace a q).0 ≡ true
      → contents (qs.try_emplace a q).1 ≡ contents q ++ a ∷ []
  pub contents_when_full :
      (a : A) (q : Q)
      → (qs.try_emplace a q).0 ≡ false
      → contents (qs.try_emplace a q).1 ≡ contents q
  pub front_of_empty : (q : Q) → contents q ≡ [] → qs.front q ≡ none
  pub front_lem : (q : Q) (a : A) (rest : List A) → contents q ≡ a ∷ rest → qs.front q ≡ some a
  pub contents-pop :
      (q : Q) (a : A) (rest : List A) → contents q ≡ a ∷ rest → contents (qs.pop q) ≡ rest
  -- How many elements there is room for, as many as the constructor is told.
  pub capacity : Q → ℕ
  pub capacity-make : (n : ℕ) → 0 < n → capacity (qs.make n) ≡ n
  pub capacity-try_emplace : (a : A) (q : Q) → capacity (qs.try_emplace a q).1 ≡ capacity q
  pub capacity-pop : (q : Q) → capacity (qs.pop q) ≡ capacity q
  pub room_lem : (a : A) (q : Q) → (qs.try_emplace a q).0 ≡ ltb (length (contents q)) (capacity q)
