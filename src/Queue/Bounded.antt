-- ===== src/Queue/Bounded.antt =====
-- An instance of the interface for the tests: a list with a capacity.
use ultra_mds.Base.{
  ℕ, refl, Bool, true, false, Option, none, some, List, [], ◌∷◌, ◌++◌, length, ltb, if◌then◌else◌,
  arith,
}
use ultra_mds.Queue.{SpscQueue, IsSpscQueue}

pub record Bounded (A : Type 0) : Type 0 where
  pub capacity : ℕ
  pub elements : List A

module _ {A : Type 0} where
  abbrev offer : A → Bounded A → Bool × Bounded A
  offer a q =
      if ltb (length q.elements) q.capacity
      then (true, record q { elements = q.elements ++ a ∷ [] })
      else (false, q)

  abbrev head : List A → Option A
  head [] = none
  head (a ∷ rest) = some a

  abbrev tail : List A → List A
  tail [] = []
  tail (a ∷ rest) = rest

  instance abbrev pub bounded_queue : SpscQueue A (Bounded A)
  bounded_queue = record {
    make = λ n. record { capacity = n; elements = [] };
    try_emplace = offer;
    front = λ q. head q.elements;
    pop = λ q. record q { elements = tail q.elements };
  }

  pub Bounded-IsSpscQueue : IsSpscQueue A (Bounded A)
  Bounded-IsSpscQueue = record {
    contents = λ q. q.elements;
    contents-make = λ n. refl;
    contents-try_emplace = λ a q h. ground (arith);
    contents_when_full = λ a q h. ground (arith);
    front_of_empty = λ q e. rw e;
    front_lem = λ q a rest e. rw e;
    contents-pop = λ q a rest e. rw e;
    capacity = λ q. q.capacity;
    capacity-make = λ n h. refl;
    capacity-try_emplace = λ a q. ground arith;
    capacity-pop = λ q. refl;
    room_lem = λ a q. ground arith;
  }
