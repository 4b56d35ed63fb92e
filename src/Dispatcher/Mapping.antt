-- ===== src/Dispatcher/Mapping.antt =====
-- Which queue and which processor the dispatcher's table holds for a contract.
use mathlib.Core.Path.{subst}
use native.Mathlib.Nat.{mod-add-mod, zero-mod}
use ultra_mds.Base.{
  ℕ, suc, ◌+◌, ◌%◌, ◌<◌, ◌≡◌, inl, inr, refl, sym, ap, ◌∙◌, false, Option, none, some, List, [],
  ◌∷◌, ◌>>=◌, ◌==◌, if◌then◌else◌, length, map, arith, Bool-cases, Option-cases,
}
use ultra_mds.Base.Bytes.{Bytes, same, same_refl, same_iff}
use ultra_mds.Dispatcher.{
  DispatchUnit, Dispatcher, no_dispatcher, find, emplace, assign, init_dispatcher,
}

-- The first index at which a name stands.
unfoldable pub first_index : Bytes → List Bytes → Option ℕ
first_index key [] = none
first_index key (name ∷ names) =
    let rest = first_index key names >>= λ i. some (suc i) in if same key name then some 0 else rest

abbrev unit_at : ℕ → ℕ → Option ℕ → Option DispatchUnit
unit_at n i none = none
unit_at n i (some j) = some (record { index_contract = (i + j) % n; index_unit_processor = i + j })

-- The entry of the i-th processor.
abbrev pub unit_of : ℕ → Option ℕ → Option DispatchUnit
unit_of n none = none
unit_of n (some i) = some (record { index_contract = i % n; index_unit_processor = i })

unit_at-zero : (n : ℕ) (o : Option ℕ) → unit_at n 0 o ≡ unit_of n o
unit_at-zero n none = refl
unit_at-zero n (some i) =
    let e : 0 + i ≡ i = omega arith in
    ap (λ (k : ℕ). some (record { index_contract = k % n; index_unit_processor = k })) e

-- The entry that is there, or else the one of a later processor.
abbrev or_else : Option DispatchUnit → Option DispatchUnit → Option DispatchUnit
or_else none other = other
or_else (some unit) other = some unit

find_cons :
    (key name : Bytes) (unit : DispatchUnit) (entries : List (Bytes × DispatchUnit))
    → find key ((name, unit) ∷ entries) ≡ (if same key name then some unit else find key entries)
unfolding find
find_cons key name unit entries = refl

find-emplace_same :
    (name : Bytes) (unit : DispatchUnit) (entries : List (Bytes × DispatchUnit))
    → find name (emplace name unit entries) ≡ or_else (find name entries) (some unit)
unfolding emplace
find-emplace_same name unit entries = elim (Option-cases (find name entries)) [
  | inl f ↦ rw (f, find_cons name name unit entries, same_refl name) refl
  | inr (u, f) ↦ rw (f, f) refl
]

or_else-none : (o : Option DispatchUnit) → or_else o none ≡ o
or_else-none none = refl
or_else-none (some u) = refl

find-emplace_other :
    (key name : Bytes) (unit : DispatchUnit) (entries : List (Bytes × DispatchUnit))
    → same key name ≡ false
    → find key (emplace name unit entries) ≡ or_else (find key entries) none
unfolding emplace
find-emplace_other key name unit entries e = elim (Option-cases (find name entries)) [
  | inl f ↦ rw (f, find_cons key name unit entries, e) (sym (or_else-none (find key entries)))
  | inr (u, f) ↦ rw f (sym (or_else-none (find key entries)))
]

find-emplace :
    (key name : Bytes) (unit : DispatchUnit) (entries : List (Bytes × DispatchUnit))
    → find key (emplace name unit entries)
      ≡ or_else (find key entries) (if same key name then some unit else none)
find-emplace key name unit entries = elim (Bool-cases (same key name)) [
  | inl e ↦ rw (e, (same_iff key name).0 e) (find-emplace_same name unit entries)
  | inr e ↦ rw e (find-emplace_other key name unit entries e)
]

next : (n i : ℕ) → (i % n + 1) % n ≡ (i + 1) % n
next n i = mod-add-mod i n 1

or_else_assoc : (a b c : Option DispatchUnit) → or_else (or_else a b) c ≡ or_else a (or_else b c)
or_else_assoc none b c = refl
or_else_assoc (some u) b c = refl

unit_at-suc : (n i : ℕ) (o : Option ℕ) → unit_at n (i + 1) o ≡ unit_at n i (o >>= λ j. some (suc j))
unit_at-suc n i none = refl
unit_at-suc n i (some j) =
    let e : i + 1 + j ≡ i + suc j = omega arith in
    ap (λ (k : ℕ). some (record { index_contract = k % n; index_unit_processor = k })) e

unit_at_zero :
    (n i : ℕ)
    → some (record { index_contract = i % n; index_unit_processor = i }) ≡ unit_at n i (some 0)
unit_at_zero n i =
    let e : i ≡ i + 0 = omega arith in
    ap (λ (k : ℕ). some (record { index_contract = k % n; index_unit_processor = k })) e

unit_at_cons :
    (n i : ℕ) (key name : Bytes) (names : List Bytes)
    → or_else
        (if same key name
          then some (record { index_contract = i % n; index_unit_processor = i })
          else none)
        (unit_at n (i + 1) (first_index key names))
      ≡ unit_at n i (first_index key (name ∷ names))
unfolding first_index
unit_at_cons n i key name names = elim (Bool-cases (same key name)) [
  | inl e ↦ rw e (unit_at_zero n i)
  | inr e ↦ rw e (unit_at-suc n i (first_index key names))
]

positive : (n : ℕ) → 0 < n → (n == 0) ≡ false
positive n h = ground arith

find-assign :
    (n : ℕ) (names : List Bytes) (i : ℕ) (entries : List (Bytes × DispatchUnit))
    → 0 < n
    → (m : List (Bytes × DispatchUnit)) × (assign n names i (i % n) entries ≡ some m)
      × ((key : Bytes)
          → find key m ≡ or_else (find key entries) (unit_at n i (first_index key names)))
unfolding assign
find-assign n [] i entries h =
    (entries, refl, λ key. unfold first_index in sym (or_else-none (find key entries)))
find-assign n (name ∷ names) i entries h =
    let unit : DispatchUnit = record { index_contract = i % n; index_unit_processor = i } in
    let (m, e, found) = find-assign n names (i + 1) (emplace name unit entries) h in
    (
      m,
      rw (positive n h, next n i) e,
      λ key.
          found key
          ∙ ap (λ o. or_else o (unit_at n (i + 1) (first_index key names)))
              (find-emplace key name unit entries)
          ∙ or_else_assoc (find key entries) (if same key name then some unit else none)
              (unit_at n (i + 1) (first_index key names))
          ∙ ap (or_else (find key entries)) (unit_at_cons n i key name names),
    )

-- With one queue or more, the table is built, and it sends each listed contract to the first of its
-- processors, i, and to the queue at i modulo the number of queues; a contract that is not listed is
-- not in it. The queues and the processors are kept as they are given.
pub init_dispatcher-find :
    (name_of : ℕ → Bytes) (tick_queues processors : List ℕ)
    → 0 < length tick_queues
    → (d : Dispatcher) × (init_dispatcher name_of tick_queues processors no_dispatcher ≡ some d)
      × (d.contracts ≡ tick_queues)
      × (d.unit_processors ≡ processors)
      × ((key : Bytes)
          → find key d.mapping
            ≡ unit_of (length tick_queues) (first_index key (map name_of processors)))
unfolding init_dispatcher
init_dispatcher-find name_of tick_queues processors h =
    let n = length tick_queues in
    let (m, e, found) = find-assign n (map name_of processors) 0 [] h in
    let run = subst (λ t. assign n (map name_of processors) 0 t [] ≡ some m) (zero-mod n) e in
    (
      record { contracts = tick_queues; unit_processors = processors; mapping = m },
      rw run refl,
      refl,
      refl,
      λ key. unfold find in found key ∙ unit_at-zero n (first_index key (map name_of processors)),
    )
