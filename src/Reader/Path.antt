-- ===== src/Reader/Path.antt =====
-- The values that the look-ups of ConfigReader find, by the paths of a JSON value.
use mathlib.Core.Path.{subst}
use mathlib.Core.Option.{some-injective}
use ultra_mds.Base.{
  ◌≡◌, ◌↔◌, ◌⊎◌, inl, inr, refl, sym, ap, ◌∙◌, Bool, true, Option, none, some, List, [], ◌∷◌,
  Bool-cases,
}
use ultra_mds.Base.Int.{ℤ}
use ultra_mds.Base.Bytes.{Bytes}
use ultra_mds.Json.{Json, JsonDouble}
use ultra_mds.Reader.{descend, typed, get_string, get_bool, get_int, get_double}

-- The value behind a path of keys.
pub data At {J : Type 0} ⦃js : Json J⦄ : J → List Bytes → J → Type 0 where
  here : {root : J} → At root [] root
  below :
      {root leaf : J} {key : Bytes} {keys : List Bytes}
      → js.contains root key ≡ true
      → At (js.member root key) keys leaf
      → At root (key ∷ keys) leaf

module _ {J : Type 0} ⦃js : Json J⦄ where
  descend-At :
      (keys : List Bytes) (root leaf : J) → descend root keys ≡ some leaf → At root keys leaf
  unfolding descend
  descend-At [] root leaf e = subst (λ j. At root [] j) (some-injective _ _ e) here
  descend-At (key ∷ keys) root leaf e = elim (Bool-cases (js.contains root key)) [
    | inl c ↦ below c (descend-At keys (js.member root key) leaf (rw c at e))
    | inr c ↦ absurd (cc (e, c))
  ]

  At-descend :
      {root leaf : J} {keys : List Bytes} → At root keys leaf → descend root keys ≡ some leaf
  unfolding descend
  At-descend here = refl
  At-descend (below c more) = rw c (At-descend more)

  -- The path leads to a value of the type.
  abbrev pub Leads : (J → Bool) → J → List Bytes → Type 0
  Leads is_type root keys = (leaf : J) × At root keys leaf × (is_type leaf ≡ true)

  -- What a look-up returns: the value there, converted, or else the default.
  abbrev pub Finds : {A : Type 0} → (J → Bool) → (J → Option A) → J → List Bytes → A → A → Type 0
  Finds is_type get root keys default a =
      ((leaf : J) × At root keys leaf × (is_type leaf ≡ true) × (get leaf ≡ some a))
      ⊎ ((¬ Leads is_type root keys) × (default ≡ a))

  module _ {A : Type 0} (is_type : J → Bool) (get : J → Option A) (root : J) (keys : List Bytes)
      (default a : A) where
    leads_to : (leaf j : J) → At root keys leaf → descend root keys ≡ some j → leaf ≡ j
    leads_to leaf j at_leaf e = some-injective _ _ (sym (At-descend at_leaf) ∙ e)

    typed-Finds :
        (o : Option J)
        → descend root keys ≡ o
        → typed is_type get default o ≡ some a
        → Finds is_type get root keys default a
    typed-Finds none e f =
        inr ((λ (leaf, at_leaf, _). cc (At-descend at_leaf, e)), some-injective _ _ f)
    typed-Finds (some j) e f = elim (Bool-cases (is_type j)) [
      | inl t ↦ inl (j, descend-At keys root j e, t, rw t at f)
      | inr t ↦ inr (
        (λ (leaf, at_leaf, is). cc (sym (ap is_type (leads_to leaf j at_leaf e)) ∙ is, t)),
        some-injective _ _ (rw t at f),
      )
    ]

    Finds-typed :
        (o : Option J)
        → descend root keys ≡ o
        → Finds is_type get root keys default a
        → typed is_type get default o ≡ some a
    Finds-typed none e (inl (leaf, at_leaf, _, _)) = cc (At-descend at_leaf, e)
    Finds-typed none e (inr (_, same)) = ap some same
    Finds-typed (some j) e (inl (leaf, at_leaf, is, found)) =
        let there = leads_to leaf j at_leaf e in
        let is_j : is_type j ≡ true = ap is_type (sym there) ∙ is in
        rw is_j (ap get (sym there) ∙ found)
    Finds-typed (some j) e (inr (nowhere, same)) = elim (Bool-cases (is_type j)) [
      | inl t ↦ absurd (nowhere (j, descend-At keys root j e, t))
      | inr t ↦ rw t (ap some same)
    ]

    typed_iff :
        (typed is_type get default (descend root keys) ≡ some a)
        ↔ Finds is_type get root keys default a
    typed_iff = (typed-Finds (descend root keys) refl, Finds-typed (descend root keys) refl)

module _ {W J : Type 0} ⦃js : Json J⦄ ⦃jd : JsonDouble W J⦄ where
  -- Each of the look-ups for a text, a flag, an integer and a floating number returns the value that the
  -- path leads to, if there is one and it has the type, and otherwise the default, and nothing else.
  pub get_typed_iff :
      (root : J) (keys : List Bytes) (text text' : Bytes) (flag flag' : Bool) (n n' : ℤ) (x x' : W)
      → ((get_string root keys text ≡ some text')
          ↔ Finds js.is_string js.get_string root keys text text')
        × ((get_bool root keys flag ≡ some flag')
            ↔ Finds js.is_boolean js.get_bool root keys flag flag')
        × ((get_int root keys n ≡ some n') ↔ Finds js.is_number_integer js.get_int root keys n n')
        × ((get_double root keys x ≡ some x') ↔ Finds js.is_number jd.get_double root keys x x')
  unfolding get_string get_bool get_int get_double
  get_typed_iff root keys text text' flag flag' n n' x x' = (
    typed_iff js.is_string js.get_string root keys text text',
    typed_iff js.is_boolean js.get_bool root keys flag flag',
    typed_iff js.is_number_integer js.get_int root keys n n',
    typed_iff js.is_number jd.get_double root keys x x',
  )
