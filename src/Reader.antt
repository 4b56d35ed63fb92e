-- ===== src/Reader.antt =====
-- configrelated/ConfigRead.h, class ConfigReader. The file and the JSON parser are parameters; an
-- optional result is `none` where a conversion would throw.
pub mod Nested
pub mod Path
use ultra_mds.Base.{Bool, Option, none, some, List, [], ◌∷◌, ◌&&◌, ◌>>=◌, if◌then◌else◌}
use ultra_mds.Base.Int.{ℤ}
use ultra_mds.Base.Bytes.{Bytes, bytes}
use ultra_mds.Json.{Json, JsonDouble}

-- The constructor: the value, or which of its two errors it throws.
pub data Opened (J : Type 0) : Type 0 where
  opened : J → Opened J
  unreadable : Opened J
  malformed : Opened J

module _ {J : Type 0} where
  abbrev parsed : Option J → Opened J
  parsed none = malformed
  parsed (some j) = opened j

  abbrev read_then : (Bytes → Option J) → Option Bytes → Opened J
  read_then parse none = unreadable
  read_then parse (some content) = parsed (parse content)

  unfoldable pub open_config : (Bytes → Option Bytes) → (Bytes → Option J) → Bytes → Opened J
  open_config read_file parse path = read_then parse (read_file path)

module _ {J : Type 0} ⦃js : Json J⦄ where
  -- The loop over the keys; `none` is the early return.
  unfoldable pub descend : J → List Bytes → Option J
  descend current [] = some current
  descend current (key ∷ keys) =
      if js.contains current key then descend (js.member current key) keys else none

  abbrev pub typed : {A : Type 0} → (J → Bool) → (J → Option A) → A → Option J → Option A
  typed is_type get default none = some default
  typed is_type get default (some j) = if is_type j then get j else some default

  unfoldable pub get_string : J → List Bytes → Bytes → Option Bytes
  unfolding descend
  get_string root keys default = typed js.is_string js.get_string default (descend root keys)

  unfoldable pub get_bool : J → List Bytes → Bool → Option Bool
  unfolding descend
  get_bool root keys default = typed js.is_boolean js.get_bool default (descend root keys)

  unfoldable pub get_int : J → List Bytes → ℤ → Option ℤ
  unfolding descend
  get_int root keys default = typed js.is_number_integer js.get_int default (descend root keys)

  -- The loop of `getStringArray`, which asks each member on the way to be an array.
  unfoldable pub descend_arrays : J → List Bytes → Option J
  descend_arrays current [] = some current
  descend_arrays current (key ∷ keys) =
      if js.contains current key && js.is_array (js.member current key)
      then descend_arrays (js.member current key) keys
      else none

  -- `if (item.is_string()) result.push_back(…)`.
  unfoldable pub strings_among : List J → Option (List Bytes)
  strings_among [] = some []
  strings_among (item ∷ items) =
      let rest = strings_among items in
      if js.is_string item
      then (js.get_string item >>= λ s. rest >>= λ more. some (s ∷ more))
      else rest

  unfoldable pub get_string_array : J → List Bytes → Option (List Bytes)
  get_string_array root keys = elim (descend_arrays root keys) [
    | none ↦ some []
    | some current ↦ strings_among (js.items current)
  ]

  unfoldable pub get_contract_validation_config : J → Bytes → Option J
  unfolding descend
  get_contract_validation_config root contract_name =
      descend root (bytes "validation" ∷ bytes "contract_specific" ∷ contract_name ∷ []) >>= λ j.
      if js.is_object j then some j else none

  unfoldable pub get_global_validation_config : J → J
  get_global_validation_config root =
      let validation = js.member root (bytes "validation") in
      if js.contains root (bytes "validation") && js.contains validation (bytes "global_default")
      then js.member validation (bytes "global_default")
      else js.empty_object

module _ {W J : Type 0} ⦃js : Json J⦄ ⦃jd : JsonDouble W J⦄ where
  unfoldable pub get_double : J → List Bytes → W → Option W
  unfolding descend
  get_double root keys default = typed js.is_number jd.get_double default (descend root keys)
