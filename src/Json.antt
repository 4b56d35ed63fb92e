-- ===== src/Json.antt =====
-- The part of nlohmann::json that the program calls, as an interface over an abstract type of JSON
-- values. `none` is a thrown `type_error`.
pub mod Tree
use ultra_mds.Base.{◌≡◌, Bool, true, false, Option, none, some, List, if◌then◌else◌}
use ultra_mds.Base.Int.{ℤ}
use ultra_mds.Base.Bytes.{Bytes}

pub record Json (J : Type 0) : Type 0 where
  pub is_null : J → Bool
  pub is_object : J → Bool
  pub is_array : J → Bool
  pub is_string : J → Bool
  pub is_boolean : J → Bool
  pub is_number_integer : J → Bool
  pub is_number : J → Bool
  -- `j.contains(key)` and, for a key that it contains, `j[key]`.
  pub contains : J → Bytes → Bool
  pub member : J → Bytes → J
  -- What a range `for` goes through.
  pub items : J → List J
  -- `j.get<T>()`, which is also the implicit conversion.
  pub get_string : J → Option Bytes
  pub get_bool : J → Option Bool
  pub get_int : J → Option ℤ
  -- `j.value(key, default)`.
  pub value_string : J → Bytes → Bytes → Option Bytes
  pub value_bool : J → Bytes → Bool → Option Bool
  pub value_int : J → Bytes → ℤ → Option ℤ
  -- `json::object()`.
  pub empty_object : J

-- The same for members that are read as a `double`.
pub record JsonDouble (W J : Type 0) : Type 0 where
  pub get_double : J → Option W
  pub value_double : J → Bytes → W → Option W

-- What the documentation of the library says of these operations and the proofs rely on.
pub record IsJson (W J : Type 0) ⦃js : Json J⦄ ⦃jd : JsonDouble W J⦄ : Type 0 where
  -- Only an object contains keys, and a value has one type.
  pub not_contains_of_array : (j : J) (k : Bytes) → js.is_array j ≡ true → js.contains j k ≡ false
  pub not_contains_null : (j : J) (k : Bytes) → js.is_null j ≡ true → js.contains j k ≡ false
  pub get_of_string : (j : J) → js.is_string j ≡ true → (s : Bytes) × (js.get_string j ≡ some s)
  pub not_null_of_object : (j : J) → js.is_object j ≡ true → js.is_null j ≡ false
  -- `value` throws on a value that is not an object.
  pub value_int_of_other :
      (j : J) (k : Bytes) (d : ℤ) → js.is_object j ≡ false → js.value_int j k d ≡ none
  -- `value` of an object: the member if the key is there, or else the default.
  pub value_string_lem :
      (j : J) (k d : Bytes)
      → js.is_object j ≡ true
      → js.value_string j k d ≡ (if js.contains j k then js.get_string (js.member j k) else some d)
  pub value_bool_lem :
      (j : J) (k : Bytes) (d : Bool)
      → js.is_object j ≡ true
      → js.value_bool j k d ≡ (if js.contains j k then js.get_bool (js.member j k) else some d)
  pub value_int_lem :
      (j : J) (k : Bytes) (d : ℤ)
      → js.is_object j ≡ true
      → js.value_int j k d ≡ (if js.contains j k then js.get_int (js.member j k) else some d)
  pub value_double_lem :
      (j : J) (k : Bytes) (d : W)
      → js.is_object j ≡ true
      → jd.value_double j k d ≡ (if js.contains j k then jd.get_double (js.member j k) else some d)
