-- ===== src/Reader/Nested.antt =====
-- What the nested lookups of the reader return.
use ultra_mds.Base.{◌≡◌, true, none, some, List, [], ◌∷◌, arith}
use ultra_mds.Base.Bytes.{Bytes}
use ultra_mds.Json.{Json, JsonDouble, IsJson}
use ultra_mds.Reader.{descend_arrays, get_string_array}

module _ {W J : Type 0} ⦃js : Json J⦄ ⦃jd : JsonDouble W J⦄ (laws : IsJson W J) where
  descend_arrays_of_array :
      (current : J) (key : Bytes) (keys : List Bytes)
      → js.is_array current ≡ true
      → descend_arrays current (key ∷ keys) ≡ none
  unfolding descend_arrays
  descend_arrays_of_array current key keys h = rw (laws.not_contains_of_array current key h)

  -- A path of two keys or more never leads to an array of strings: whatever the file holds, the
  -- result is empty.
  pub get_string_array_nested :
      (root : J) (first second : Bytes) (keys : List Bytes)
      → get_string_array root (first ∷ second ∷ keys) ≡ some []
  unfolding get_string_array descend_arrays
  get_string_array_nested root first second keys =
      ground (arith, descend_arrays_of_array (js.member root first) second keys)
