-- ===== src/Json/Tree.antt =====
-- An instance of the interface for the tests: JSON trees whose numbers are integers or fixed-point.
use ultra_mds.Base.{
  ◌≡◌, refl, Bool, true, false, Option, none, some, List, [], ◌∷◌, if◌then◌else◌, arith,
}
use ultra_mds.Base.Int.{ℤ}
use ultra_mds.Base.Bytes.{Bytes, same}
use ultra_mds.Double.Fixed.{Fixed, whole}
use ultra_mds.Json.{Json, JsonDouble, IsJson}

mutual
  pub data Tree : Type 0 where
    null : Tree
    bool : Bool → Tree
    int : ℤ → Tree
    float : Fixed → Tree
    text : Bytes → Tree
    array : Items → Tree
    object : Fields → Tree

  pub data Items : Type 0 where
    nil : Items
    cons : Tree → Items → Items

  pub data Fields : Type 0 where
    end : Fields
    field : Bytes → Tree → Fields → Fields

abbrev list_of : Items → List Tree
list_of nil = []
list_of (cons x xs) = x ∷ list_of xs

abbrev values_of : Fields → List Tree
values_of end = []
values_of (field _ v fs) = v ∷ values_of fs

abbrev elements : Tree → List Tree
elements (array xs) = list_of xs
elements (object fs) = values_of fs
elements null = []
elements t = t ∷ []

abbrev find : Bytes → Fields → Option Tree
find k end = none
find k (field j v fs) = if same j k then some v else find k fs

abbrev find_in : Bytes → Tree → Option Tree
find_in k (object fs) = find k fs
find_in k _ = none

abbrev is_some : Option Tree → Bool
is_some none = false
is_some (some _) = true

abbrev or_null : Option Tree → Tree
or_null none = null
or_null (some t) = t

abbrev kind_null : Tree → Bool
kind_null null = true
kind_null _ = false

abbrev kind_bool : Tree → Bool
kind_bool (bool _) = true
kind_bool _ = false

abbrev kind_int : Tree → Bool
kind_int (int _) = true
kind_int _ = false

abbrev kind_float : Tree → Bool
kind_float (float _) = true
kind_float _ = false

abbrev kind_text : Tree → Bool
kind_text (text _) = true
kind_text _ = false

abbrev kind_array : Tree → Bool
kind_array (array _) = true
kind_array _ = false

abbrev kind_object : Tree → Bool
kind_object (object _) = true
kind_object _ = false

abbrev as_text : Tree → Option Bytes
as_text (text s) = some s
as_text _ = none

abbrev as_bool : Tree → Option Bool
as_bool (bool b) = some b
as_bool _ = none

abbrev as_int : Tree → Option ℤ
as_int (int z) = some z
as_int _ = none

abbrev as_float : Tree → Option Fixed
as_float (int z) = some (whole z)
as_float (float x) = some x
as_float _ = none

abbrev value_by : {A : Type 0} → (Tree → Option A) → Tree → Bytes → A → Option A
value_by get t k d =
    if kind_object t
    then (if is_some (find_in k t) then get (or_null (find_in k t)) else some d)
    else none

instance abbrev pub tree_json : Json Tree
tree_json = record {
  is_null = kind_null;
  is_object = kind_object;
  is_array = kind_array;
  is_string = kind_text;
  is_boolean = kind_bool;
  is_number_integer = kind_int;
  is_number = λ t. if kind_int t then true else kind_float t;
  contains = λ t k. is_some (find_in k t);
  member = λ t k. or_null (find_in k t);
  items = elements;
  get_string = as_text;
  get_bool = as_bool;
  get_int = as_int;
  value_string = value_by as_text;
  value_bool = value_by as_bool;
  value_int = value_by as_int;
  empty_object = object end;
}

instance abbrev pub tree_double : JsonDouble Fixed Tree
tree_double = record { get_double = as_float; value_double = value_by as_float }

array_contains : (t : Tree) (k : Bytes) → kind_array t ≡ true → is_some (find_in k t) ≡ false
array_contains (array _) k h = refl
array_contains (object _) k h = ground arith
array_contains _ k h = ground arith

null_contains : (t : Tree) (k : Bytes) → kind_null t ≡ true → is_some (find_in k t) ≡ false
null_contains null k h = refl
null_contains _ k h = ground arith

object_not_null : (t : Tree) → kind_object t ≡ true → kind_null t ≡ false
object_not_null (object _) h = refl
object_not_null _ h = ground arith

value_by_object :
    {A : Type 0} (get : Tree → Option A) (t : Tree) (k : Bytes) (d : A)
    → kind_object t ≡ true
    → value_by get t k d ≡ (if is_some (find_in k t) then get (or_null (find_in k t)) else some d)
value_by_object get t k d h = rw h

text_of_kind : (t : Tree) → kind_text t ≡ true → (s : Bytes) × (as_text t ≡ some s)
text_of_kind null e = absurd (cc e)
text_of_kind (bool _) e = absurd (cc e)
text_of_kind (int _) e = absurd (cc e)
text_of_kind (float _) e = absurd (cc e)
text_of_kind (text s) e = (s, refl)
text_of_kind (array _) e = absurd (cc e)
text_of_kind (object _) e = absurd (cc e)

pub Tree-IsJson : IsJson Fixed Tree
Tree-IsJson = record {
  not_contains_of_array = array_contains;
  not_contains_null = null_contains;
  get_of_string = text_of_kind;
  value_int_of_other = λ t k z h. rw h refl;
  not_null_of_object = object_not_null;
  value_string_lem = value_by_object as_text;
  value_bool_lem = value_by_object as_bool;
  value_int_lem = value_by_object as_int;
  value_double_lem = value_by_object as_float;
}
