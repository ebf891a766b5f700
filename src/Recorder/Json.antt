-- ===== src/Recorder/Json.antt =====
-- What encoding/json decodes into an `interface{}`, and the operations on maps that the recorder of
-- pkg/metrics/openai_recorder.go uses. A number is known by its bits.
use model_runner.Common.{
  ℕ, ◌≡◌, refl, Bool, false, Option, none, some, Text, text_eq, text_eq_iff, text_eq_refl, ◌∙◌,
  if◌then◌else◌, arith,
}

mutual
  pub data Json : Type 0 where
    null : Json
    boolean : Bool → Json
    number : ℕ → Json
    string : Text → Json
    array : Items → Json
    object : Fields → Json

  pub data Items : Type 0 where
    no_item : Items
    item : Json → Items → Items

  pub data Fields : Type 0 where
    no_field : Fields
    field : Text → Json → Fields → Fields

-- `m[k]`; a nil map has no keys either.
unfoldable pub get_field : Text → Fields → Option Json
get_field k no_field = none
get_field k (field j v m) = let rest = get_field k m in if text_eq j k then some v else rest

-- `m[k] = v`
unfoldable pub set_field : Text → Json → Fields → Fields
set_field k v no_field = field k v no_field
set_field k v (field j w m) =
    let rest = set_field k v m in if text_eq j k then field k v m else field j w rest

-- `delete(m, k)`
unfoldable pub delete_field : Text → Fields → Fields
delete_field k no_field = no_field
delete_field k (field j w m) =
    let rest = delete_field k m in if text_eq j k then rest else field j w rest

-- The type assertions `v.(T)` on a value that may be missing.
unfoldable pub as_string : Option Json → Option Text
as_string (some (string s)) = some s
as_string _ = none

unfoldable pub as_number : Option Json → Option ℕ
as_number (some (number n)) = some n
as_number _ = none

unfoldable pub as_object : Option Json → Option Fields
as_object (some (object m)) = some m
as_object _ = none

unfoldable pub as_array : Option Json → Option Items
as_array (some (array xs)) = some xs
as_array _ = none

unfoldable pub first_item : Items → Option Json
first_item no_item = none
first_item (item v _) = some v

pub get_field-set_field :
    (k j : Text) (v : Json) (m : Fields)
    → get_field j (set_field k v m) ≡ (if text_eq k j then some v else get_field j m)
unfolding get_field set_field
get_field-set_field k j v no_field = refl
get_field-set_field k j v (field i w m) =
    ground (arith, text_eq_iff k j, text_eq_iff i k, text_eq_iff i j, get_field-set_field k j v m)

pub get_field-delete_field :
    (k j : Text) (m : Fields)
    → get_field j (delete_field k m) ≡ (if text_eq k j then none else get_field j m)
unfolding get_field delete_field
get_field-delete_field k j no_field = ground arith
get_field-delete_field k j (field i w m) =
    ground (arith, text_eq_iff k j, text_eq_iff i k, text_eq_iff i j, get_field-delete_field k j m)

pub get_set_self : (k : Text) (v : Json) (m : Fields) → get_field k (set_field k v m) ≡ some v
get_set_self k v m = get_field-set_field k k v m ∙ rw (text_eq_refl k) refl

pub get_set_ne :
    (k j : Text) (v : Json) (m : Fields)
    → text_eq k j ≡ false
    → get_field j (set_field k v m) ≡ get_field j m
get_set_ne k j v m e = get_field-set_field k j v m ∙ rw e refl

pub get_delete_self : (k : Text) (m : Fields) → get_field k (delete_field k m) ≡ none
get_delete_self k m = get_field-delete_field k k m ∙ rw (text_eq_refl k) refl

pub get_delete_ne :
    (k j : Text) (m : Fields) → text_eq k j ≡ false → get_field j (delete_field k m) ≡ get_field j m
get_delete_ne k j m e = get_field-delete_field k j m ∙ rw e refl
