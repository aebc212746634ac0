-- ===== src/Json.antt =====
-- `serde_json::Value`, whose constructors the program matches on. An object lists its fields in the
-- order in which the map is walked; a number is kept as the text that it prints to.
use sap_automate.Base.{
  String, ◌≡◌, ◌⊎◌, Bool, true, false, Option, none, some, if◌then◌else◌, str_eq, nat_key,
  string_key, pair_key,
}

mutual
  pub data Value : Type 0 where
    null : Value
    bool : Bool → Value
    number : String → Value
    string : String → Value
    array : Items → Value
    object : Fields → Value

  pub data Items : Type 0 where
    nil : Items
    cons : Value → Items → Items

  pub data Fields : Type 0 where
    end : Fields
    field : String → Value → Fields → Fields

-- `map.get(k)`
unfoldable pub get_field : String → Fields → Option Value
get_field k end = none
get_field k (field j v fs) = if str_eq j k then some v else get_field k fs

abbrev pub is_some {ℓ} : {A : Type ℓ} → Option A → Bool
is_some none = false
is_some (some a) = true

-- `map.contains_key(k)`
unfoldable pub has_key : String → Fields → Bool
unfolding get_field
has_key k fs = is_some (get_field k fs)

abbrev pub HasItem : Value → Items → Type 0
HasItem x nil = ⊥
HasItem x (cons y ys) = (x ≡ y) ⊎ HasItem x ys

abbrev pub HasField : Value → Fields → Type 0
HasField x end = ⊥
HasField x (field k y ys) = (x ≡ y) ⊎ HasField x ys
