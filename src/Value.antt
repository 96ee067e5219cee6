-- ===== src/Value.antt =====
-- Python's values as they come out of `json.loads`, and the containers that contracts.py, store.py
-- and outbox.py turn them into: `proxy` is a `MappingProxyType`, `float` is known by its bits.
pub mod Laws
pub mod Sorted
pub mod SortedFields
use runner_observability.Base.{
  ℕ, String, ◌≡◌, Bool, true, false, ◌&&◌, Option, none, some, List, [], ◌∷◌, ℤ, ◌==◌, string_eq,
  if◌then◌else◌, all, contains,
}

mutual
  -- the entries of a mapping, in their order
  pub data Fields : Type 0 where
    field : String → Value → Fields → Fields
    end : Fields

  pub data Value : Type 0 where
    null : Value
    bool : Bool → Value
    int : ℤ → Value
    float : ℕ → Value
    str : String → Value
    dict proxy : Fields → Value
    list tuple : Items → Value

  -- the items of an array
  pub data Items : Type 0 where
    cons : Value → Items → Items
    nil : Items

-- isinstance(value, Mapping)
abbrev pub as_mapping : Value → Option Fields
as_mapping (dict f) = some f
as_mapping (proxy f) = some f
as_mapping _ = none

-- mapping.get(key): None for a missing key
unfoldable pub get : Fields → String → Value
get end k = null
get (field j v f) k = if j == k then v else get f k

unfoldable pub keys : Fields → List String
keys end = []
keys (field j v f) = j ∷ keys f

-- set(mapping) == expected
unfoldable pub has_exact_keys : Fields → List String → Bool
unfolding keys
has_exact_keys f expected =
    all (λ k. contains k expected) (keys f) && all (λ k. contains k (keys f)) expected

-- `_freeze` of contracts.py: mappings become read-only views, lists and tuples become tuples.
unfoldable mutual
  pub freeze : Value → Value
  freeze (dict f) = proxy (freeze_fields f)
  freeze (proxy f) = proxy (freeze_fields f)
  freeze (list l) = tuple (freeze_items l)
  freeze (tuple l) = tuple (freeze_items l)
  freeze null = null
  freeze (bool b) = bool b
  freeze (int i) = int i
  freeze (float b) = float b
  freeze (str s) = str s

  pub freeze_items : Items → Items
  freeze_items nil = nil
  freeze_items (cons v l) = cons (freeze v) (freeze_items l)

  pub freeze_fields : Fields → Fields
  freeze_fields end = end
  freeze_fields (field k v f) = field k (freeze v) (freeze_fields f)

-- `_thaw` of store.py: mappings become dictionaries and tuples become lists. A list is returned as
-- it is, with its items.
unfoldable mutual
  pub thaw : Value → Value
  thaw (dict f) = dict (thaw_fields f)
  thaw (proxy f) = dict (thaw_fields f)
  thaw (tuple l) = list (thaw_items l)
  thaw (list l) = list l
  thaw null = null
  thaw (bool b) = bool b
  thaw (int i) = int i
  thaw (float b) = float b
  thaw (str s) = str s

  pub thaw_items : Items → Items
  thaw_items nil = nil
  thaw_items (cons v l) = cons (thaw v) (thaw_items l)

  pub thaw_fields : Fields → Fields
  thaw_fields end = end
  thaw_fields (field k v f) = field k (thaw v) (thaw_fields f)

-- `json_payload` of outbox.py.
unfoldable mutual
  pub json_payload : Value → Value
  json_payload (dict f) = dict (json_payload_fields f)
  json_payload (proxy f) = dict (json_payload_fields f)
  json_payload (tuple l) = list (json_payload_items l)
  json_payload (list l) = list l
  json_payload null = null
  json_payload (bool b) = bool b
  json_payload (int i) = int i
  json_payload (float b) = float b
  json_payload (str s) = str s

  pub json_payload_items : Items → Items
  json_payload_items nil = nil
  json_payload_items (cons v l) = cons (json_payload v) (json_payload_items l)

  pub json_payload_fields : Fields → Fields
  json_payload_fields end = end
  json_payload_fields (field k v f) = field k (json_payload v) (json_payload_fields f)

-- A value as `json.loads` returns it: no tuple and no read-only view in it.
abbrev mutual
  pub IsJson : Value → Type 0
  IsJson (dict f) = IsJsonFields f
  IsJson (list l) = IsJsonItems l
  IsJson (tuple l) = ⊥
  IsJson (proxy f) = ⊥
  IsJson null = Unit
  IsJson (bool b) = Unit
  IsJson (int i) = Unit
  IsJson (float b) = Unit
  IsJson (str s) = Unit

  pub IsJsonItems : Items → Type 0
  IsJsonItems nil = Unit
  IsJsonItems (cons v l) = IsJson v × IsJsonItems l

  pub IsJsonFields : Fields → Type 0
  IsJsonFields end = Unit
  IsJsonFields (field k v f) = IsJson v × IsJsonFields f
