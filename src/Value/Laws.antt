-- ===== src/Value/Laws.antt =====
-- Copies of values: what `_freeze` does is undone by `_thaw` and by `json_payload`.
use runner_observability.Base.{String, ◌≡◌, refl, ap, arith}
use runner_observability.Value.{
  Value, Items, Fields, null, bool, int, float, str, list, tuple, dict, proxy, nil, cons, end,
  field, get, freeze, freeze_items, freeze_fields, thaw, thaw_items, thaw_fields, json_payload,
  json_payload_items, json_payload_fields, IsJson, IsJsonItems, IsJsonFields,
}

mutual
  unfolding freeze thaw

  thaw-freeze_value : (v : Value) → IsJson v → thaw (freeze v) ≡ v
  thaw-freeze_value (dict f) h = ap dict (thaw-freeze_fields f h)
  thaw-freeze_value (list l) h = ap list (thaw-freeze_items l h)
  thaw-freeze_value (tuple l) h = elim h [ ]
  thaw-freeze_value (proxy f) h = elim h [ ]
  thaw-freeze_value null h = refl
  thaw-freeze_value (bool b) h = refl
  thaw-freeze_value (int i) h = refl
  thaw-freeze_value (float b) h = refl
  thaw-freeze_value (str s) h = refl

  thaw-freeze_items : (l : Items) → IsJsonItems l → thaw_items (freeze_items l) ≡ l
  thaw-freeze_items nil h = refl
  thaw-freeze_items (cons v l) h = cc (thaw-freeze_value v h.0, thaw-freeze_items l h.1)

  thaw-freeze_fields : (f : Fields) → IsJsonFields f → thaw_fields (freeze_fields f) ≡ f
  thaw-freeze_fields end h = refl
  thaw-freeze_fields (field k v f) h = cc (thaw-freeze_value v h.0, thaw-freeze_fields f h.1)

-- Thawing a frozen value from `json.loads` gives the value back.
pub thaw-freeze : (v : Value) → IsJson v → thaw (freeze v) ≡ v
thaw-freeze v h = thaw-freeze_value v h

mutual
  unfolding json_payload thaw

  json_payload-eq_value : (v : Value) → json_payload v ≡ thaw v
  json_payload-eq_value (dict f) = ap dict (json_payload-eq_fields f)
  json_payload-eq_value (proxy f) = ap dict (json_payload-eq_fields f)
  json_payload-eq_value (tuple l) = ap list (json_payload-eq_items l)
  json_payload-eq_value (list l) = refl
  json_payload-eq_value null = refl
  json_payload-eq_value (bool b) = refl
  json_payload-eq_value (int i) = refl
  json_payload-eq_value (float b) = refl
  json_payload-eq_value (str s) = refl

  json_payload-eq_items : (l : Items) → json_payload_items l ≡ thaw_items l
  json_payload-eq_items nil = refl
  json_payload-eq_items (cons v l) = cc (json_payload-eq_value v, json_payload-eq_items l)

  json_payload-eq_fields : (f : Fields) → json_payload_fields f ≡ thaw_fields f
  json_payload-eq_fields end = refl
  json_payload-eq_fields (field k v f) = cc (json_payload-eq_value v, json_payload-eq_fields f)

-- The copies of store.py and outbox.py agree.
pub json_payload-eq-thaw : (v : Value) → json_payload v ≡ thaw v
json_payload-eq-thaw v = json_payload-eq_value v

pub get-freeze : (f : Fields) (k : String) → get (freeze_fields f) k ≡ freeze (get f k)
unfolding get freeze
get-freeze end k = refl
get-freeze (field j v f) k = ground (arith, get-freeze f k)
