-- ===== src/Value/Sorted.antt =====
-- What `sort_keys=True` of `json.dumps` does to a value: the keys of every mapping are in order.
use runner_observability.Base.{String}
use Prim.Native.Nat.{Ordering}
use Prim.Native.String.{compare}
use runner_observability.Value.{
  Value, Items, Fields, null, bool, int, float, str, list, tuple, dict, proxy, nil, cons, end,
  field, IsJson, IsJsonItems, IsJsonFields,
}

unfoldable pub insert_key : String → Value → Fields → Fields
insert_key key item end = field key item end
insert_key key item (field k v f) =
    let rest = insert_key key item f in
    elim (compare key k) [ Ordering.gt ↦ field k v rest | _ ↦ field key item (field k v f) ]

unfoldable mutual
  unfolding insert_key

  pub sort_keys : Value → Value
  sort_keys (dict f) = dict (sort_fields f)
  sort_keys (proxy f) = proxy (sort_fields f)
  sort_keys (list l) = list (sort_items l)
  sort_keys (tuple l) = tuple (sort_items l)
  sort_keys null = null
  sort_keys (bool b) = bool b
  sort_keys (int i) = int i
  sort_keys (float b) = float b
  sort_keys (str s) = str s

  pub sort_items : Items → Items
  sort_items nil = nil
  sort_items (cons v l) = cons (sort_keys v) (sort_items l)

  pub sort_fields : Fields → Fields
  sort_fields end = end
  sort_fields (field k v f) = insert_key k (sort_keys v) (sort_fields f)

insert_key-IsJson :
    (key : String) (item : Value) (f : Fields)
    → IsJson item
    → IsJsonFields f
    → IsJsonFields (insert_key key item f)
unfolding insert_key
insert_key-IsJson key item end h g = (h, g)
insert_key-IsJson key item (field k v f) h (first, rest) =
    placed (insert_key key item f) (compare key k) (insert_key-IsJson key item f h rest)
  where
    placed :
        (others : Fields) (o : Ordering)
        → IsJsonFields others
        → IsJsonFields
            (elim o [ Ordering.gt ↦ field k v others | _ ↦ field key item (field k v f) ])
    placed others Ordering.gt g = (first, g)
    placed others Ordering.lt g = (h, (first, rest))
    placed others Ordering.eq g = (h, (first, rest))

mutual
  unfolding sort_keys

  pub sort_keys-IsJson : (v : Value) → IsJson v → IsJson (sort_keys v)
  sort_keys-IsJson (dict f) h = sort_fields-IsJson f h
  sort_keys-IsJson (list l) h = sort_items-IsJson l h
  sort_keys-IsJson (proxy f) h = h
  sort_keys-IsJson (tuple l) h = h
  sort_keys-IsJson null h = tt
  sort_keys-IsJson (bool b) h = tt
  sort_keys-IsJson (int i) h = tt
  sort_keys-IsJson (float b) h = tt
  sort_keys-IsJson (str s) h = tt

  sort_items-IsJson : (l : Items) → IsJsonItems l → IsJsonItems (sort_items l)
  sort_items-IsJson nil h = tt
  sort_items-IsJson (cons v l) (h, hs) = (sort_keys-IsJson v h, sort_items-IsJson l hs)

  sort_fields-IsJson : (f : Fields) → IsJsonFields f → IsJsonFields (sort_fields f)
  sort_fields-IsJson end h = tt
  sort_fields-IsJson (field k v f) (h, hs) =
      insert_key-IsJson k (sort_keys v) (sort_fields f) (sort_keys-IsJson v h)
        (sort_fields-IsJson f hs)
