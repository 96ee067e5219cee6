-- ===== src/Value/SortedFields.antt =====
-- An event that validates does so with its keys in order too, in every field of it that is checked.
use runner_observability.Base.{
  String, ◌≡◌, refl, sym, ap, ◌∙◌, Bool, ◌&&◌, ◌||◌, List, [], ◌∷◌, arith, string_eq, ◌==◌, eq_iff,
  contains, all, if◌then◌else◌, Bool-cases, inl, inr,
}
use Prim.Native.Nat.{Ordering}
use Prim.Native.String.{compare}
use text.Mathlib.TextPositions.{compare_refl}
use runner_observability.Value.{Value, Fields, end, field, get, keys, has_exact_keys}
use runner_observability.Value.Sorted.{insert_key, sort_keys, sort_fields}

get-insert_key :
    (j k : String) (v : Value) (f : Fields)
    → get (insert_key k v f) j ≡ (if k == j then v else get f j)
unfolding get insert_key
get-insert_key j k v end = refl
get-insert_key j k v (field l w f) = placed (compare k l) refl (get-insert_key j k v f)
  where
    placed :
        (o : Ordering)
        → compare k l ≡ o
        → get (insert_key k v f) j ≡ (if k == j then v else get f j)
        → get
            (elim o [ Ordering.gt ↦ field l w (insert_key k v f) | _ ↦ field k v (field l w f) ])
            j
          ≡ (if k == j then v else get (field l w f) j)
    placed Ordering.lt h g = refl
    placed Ordering.eq h g = refl
    placed Ordering.gt h g = elim (Bool-cases (l == j)) [
      | inr other ↦ rw other g
      | inl here ↦ elim (Bool-cases (k == j)) [
        | inr new ↦ rw (here, new) refl
        | inl same ↦
            let equal : k ≡ l = (eq_iff k j).0 same ∙ sym ((eq_iff l j).0 here) in
            let reflexive : compare k l ≡ Ordering.eq =
              ap (λ x. compare x l) equal ∙ compare_refl l in
            cc
      ]
    ]

contains-insert_key :
    (j k : String) (v : Value) (f : Fields)
    → contains j (keys (insert_key k v f)) ≡ (j == k || contains j (keys f))
unfolding keys insert_key
contains-insert_key j k v end = refl
contains-insert_key j k v (field l w f) = placed (compare k l) (contains-insert_key j k v f)
  where
    placed :
        (o : Ordering)
        → contains j (keys (insert_key k v f)) ≡ (j == k || contains j (keys f))
        → contains j (
            keys
              (elim o [ Ordering.gt ↦ field l w (insert_key k v f) | _ ↦ field k v (field l w f) ]))
          ≡ (j == k || contains j (keys (field l w f)))
    placed Ordering.lt g = refl
    placed Ordering.eq g = refl
    placed Ordering.gt g = ground (arith, g)

pub get-sort_fields : (k : String) (f : Fields) → get (sort_fields f) k ≡ sort_keys (get f k)
unfolding get sort_keys
get-sort_fields k end = refl
get-sort_fields k (field j v f) = elim (Bool-cases (j == k)) [
  | inl here ↦ get-insert_key k j (sort_keys v) (sort_fields f) ∙ rw here refl
  | inr there ↦ get-insert_key k j (sort_keys v) (sort_fields f) ∙ rw there (get-sort_fields k f)
]

contains-sort_fields :
    (k : String) (f : Fields) → contains k (keys (sort_fields f)) ≡ contains k (keys f)
unfolding keys sort_keys
contains-sort_fields k end = refl
contains-sort_fields k (field j v f) =
    contains-insert_key k j (sort_keys v) (sort_fields f)
    ∙ ap (λ b. k == j || b) (contains-sort_fields k f)

all-insert_key :
    (p : String → Bool) (k : String) (v : Value) (f : Fields)
    → all p (keys (insert_key k v f)) ≡ (p k && all p (keys f))
unfolding keys insert_key
all-insert_key p k v end = refl
all-insert_key p k v (field l w f) = placed (compare k l) (all-insert_key p k v f)
  where
    placed :
        (o : Ordering)
        → all p (keys (insert_key k v f)) ≡ (p k && all p (keys f))
        → all p (
            keys
              (elim o [ Ordering.gt ↦ field l w (insert_key k v f) | _ ↦ field k v (field l w f) ]))
          ≡ (p k && all p (keys (field l w f)))
    placed Ordering.lt g = refl
    placed Ordering.eq g = refl
    placed Ordering.gt g = ground (arith, g)

all-sort_fields : (p : String → Bool) (f : Fields) → all p (keys (sort_fields f)) ≡ all p (keys f)
unfolding keys sort_keys
all-sort_fields p end = refl
all-sort_fields p (field j v f) =
    all-insert_key p j (sort_keys v) (sort_fields f) ∙ ap (λ b. p j && b) (all-sort_fields p f)

all-same :
    (p q : String → Bool) (ks : List String) → ((k : String) → p k ≡ q k) → all p ks ≡ all q ks
all-same p q [] h = refl
all-same p q (k ∷ ks) h = cc (h k, all-same p q ks h)

pub has_exact_keys-sort_fields :
    (f : Fields) (ks : List String) → has_exact_keys (sort_fields f) ks ≡ has_exact_keys f ks
unfolding has_exact_keys
has_exact_keys-sort_fields f ks =
    rw
      (
        all-sort_fields (λ k. contains k ks) f,
        all-same (λ k. contains k (keys (sort_fields f))) (λ k. contains k (keys f)) ks
            (λ k. contains-sort_fields k f),
      )
      refl
