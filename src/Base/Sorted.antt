-- ===== src/Base/Sorted.antt =====
-- What sorting leaves: the same items, in order; and what a filter leaves.
use mathlib.Core.Path.{◌≡◌, sym, ap, ◌∙◌, subst}
use mathlib.Core.Logic.{inl, inr}
use mathlib.Core.Bool.{Bool, true, false}
use mathlib.Core.List.{List, [], ◌∷◌, Memᴰ}
use mathlib.Core.List.Memᴰ
use runner_observability.Base.Tests.{Bool-cases}
use runner_observability.Base.Lists.{All, keep}
use runner_observability.Base.Sort.{insert_by, sort_by}

module _ {ℓ κ} {A : Type ℓ} (P : A → Type κ) where
  pub Memᴰ-All : {x : A} (xs : List A) → Memᴰ x xs → All P xs → P x
  Memᴰ-All [] m ps = absurd (Memᴰ.not-nil m)
  Memᴰ-All (y ∷ xs) (Memᴰ.head e) (py, pxs) = subst P (sym e) py
  Memᴰ-All (y ∷ xs) (Memᴰ.tail m) (py, pxs) = Memᴰ-All xs m pxs

module _ {ℓ} {A : Type ℓ} where
  -- a list under the same head
  Memᴰ-under :
      {x : A} (y : A) {xs ys : List A} → (Memᴰ x xs → Memᴰ x ys) → Memᴰ x (y ∷ xs) → Memᴰ x (y ∷ ys)
  Memᴰ-under y f (Memᴰ.head e) = Memᴰ.head e
  Memᴰ-under y f (Memᴰ.tail m) = Memᴰ.tail (f m)

  Memᴰ-swap : {x : A} (y z : A) {xs : List A} → Memᴰ x (y ∷ z ∷ xs) → Memᴰ x (z ∷ y ∷ xs)
  Memᴰ-swap y z (Memᴰ.head e) = Memᴰ.tail (Memᴰ.head e)
  Memᴰ-swap y z (Memᴰ.tail (Memᴰ.head e)) = Memᴰ.head e
  Memᴰ-swap y z (Memᴰ.tail (Memᴰ.tail m)) = Memᴰ.tail (Memᴰ.tail m)

  pub Memᴰ-keep : (p : A → Bool) {x : A} (xs : List A) → Memᴰ x xs → p x ≡ true → Memᴰ x (keep p xs)
  Memᴰ-keep p [] m h = absurd (Memᴰ.not-nil m)
  Memᴰ-keep p (y ∷ xs) (Memᴰ.head e) h =
      let same : p y ≡ true = sym (ap p e) ∙ h in rw same (Memᴰ.head e)
  Memᴰ-keep p (y ∷ xs) (Memᴰ.tail m) h = elim (Bool-cases (p y)) [
    | inl kept ↦ rw kept (Memᴰ.tail (Memᴰ-keep p xs m h))
    | inr left ↦ rw left (Memᴰ-keep p xs m h)
  ]

  kept_head :
      (p : A → Bool) {x y : A} {xs ys : List A}
      → p y ≡ true
      → (Memᴰ x xs → Memᴰ x ys × (p x ≡ true))
      → Memᴰ x (y ∷ xs)
      → Memᴰ x (y ∷ ys) × (p x ≡ true)
  kept_head p kept f (Memᴰ.head e) = (Memᴰ.head e, ap p e ∙ kept)
  kept_head p kept f (Memᴰ.tail m) = let (inside, h) = f m in (Memᴰ.tail inside, h)

  pub keep-Memᴰ :
      (p : A → Bool) {x : A} (xs : List A) → Memᴰ x (keep p xs) → Memᴰ x xs × (p x ≡ true)
  keep-Memᴰ p [] m = absurd (Memᴰ.not-nil m)
  keep-Memᴰ p (y ∷ xs) m = elim (Bool-cases (p y)) [
    | inl kept ↦ kept_head p kept (keep-Memᴰ p xs) (rw kept at m)
    | inr left ↦ let (inside, h) = keep-Memᴰ p xs (rw left at m) in (Memᴰ.tail inside, h)
  ]

  module _ (before : A → A → Bool) where
    insert_by-first :
        (x y : A) (xs : List A) → before x y ≡ true → insert_by before x (y ∷ xs) ≡ x ∷ y ∷ xs
    unfolding insert_by
    insert_by-first x y xs h = rw h

    insert_by-later :
        (x y : A) (xs : List A)
        → before x y ≡ false
        → insert_by before x (y ∷ xs) ≡ y ∷ insert_by before x xs
    unfolding insert_by
    insert_by-later x y xs h = rw h

    Memᴰ-insert_by :
        {x : A} (y : A) (xs : List A) → Memᴰ x (y ∷ xs) → Memᴰ x (insert_by before y xs)
    unfolding insert_by
    Memᴰ-insert_by y [] m = m
    Memᴰ-insert_by {x} y (z ∷ xs) m = elim (Bool-cases (before y z)) [
      | inl first ↦ subst (Memᴰ x) (sym (insert_by-first y z xs first)) m
      | inr later ↦
          subst (Memᴰ x) (sym (insert_by-later y z xs later))
            (Memᴰ-under z (Memᴰ-insert_by y xs) (Memᴰ-swap y z m))
    ]

    insert_by-Memᴰ :
        {x : A} (y : A) (xs : List A) → Memᴰ x (insert_by before y xs) → Memᴰ x (y ∷ xs)
    unfolding insert_by
    insert_by-Memᴰ y [] m = m
    insert_by-Memᴰ {x} y (z ∷ xs) m = elim (Bool-cases (before y z)) [
      | inl first ↦ subst (Memᴰ x) (insert_by-first y z xs first) m
      | inr later ↦
          Memᴰ-swap z y
            (Memᴰ-under z (insert_by-Memᴰ y xs) (subst (Memᴰ x) (insert_by-later y z xs later) m))
    ]

    pub Memᴰ-sort_by : {x : A} (xs : List A) → Memᴰ x xs → Memᴰ x (sort_by before xs)
    unfolding sort_by
    Memᴰ-sort_by [] m = m
    Memᴰ-sort_by (y ∷ xs) m =
        Memᴰ-insert_by y (sort_by before xs) (Memᴰ-under y (Memᴰ-sort_by xs) m)

    pub sort_by-Memᴰ : {x : A} (xs : List A) → Memᴰ x (sort_by before xs) → Memᴰ x xs
    unfolding sort_by
    sort_by-Memᴰ [] m = m
    sort_by-Memᴰ (y ∷ xs) m =
        Memᴰ-under y (sort_by-Memᴰ xs) (insert_by-Memᴰ y (sort_by before xs) m)

    -- every item may stand before all that follow it
    abbrev pub IsOrdered : List A → Type ℓ
    IsOrdered [] = Unit
    IsOrdered (x ∷ xs) = All (λ y. before x y ≡ true) xs × IsOrdered xs

    module _ (total : (x y : A) → before x y ≡ false → before y x ≡ true)
        (transitive : (x y z : A) → before x y ≡ true → before y z ≡ true → before x z ≡ true) where
      All-before :
          (x y : A) (xs : List A)
          → before x y ≡ true
          → All (λ z. before y z ≡ true) xs
          → All (λ z. before x z ≡ true) xs
      All-before x y [] h hs = tt
      All-before x y (z ∷ xs) h (hz, hs) = (transitive x y z h hz, All-before x y xs h hs)

      All-insert_by :
          (x y : A) (xs : List A)
          → before x y ≡ true
          → All (λ z. before x z ≡ true) xs
          → All (λ z. before x z ≡ true) (insert_by before y xs)
      unfolding insert_by
      All-insert_by x y [] h hs = (h, tt)
      All-insert_by x y (z ∷ xs) h (hz, hs) = elim (Bool-cases (before y z)) [
        | inl first ↦
            subst (All (λ z. before x z ≡ true)) (sym (insert_by-first y z xs first)) (h, (hz, hs))
        | inr later ↦
            subst (All (λ z. before x z ≡ true)) (sym (insert_by-later y z xs later))
              (hz, All-insert_by x y xs h hs)
      ]

      insert_by-IsOrdered : (x : A) (xs : List A) → IsOrdered xs → IsOrdered (insert_by before x xs)
      unfolding insert_by
      insert_by-IsOrdered x [] h = (tt, tt)
      insert_by-IsOrdered x (y ∷ xs) (hy, hs) = elim (Bool-cases (before x y)) [
        | inl first ↦
            subst IsOrdered (sym (insert_by-first x y xs first))
              ((first, All-before x y xs first hy), (hy, hs))
        | inr later ↦
            subst IsOrdered (sym (insert_by-later x y xs later))
              (All-insert_by y x xs (total x y later) hy, insert_by-IsOrdered x xs hs)
      ]

      pub sort_by-IsOrdered : (xs : List A) → IsOrdered (sort_by before xs)
      unfolding sort_by
      sort_by-IsOrdered [] = tt
      sort_by-IsOrdered (x ∷ xs) = insert_by-IsOrdered x (sort_by before xs) (sort_by-IsOrdered xs)
