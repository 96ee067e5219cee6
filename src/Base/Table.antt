-- ===== src/Base/Table.antt =====
-- A database table by its key: a list of rows in the order of their row ids, and the statements
-- that the program runs on it.
use runner_observability.Base.Tests.{Eq, ◌==◌, if◌then◌else◌, Bool-cases}
use mathlib.Core.Path.{◌≡◌, refl}
use mathlib.Core.Bool.{Bool}
use mathlib.Core.Logic.{inl, inr}
use mathlib.Core.Option.{Option, none, some}
use mathlib.Core.Option
use mathlib.Core.List.{List, [], ◌∷◌}
use native.Mathlib.Omega.{arith}

abbrev pub Table {ℓ κ} : Type ℓ → Type κ → Type (ℓ ⊔ κ)
Table K V = List (K × V)

module _ {ℓ κ} {K : Type ℓ} {V : Type κ} ⦃e : Eq K⦄ where
  -- SELECT … WHERE key = k
  unfoldable pub select : K → Table K V → Option V
  select k [] = none
  select k ((j, v) ∷ t) = if j == k then some v else select k t

  -- INSERT … ON CONFLICT(key) DO UPDATE SET: the row keeps its place
  unfoldable pub upsert : K → V → Table K V → Table K V
  upsert k v [] = (k, v) ∷ []
  upsert k v ((j, w) ∷ t) = if j == k then (j, v) ∷ t else (j, w) ∷ upsert k v t

  -- UPDATE … SET … WHERE key = k
  unfoldable pub update : K → (V → V) → Table K V → Table K V
  update k f [] = []
  update k f ((j, w) ∷ t) = (j, if j == k then f w else w) ∷ update k f t

  -- UPDATE … SET … WHERE p
  unfoldable pub update_where : (K → V → Bool) → (V → V) → Table K V → Table K V
  update_where p f [] = []
  update_where p f ((j, w) ∷ t) = (j, if p j w then f w else w) ∷ update_where p f t

  pub select-upsert :
      (k j : K) (v : V) (t : Table K V)
      → select j (upsert k v t) ≡ (if k == j then some v else select j t)
  unfolding select upsert
  select-upsert k j v [] = refl
  select-upsert k j v ((i, w) ∷ t) =
      ground (arith, e.agree_iff k j, e.agree_iff i k, e.agree_iff i j, select-upsert k j v t)

  pub select-update :
      (k j : K) (f : V → V) (t : Table K V)
      → select j (update k f t) ≡ (if k == j then Option.map f (select j t) else select j t)
  unfolding select update
  select-update k j f [] = ground arith
  select-update k j f ((i, w) ∷ t) =
      ground (arith, e.agree_iff k j, e.agree_iff i k, e.agree_iff i j, select-update k j f t)

  -- an update that goes by the key and the row, read at one key
  pub select-update_where :
      (p : K → V → Bool) (f : V → V) (j : K) (t : Table K V)
      → select j (update_where p f t) ≡ Option.map (λ w. if p j w then f w else w) (select j t)
  unfolding select update_where
  select-update_where p f j [] = refl
  select-update_where p f j ((i, w) ∷ t) = elim (Bool-cases (i == j)) [
    | inl same ↦ let e : i ≡ j = (e.agree_iff i j).0 same in rw (same, e)
    | inr other ↦ rw other (select-update_where p f j t)
  ]

pub ruleset table_laws = (select-upsert, select-update, select-update_where)
