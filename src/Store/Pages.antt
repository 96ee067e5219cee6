-- ===== src/Store/Pages.antt =====
-- A page of `history_page` is the slice of the whole filtered history that its number says.
use Prim.Native.Nat.{min}
use runner_observability.Base.{
  ℕ, zero, suc, ◌+◌, ◌-◌, ◌*◌, ◌≤◌, String, ◌≡◌, refl, Bool, true, false, not, ◌||◌, List, [], ◌∷◌,
  Result, ok, err, ◌>>=◌, arith, ltb, nat_eq, take, drop, length, if◌then◌else◌, ok-injective,
  subst,
}
use runner_observability.Python.{Python, Exception}
use runner_observability.Database.{Database, EventRow}
use runner_observability.Store.History.{
  Filter, HistoryItem, history_item_from_row, matches_history_filters, matching, collect_page,
  validate_history_filters, page_rows, history_page,
}

length-take {ℓ} : {A : Type ℓ} (n : ℕ) (xs : List A) → length (take n xs) ≡ min n (length xs)
length-take zero xs = omega arith
length-take (suc n) [] = omega arith
length-take (suc n) (x ∷ xs) = omega (arith, length-take n xs)

length-drop {ℓ} : {A : Type ℓ} (n : ℕ) (xs : List A) → length (drop n xs) ≡ length xs - n
length-drop zero xs = omega arith
length-drop (suc n) [] = omega arith
length-drop (suc n) (x ∷ xs) = omega (arith, length-drop n xs)

ltb-min : (size offset n : ℕ) → ltb size (min (suc size) (n - offset)) ≡ ltb (offset + size) n
ltb-min size offset n = ground arith

-- There is one item more than fits on the page exactly when the whole list goes past the page.
length-take-drop {ℓ} :
    {A : Type ℓ} (xs : List A) (offset size : ℕ)
    → ltb size (length (take (suc size) (drop offset xs))) ≡ ltb (offset + size) (length xs)
length-take-drop xs offset size =
    rw (length-take (suc size) (drop offset xs), length-drop offset xs)
      (ltb-min size offset (length xs))

take-take {ℓ} : {A : Type ℓ} (n : ℕ) (xs : List A) → take n (take (suc n) xs) ≡ take n xs
take-take zero xs = refl
take-take (suc n) [] = refl
take-take (suc n) (x ∷ xs) = rw (take-take n xs)

-- one round of the loop, from what its recursive calls return
page_step :
    (fits : Bool) (item : HistoryItem) (offset room : ℕ) (rest : List HistoryItem)
    {skipped passed collected : Result Exception (List HistoryItem)}
    → skipped ≡ ok (take (suc room) (drop offset rest))
    → passed ≡ ok (take (suc room) (drop (offset - 1) rest))
    → collected ≡ ok (take (suc (room - 1)) (drop offset rest))
    → (if not fits
        then skipped
        else if ltb 0 offset
        then passed
        else if nat_eq room 0
        then ok (item ∷ [])
        else (collected >>= λ items. ok (item ∷ items)))
      ≡ ok (take (suc room) (drop offset (if fits then item ∷ rest else rest)))
page_step false item offset room rest s p c = s
page_step true item (suc offset) room rest s p c =
    let e : suc offset - 1 ≡ offset = omega arith in
    let more : ltb 0 (suc offset) ≡ true = ground arith in rw (p, more, e)
page_step true item zero zero rest s p c = refl
page_step true item zero (suc room) rest s p c =
    let e : suc room - 1 ≡ room = omega arith in
    let more : nat_eq (suc room) 0 ≡ false = ground arith in rw (c, more, e)

-- what the three recursive calls return, if the rest of the rows matches `rest`
abbrev Calls :
    Result Exception (List HistoryItem)
    → ℕ
    → ℕ
    → Result Exception (List HistoryItem)
    → Result Exception (List HistoryItem)
    → Result Exception (List HistoryItem)
    → Type 0
Calls matched offset room skipped passed collected =
    (rest : List HistoryItem)
    → matched ≡ ok rest
    → (skipped ≡ ok (take (suc room) (drop offset rest)))
      × (passed ≡ ok (take (suc room) (drop (offset - 1) rest)))
      × (collected ≡ ok (take (suc (room - 1)) (drop offset rest)))

page_tested :
    (item : HistoryItem) (test : Result Exception Bool)
    (matched : Result Exception (List HistoryItem)) (offset room : ℕ)
    (skipped passed collected : Result Exception (List HistoryItem)) {items : List HistoryItem}
    → Calls matched offset room skipped passed collected
    → (test >>= λ fits. matched >>= λ rest. ok (if fits then item ∷ rest else rest)) ≡ ok items
    → (test >>= λ fits.
        if not fits
        then skipped
        else if ltb 0 offset
        then passed
        else if nat_eq room 0
        then ok (item ∷ [])
        else (collected >>= λ items. ok (item ∷ items)))
      ≡ ok (take (suc room) (drop offset items))
page_tested item (err e) matched offset room s p c calls h = cc
page_tested item (ok fits) (err e) offset room s p c calls h = cc
page_tested item (ok fits) (ok rest) offset room s p c calls h =
    let (cs, cp, cc') = calls rest refl in
    subst
      (λ items.
        (if not fits
          then s
          else if ltb 0 offset
          then p
          else if nat_eq room 0
          then ok (item ∷ [])
          else (c >>= λ more. ok (item ∷ more)))
        ≡ ok (take (suc room) (drop offset items)))
      (ok-injective h) (page_step fits item offset room rest cs cp cc')

module _ (py : Python) (filters : List Filter) where
  -- the rows of `matching` and of the loop are decoded in the same order
  page_round :
      (row : EventRow) (rows : List EventRow) (offset room : ℕ) {items : List HistoryItem}
      (decoded : Result Exception HistoryItem)
      → Calls
          (matching py filters rows)
          offset
          room
          (collect_page py filters rows offset room)
          (collect_page py filters rows (offset - 1) room)
          (collect_page py filters rows offset (room - 1))
      → history_item_from_row py row ≡ decoded
      → matching py filters (row ∷ rows) ≡ ok items
      → collect_page py filters (row ∷ rows) offset room ≡ ok (take (suc room) (drop offset items))
  unfolding matching collect_page
  page_round row rows offset room (err e) calls d h = ground (arith)
  page_round row rows offset room (ok item) calls d h = rw d (
      page_tested item (matches_history_filters py item filters) (matching py filters rows) offset
        room (collect_page py filters rows offset room)
        (collect_page py filters rows (offset - 1) room)
        (collect_page py filters rows offset (room - 1)) calls (rw d at h))

  -- The loop collects one item more than there is room for, past the items to skip.
  collect_page-matching :
      (rows : List EventRow) (offset room : ℕ) {items : List HistoryItem}
      → matching py filters rows ≡ ok items
      → collect_page py filters rows offset room ≡ ok (take (suc room) (drop offset items))
  unfolding matching collect_page
  collect_page-matching [] zero room h = ground arith
  collect_page-matching [] (suc offset) room h = ground arith
  collect_page-matching (row ∷ rows) offset room h =
      page_round row rows offset room (history_item_from_row py row)
        (λ rest m. (
          collect_page-matching rows offset room m,
          collect_page-matching rows (offset - 1) room m,
          collect_page-matching rows offset (room - 1) m,
        ))
        refl h

-- Page `page` holds the items of the filtered history, newest first, from number
-- (page - 1) * page_size on, `page_size` at most, and the flag says whether one follows them. Pages
-- are counted from 1; the filters are allowed and every row that is asked for can be decoded.
pub history_page-matching :
    (py : Python) (db : Database) (filters : List Filter) (page page_size : ℕ)
    (excluded : List String) {items : List HistoryItem}
    → 1 ≤ page
    → 1 ≤ page_size
    → validate_history_filters filters ≡ ok tt
    → matching py filters (page_rows py db filters excluded) ≡ ok items
    → history_page py db filters page page_size excluded
      ≡ ok (
        take page_size (drop ((page - 1) * page_size) items),
        ltb ((page - 1) * page_size + page_size) (length items),
      )
unfolding history_page
history_page-matching py db filters page size excluded {items = items} p q valid matched =
    let offset = (page - 1) * size in
    let counted : (ltb page 1 || ltb size 1) ≡ false = ground arith in
    rw (
      counted,
      valid,
      collect_page-matching py filters (page_rows py db filters excluded) offset size matched,
      take-take size (drop offset items),
      length-take-drop items offset size,
    )
