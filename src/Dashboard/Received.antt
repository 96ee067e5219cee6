-- ===== src/Dashboard/Received.antt =====
-- The events with the times by which they are sorted.
use runner_observability.Base.{
  ℕ, ◌≡◌, refl, sym, ap, ◌∙◌, subst, List, [], ◌∷◌, ok, string_eq, >>=-eq-ok, ok-injective,
}
use mathlib.Core.List.{Memᴰ}
use mathlib.Core.List.Memᴰ
use runner_observability.Python.{Python}
use runner_observability.Store.Time.{parse_received_at}
use runner_observability.Store.History.{HistoryItem}
use runner_observability.Dashboard.Phases.{Keyed, keyed}

module _ (py : Python) where
  -- the keyed events are the events with their received times
  pub keyed-Memᴰ :
      (items : List HistoryItem) {events : List Keyed} {entry : Keyed}
      → keyed py items ≡ ok events
      → Memᴰ entry events
      → Memᴰ entry.1 items × (parse_received_at py entry.1.row.received_at ≡ ok entry.0)
  unfolding keyed
  keyed-Memᴰ [] {entry = entry} h m =
      absurd (Memᴰ.not-nil (subst (Memᴰ entry) (sym (ok-injective h)) m))
  keyed-Memᴰ (item ∷ items) {entry = entry} h m =
      let (at, parsed, h1) = >>=-eq-ok (parse_received_at py item.row.received_at) _ h in
      let (rest, others, h2) = >>=-eq-ok (keyed py items) _ h1 in
      of_cons item at parsed (λ m'. keyed-Memᴰ items others m')
        (subst (Memᴰ entry) (sym (ok-injective h2)) m)
    where
      of_cons :
          {rest : List Keyed} {entry : Keyed} (item : HistoryItem) (at : ℕ)
          → parse_received_at py item.row.received_at ≡ ok at
          → (Memᴰ entry rest
              → Memᴰ entry.1 items × (parse_received_at py entry.1.row.received_at ≡ ok entry.0))
          → Memᴰ entry ((at, item) ∷ rest)
          → Memᴰ entry.1 (item ∷ items)
            × (parse_received_at py entry.1.row.received_at ≡ ok entry.0)
      of_cons {entry = entry} item at parsed inner (Memᴰ.head e) =
          subst
            (λ (x : Keyed).
              Memᴰ x.1 (item ∷ items) × (parse_received_at py x.1.row.received_at ≡ ok x.0))
            (sym e) (Memᴰ.head refl, parsed)
      of_cons item at parsed inner (Memᴰ.tail m) =
          let (inside, received) = inner m in (Memᴰ.tail inside, received)

  pub Memᴰ-keyed :
      (items : List HistoryItem) {events : List Keyed} {item : HistoryItem} {at : ℕ}
      → keyed py items ≡ ok events
      → Memᴰ item items
      → parse_received_at py item.row.received_at ≡ ok at
      → Memᴰ (at, item) events
  unfolding keyed
  Memᴰ-keyed [] h m received = absurd (Memᴰ.not-nil m)
  Memᴰ-keyed (first ∷ items) {item = item} {at = at} h m received =
      let (at', parsed, h1) = >>=-eq-ok (parse_received_at py first.row.received_at) _ h in
      let (rest, others, h2) = >>=-eq-ok (keyed py items) _ h1 in
      subst (Memᴰ (at, item)) (ok-injective h2)
        (of_cons parsed (λ m'. Memᴰ-keyed items others m' received) m received)
    where
      of_cons :
          {rest : List Keyed} {item : HistoryItem} {at at' : ℕ}
          → parse_received_at py first.row.received_at ≡ ok at'
          → (Memᴰ item items → Memᴰ (at, item) rest)
          → Memᴰ item (first ∷ items)
          → parse_received_at py item.row.received_at ≡ ok at
          → Memᴰ (at, item) ((at', first) ∷ rest)
      of_cons {item = item} {at} {at'} parsed inner (Memᴰ.head e) received =
          let same : at ≡ at' = ok-injective (
            sym received
            ∙ (ap (λ (i : HistoryItem). parse_received_at py i.row.received_at) e ∙ parsed)) in
          Memᴰ.head (cc (same, e))
      of_cons parsed inner (Memᴰ.tail m) received = Memᴰ.tail (inner m)
