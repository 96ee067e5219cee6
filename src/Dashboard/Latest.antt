-- ===== src/Dashboard/Latest.antt =====
-- The phases of a job: the progress that was received last is the one that is shown.
use runner_observability.Base.{
  ℕ, ◌≤◌, String, ◌≡◌, refl, sym, ap, ◌∙◌, subst, ◌⊎◌, inl, inr, true, false, Option, none, some,
  List, [], ◌∷◌, ok, arith, leb→le, string_eq, ◌==◌, eq_iff, Bool-cases, keep, All, >>=-eq-ok,
  ok-injective,
}
use mathlib.Core.List.{Memᴰ}
use mathlib.Core.List.Memᴰ
use runner_observability.Base.Table.{Table, select, upsert, select-upsert}
use runner_observability.Base.Sort.{sort_by}
use runner_observability.Base.Sorted.{
  Memᴰ-All, Memᴰ-keep, keep-Memᴰ, Memᴰ-sort_by, sort_by-Memᴰ, IsOrdered, sort_by-IsOrdered,
}
use runner_observability.Python.{Python}
use runner_observability.Store.Time.{parse_received_at}
use runner_observability.Store.History.{HistoryItem}
use runner_observability.Dashboard.Reading.{Display}
use runner_observability.Dashboard.Received.{keyed-Memᴰ, Memᴰ-keyed}
use runner_observability.Dashboard.Phases.{
  PhaseView, Keyed, not_later, is_progress, keyed, shown_phase, put_phases, aggregate_phases,
}

-- An event of the history that reports progress of the stage, when it was received, and its view.
pub record Reports (py : Python) (display : Display) (items : List HistoryItem) (stage : String)
    (item : HistoryItem) (at : ℕ) (view : PhaseView) : Type 0 where
  pub inside : Memᴰ item items
  pub progress : is_progress item ≡ true
  pub received : parse_received_at py item.row.received_at ≡ ok at
  pub shown : shown_phase py display item ≡ ok (stage, view)

-- What is shown for a stage: the view of a report of it that no other was received after, or nothing,
-- where there is no report of it.
abbrev pub ShowsLatest : Python → Display → List HistoryItem → String → Option PhaseView → Type 0
ShowsLatest py display items stage none =
    (item : HistoryItem) (at : ℕ) (view : PhaseView)
    → Reports py display items stage item at view
    → ⊥
ShowsLatest py display items stage (some view) =
    (item : HistoryItem) × (at : ℕ) × Reports py display items stage item at view
    × ((other : HistoryItem) (at' : ℕ) (view' : PhaseView)
        → Reports py display items stage other at' view'
        → at' ≤ at)

not_later-total : (x y : Keyed) → not_later x y ≡ false → not_later y x ≡ true
not_later-total (a, _) (b, _) h = ground arith

not_later-transitive :
    (x y z : Keyed) → not_later x y ≡ true → not_later y z ≡ true → not_later x z ≡ true
not_later-transitive (a, _) (b, _) (c, _) h h' = ground arith

module _ (py : Python) (display : Display) where
  -- an event of the list that shows the stage
  abbrev ShowsStage : List Keyed → String → Keyed → PhaseView → Type 0
  ShowsStage events stage entry view =
      Memᴰ entry events × (shown_phase py display entry.1 ≡ ok (stage, view))

  -- what the loop over ordered events has put for a stage into a table
  abbrev PutLast : List Keyed → Table String PhaseView → String → Option PhaseView → Type 0
  PutLast events phases stage found =
      (((entry : Keyed) (view : PhaseView) → ShowsStage events stage entry view → ⊥)
        × (found ≡ select stage phases))
      ⊎ ((entry : Keyed) × (view : PhaseView) × ShowsStage events stage entry view
          × (found ≡ some view)
          × ((other : Keyed) (view' : PhaseView)
              → ShowsStage events stage other view'
              → other.0 ≤ entry.0))

  module _ (first : Keyed) (rest : List Keyed) (phases : Table String PhaseView) (id stage : String)
      (shown : PhaseView) (found : Option PhaseView)
      (shows : shown_phase py display first.1 ≡ ok (id, shown))
      (ordered : All (λ e. not_later first e ≡ true) rest) where
    same_id :
        {entry : Keyed} {view : PhaseView}
        → entry ≡ first
        → shown_phase py display entry.1 ≡ ok (stage, view)
        → id ≡ stage
    same_id e h =
        let pair =
          ok-injective (sym shows ∙ (ap (λ (x : Keyed). shown_phase py display x.1) (sym e) ∙ h)) in
        ap (λ (x : String × PhaseView). x.0) pair

    -- a report later in the list
    put_later :
        (entry : Keyed) (view : PhaseView)
        → ShowsStage rest stage entry view
        → found ≡ some view
        → ((other : Keyed) (view' : PhaseView)
            → ShowsStage rest stage other view'
            → other.0 ≤ entry.0)
        → PutLast (first ∷ rest) phases stage found
    put_later entry view (m, s) same latest = inr (entry, view, (Memᴰ.tail m, s), same, later)
      where
        later :
            (other : Keyed) (view' : PhaseView)
            → ShowsStage (first ∷ rest) stage other view'
            → other.0 ≤ entry.0
        later other view' (Memᴰ.head e, h) =
            let bound : first.0 ≤ entry.0 =
              leb→le _ _ (Memᴰ-All (λ x. not_later first x ≡ true) rest m ordered) in
            subst (λ (x : Keyed). x.0 ≤ entry.0) (sym e) bound
        later other view' (Memᴰ.tail m', h) = latest other view' (m', h)

    -- no report later in the list
    put_first :
        ((entry : Keyed) (view : PhaseView) → ShowsStage rest stage entry view → ⊥)
        → found ≡ select stage (upsert id shown phases)
        → PutLast (first ∷ rest) phases stage found
    put_first absent same = elim (Bool-cases (id == stage)) [
      | inl this ↦
          let e : id ≡ stage = (eq_iff id stage).0 this in
          let written : found ≡ some shown =
            ground (arith, same, select-upsert id stage shown phases, this) in
          inr (
            first,
            shown,
            (Memᴰ.head refl, subst (λ i. shown_phase py display first.1 ≡ ok (i, shown)) e shows),
            written,
            only,
          )
      | inr other ↦
          let kept : found ≡ select stage phases =
            ground (arith, same, select-upsert id stage shown phases, other) in
          inl (missing other, kept)
    ]
      where
        only :
            (other : Keyed) (view' : PhaseView)
            → ShowsStage (first ∷ rest) stage other view'
            → other.0 ≤ first.0
        only other view' (Memᴰ.head e, h) =
            subst (λ (x : Keyed). x.0 ≤ first.0) (sym e) (omega arith)
        only other view' (Memᴰ.tail m', h) = absurd (absent other view' (m', h))

        missing :
            (id == stage) ≡ false
            → (entry : Keyed) (view : PhaseView) → ShowsStage (first ∷ rest) stage entry view
            → ⊥
        missing other entry view (Memᴰ.head e, h) =
            let same' = same_id {view = view} e h in ground (arith, eq_iff id stage)
        missing other entry view (Memᴰ.tail m', h) = absent entry view (m', h)

  put_phases-PutLast :
      (events : List Keyed) (phases : Table String PhaseView) {phases' : Table String PhaseView}
      (stage : String)
      → IsOrdered not_later events
      → put_phases py display events phases ≡ ok phases'
      → PutLast events phases stage (select stage phases')
  unfolding put_phases
  put_phases-PutLast [] phases stage ordered h =
      inl (λ entry view m. Memᴰ.not-nil m.0, ap (select stage) (sym (ok-injective h)))
  put_phases-PutLast ((at, item) ∷ rest) phases {phases'} stage (later, ordered) h =
      let ((id, shown), shows, h1) = >>=-eq-ok (shown_phase py display item) _ h in
      elim (put_phases-PutLast rest (upsert id shown phases) stage ordered h1) [
        | inl (absent, same) ↦
            put_first (at, item) rest phases id stage shown (select stage phases') shows later
              absent same
        | inr (entry, view, report, same, latest) ↦
            put_later (at, item) rest phases id stage shown (select stage phases') shows later entry
              view report same latest
      ]

  -- the reports in the history, and the events that show the stage in the sorted list
  module _ (items : List HistoryItem) (stage : String) (events : List Keyed)
      (decoded : keyed py (keep is_progress items) ≡ ok events) where
    report_of :
        (entry : Keyed) (view : PhaseView)
        → ShowsStage (sort_by not_later events) stage entry view
        → Reports py display items stage entry.1 entry.0 view
    report_of entry view (m, shown) =
        let (kept, received) =
          keyed-Memᴰ py (keep is_progress items) decoded (sort_by-Memᴰ not_later events m) in
        let (inside, progress) = keep-Memᴰ is_progress items kept in
        record { inside = inside; progress = progress; received = received; shown = shown }

    shows_report :
        (item : HistoryItem) (at : ℕ) (view : PhaseView)
        → Reports py display items stage item at view
        → ShowsStage (sort_by not_later events) stage (at, item) view
    shows_report item at view r = (
      Memᴰ-sort_by not_later events (
          Memᴰ-keyed py (keep is_progress items) decoded
            (Memᴰ-keep is_progress items r.inside r.progress) r.received),
      r.shown,
    )

    PutLast-ShowsLatest :
        (found : Option PhaseView)
        → PutLast (sort_by not_later events) [] stage found
        → ShowsLatest py display items stage found
    unfolding select
    PutLast-ShowsLatest found (inl (absent, same)) =
        subst (ShowsLatest py display items stage) (sym same)
          (λ item at view r. absent (at, item) view (shows_report item at view r))
    PutLast-ShowsLatest found (inr (entry, view, report, same, latest)) =
        subst (ShowsLatest py display items stage) (sym same) (
          entry.1,
          entry.0,
          report_of entry view report,
          λ other at' view' r. latest (at', other) view' (shows_report other at' view' r),
        )

  -- For every stage, the phases of a job show the view of a progress event of that stage that no other
  -- progress event of the stage was received after, whatever the order of the events; and they show
  -- nothing for it exactly where the events have no progress of it. The phases can be read.
  pub aggregate_phases-ShowsLatest :
      (items : List HistoryItem) {phases : Table String PhaseView} (stage : String)
      → aggregate_phases py display items ≡ ok phases
      → ShowsLatest py display items stage (select stage phases)
  unfolding aggregate_phases
  aggregate_phases-ShowsLatest items {phases} stage h =
      let (events, decoded, h1) = >>=-eq-ok (keyed py (keep is_progress items)) _ h in
      PutLast-ShowsLatest items stage events decoded (select stage phases) (
        put_phases-PutLast (sort_by not_later events) [] stage
          (sort_by-IsOrdered not_later not_later-total not_later-transitive events) h1)
