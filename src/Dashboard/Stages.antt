-- ===== src/Dashboard/Stages.antt =====
-- The stage ids that the phases and the fallback of a job show.
use runner_observability.Base.{
  String, ◌≡◌, refl, sym, subst, ◌⊎◌, inl, inr, true, Option, none, some, List, [], ◌∷◌, ok, ◌>>=◌,
  arith, string_eq, ◌==◌, eq_iff, Bool-cases, contains, keep, All, Ensures, Ensures->>=, Ensures-at,
  Ensures-weaken,
}
use runner_observability.Base.Table.{Table, upsert}
use runner_observability.Base.Sort.{sort_by}
use runner_observability.Value.{Value, str, dict, proxy, list, tuple, null, bool, int, float}
use runner_observability.Python.{Python}
use runner_observability.Store.History.{HistoryItem}
use runner_observability.Dashboard.Reading.{
  Display, approved_stage_ids, unrecognised_stage_id, display_stage_id, subscript,
}
use runner_observability.Dashboard.Phases.{
  PhaseView, FallbackView, Keyed, is_progress, keyed, phase_view, shown_phase, put_phases,
  not_later, last_of, fallback_view, shown_fallback, aggregate_phases, latest_fallback,
}

-- A stage id that may be shown.
abbrev pub IsShownStage : String → Type 0
IsShownStage id = (contains id approved_stage_ids ≡ true) ⊎ (id ≡ unrecognised_stage_id)

abbrev pub IsShownPhase : String × PhaseView → Type 0
IsShownPhase (id, view) = IsShownStage id × (view.stage_id ≡ id)

abbrev pub IsShownFallback : Option FallbackView → Type 0
IsShownFallback none = Unit
IsShownFallback (some view) = IsShownStage view.target_stage_id

display_stage_id-IsShownStage : (v : Value) → Ensures IsShownStage (display_stage_id v)
unfolding display_stage_id
display_stage_id-IsShownStage (str s) = elim (Bool-cases (contains s approved_stage_ids)) [
  | inl good ↦ rw good (inl good)
  | inr bad ↦ rw bad (inr refl)
]
display_stage_id-IsShownStage (dict _) = tt
display_stage_id-IsShownStage (proxy _) = tt
display_stage_id-IsShownStage (list _) = tt
display_stage_id-IsShownStage (tuple _) = inr refl
display_stage_id-IsShownStage null = inr refl
display_stage_id-IsShownStage (bool _) = inr refl
display_stage_id-IsShownStage (int _) = inr refl
display_stage_id-IsShownStage (float _) = inr refl

abbrev HasTarget : String → Option FallbackView → Type 0
HasTarget id none = Unit
HasTarget id (some view) = view.target_stage_id ≡ id

HasTarget-IsShownFallback :
    (id : String) → IsShownStage id → (o : Option FallbackView) → HasTarget id o → IsShownFallback o
HasTarget-IsShownFallback id shown none h = tt
HasTarget-IsShownFallback id shown (some view) h = subst IsShownStage (sym h) shown

All-upsert :
    (id : String) (view : PhaseView) (t : Table String PhaseView)
    → IsShownPhase (id, view)
    → All IsShownPhase t
    → All IsShownPhase (upsert id view t)
unfolding upsert
All-upsert id view [] h hs = (h, tt)
All-upsert id view ((j, w) ∷ t) h (hj, hs) = elim (Bool-cases (j == id)) [
  | inl same ↦
      let e : j ≡ id = (eq_iff j id).0 same in
      rw same (subst (λ i. IsShownPhase (i, view)) (sym e) h, hs)
  | inr other ↦ rw other (hj, All-upsert id view t h hs)
]

module _ (py : Python) (display : Display) where
  phase_view-stage_id :
      (id : String) (progress : Value) (item : HistoryItem)
      → Ensures (λ (v : PhaseView). v.stage_id ≡ id) (phase_view py display id progress item)
  unfolding phase_view
  phase_view-stage_id id progress item = ground arith

  shown_phase-IsShownPhase :
      (item : HistoryItem) → Ensures IsShownPhase (shown_phase py display item)
  unfolding shown_phase
  shown_phase-IsShownPhase item =
      Ensures->>= IsShownPhase
        (λ progress. subscript progress "stage_id" >>= λ raw. display_stage_id raw >>= λ id.
          phase_view py display id progress item >>= λ view. ok (id, view))
        (subscript item.payload "progress")
        λ progress _.
          Ensures->>= IsShownPhase
            (λ raw. display_stage_id raw >>= λ id.
              phase_view py display id progress item >>= λ view. ok (id, view))
            (subscript progress "stage_id") λ raw _. shown_at progress raw
    where
      shown_at :
          (progress raw : Value)
          → Ensures IsShownPhase (
              display_stage_id raw >>= λ id.
              phase_view py display id progress item >>= λ view. ok (id, view))
      shown_at progress raw =
          Ensures->>= IsShownPhase
            (λ id. phase_view py display id progress item >>= λ view. ok (id, view))
            (display_stage_id raw)
            λ id e.
              Ensures->>= IsShownPhase (λ view. ok (id, view))
                (phase_view py display id progress item)
                λ view h. (
                  Ensures-at IsShownStage (display_stage_id raw) (display_stage_id-IsShownStage raw)
                      e,
                  Ensures-at (λ (v : PhaseView). v.stage_id ≡ id)
                      (phase_view py display id progress item)
                      (phase_view-stage_id id progress item) h,
                )

  put_phases-IsShownPhase :
      (events : List Keyed) (t : Table String PhaseView)
      → All IsShownPhase t
      → Ensures (All IsShownPhase) (put_phases py display events t)
  unfolding put_phases
  put_phases-IsShownPhase [] t h = h
  put_phases-IsShownPhase ((at, item) ∷ rest) t h =
      Ensures->>= (All IsShownPhase)
        (λ (p : String × PhaseView). put_phases py display rest (upsert p.0 p.1 t))
        (shown_phase py display item)
        λ p e. put_phases-IsShownPhase rest (upsert p.0 p.1 t) (
          All-upsert p.0 p.1 t
            (Ensures-at IsShownPhase (shown_phase py display item) (shown_phase-IsShownPhase item)
              e)
            h)

  pub aggregate_phases-IsShownPhase :
      (items : List HistoryItem) → Ensures (All IsShownPhase) (aggregate_phases py display items)
  unfolding aggregate_phases
  aggregate_phases-IsShownPhase items =
      Ensures->>= (All IsShownPhase) (λ events. put_phases py display (sort_by not_later events) [])
        (keyed py (keep is_progress items))
        λ events _. put_phases-IsShownPhase (sort_by not_later events) [] tt

  fallback_view-target :
      (latest : HistoryItem) (fallback : Value) (id : String)
      → Ensures (HasTarget id) (fallback_view py display latest fallback id)
  fallback_view-target latest fallback id = ground arith

  fallback_view-IsShownFallback :
      (latest : HistoryItem) (fallback : Value) (id : String)
      → IsShownStage id
      → Ensures IsShownFallback (fallback_view py display latest fallback id)
  fallback_view-IsShownFallback latest fallback id shown =
      Ensures-weaken (HasTarget id) IsShownFallback (fallback_view py display latest fallback id)
        (fallback_view-target latest fallback id) (HasTarget-IsShownFallback id shown)

  shown_fallback-IsShownFallback :
      (events : List Keyed) → Ensures IsShownFallback (shown_fallback py display events)
  shown_fallback-IsShownFallback [] = tt
  shown_fallback-IsShownFallback (x ∷ xs) =
      let latest = (last_of x xs).1 in
      Ensures->>= IsShownFallback
        (λ fallback. subscript fallback "target_stage_id" >>= λ raw.
          display_stage_id raw >>= λ id. fallback_view py display latest fallback id)
        (subscript latest.payload "fallback")
        λ fallback _.
          Ensures->>= IsShownFallback
            (λ raw. display_stage_id raw >>= λ id. fallback_view py display latest fallback id)
            (subscript fallback "target_stage_id")
            λ raw _.
              Ensures->>= IsShownFallback (λ id. fallback_view py display latest fallback id)
                (display_stage_id raw)
                λ id e. fallback_view-IsShownFallback latest fallback id (
                  Ensures-at IsShownStage (display_stage_id raw) (display_stage_id-IsShownStage raw)
                    e)

  pub latest_fallback-IsShownFallback :
      (items : List HistoryItem) → Ensures IsShownFallback (latest_fallback py display items)
  unfolding latest_fallback
  latest_fallback-IsShownFallback items =
      Ensures->>= IsShownFallback (λ events. shown_fallback py display (sort_by not_later events))
        (keyed py (keep (λ (item : HistoryItem). item.row.event_type == "job.fallback") items))
        λ events _. shown_fallback-IsShownFallback (sort_by not_later events)
