-- ===== src/Deploy/Staging.antt =====
-- What staging and activating change in a layout.
use runner_observability.Base.{
  String, ◌≡◌, ◌≢◌, refl, Option, none, some, ok, arith, string_eq, eq_iff, [], ◌∷◌,
}
use runner_observability.Base.Table.{Table, select, upsert, select-upsert}
use runner_observability.Python.{Python}
use runner_observability.Outbox.State.{remove}
use runner_observability.Deploy.Layout.{
  ReleaseLayout, Raised, StageFaults, validate_revision, release_exists, stage_release, activate,
}

select-remove_other :
    (k j : String) (t : Table String String) → k ≢ j → select j (remove k t) ≡ select j t
unfolding select remove
select-remove_other k j [] h = refl
select-remove_other k j ((i, v) ∷ t) h =
    ground (arith, eq_iff i k, eq_iff i j, select-remove_other k j t h)

select-upsert_other :
    (k j v : String) (t : Table String String) → k ≢ j → select j (upsert k v t) ≡ select j t
select-upsert_other k j v t h = ground (arith, eq_iff k j, select-upsert k j v t)

module _ (py : Python) (strip : String → String) where
  pub releases-activate :
      (fault : Option Raised) (layout : ReleaseLayout) (revision : String)
      → (activate py strip fault layout revision).0.releases ≡ layout.releases
  unfolding activate release_exists
  releases-activate fault layout revision = ground arith

  pub pointer-activate :
      (fault : Option Raised) (layout : ReleaseLayout) (revision : String) {layout' : ReleaseLayout}
      {u : Unit {0}}
      → activate py strip fault layout revision ≡ (layout', ok u)
      → (layout'.current_pointer ≡ some revision) × (layout'.releases ≡ layout.releases)
  unfolding activate release_exists
  pointer-activate fault layout revision h = ground arith

  pub select-stage_release :
      (faults : StageFaults) (layout : ReleaseLayout) (revision other : String)
      (source : Option String)
      → revision ≢ other
      → select other (stage_release py strip faults layout revision source).0.releases
        ≡ select other layout.releases
  unfolding stage_release validate_revision
  select-stage_release faults layout revision other source h =
      grind (arith, select-remove_other, select-upsert_other)

  pub stage_release-source :
      (faults : StageFaults) (layout : ReleaseLayout) (revision : String) (source : Option String)
      {layout' : ReleaseLayout} {u : Unit {0}}
      → stage_release py strip faults layout revision source ≡ (layout', ok u)
      → (select revision layout'.releases ≡ source) × (source ≢ none)
  unfolding stage_release validate_revision
  stage_release-source faults layout revision source h = grind (arith, select-upsert, eq_iff)
