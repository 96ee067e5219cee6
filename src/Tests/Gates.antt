-- ===== src/Tests/Gates.antt =====
-- A run of the gate that passes, over the report of an earlier run.
use runner_observability.Base.{refl, true, false, some, [], ◌∷◌, ok}
use runner_observability.Gate.Suite.{DrillResult}
use runner_observability.Gate.Run.{Stages, no_fault, Disk, build_full_report, main}
use runner_observability.Gate.Verdict.{IsVerdict, this_text, main-IsVerdict}
use runner_observability.Tests.Fixtures.{py}

abbrev drill : DrillResult
drill = record { capability = "offline_recovery"; passed = true; reasons = [] }

abbrev stages : Stages
stages = record {
  suite = ok (record { returned_zero = true; ran = some 120; failed_counts = [] });
  drills = ok (drill ∷ []);
  fail_open = ok drill;
}

abbrev disk : Disk
disk = record { report = some "an earlier report"; unlink_fails = false; write_fault = no_fault }

main-IsVerdict_example :
    IsVerdict stages
      (this_text py "later" (build_full_report "now" stages))
      (main py "now" "later" stages disk)
main-IsVerdict_example = main-IsVerdict py "now" "later" stages disk refl
