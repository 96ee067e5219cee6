-- ===== src/Gate/Verdict.antt =====
-- What the exit code of the gate says, and what its report file holds.
use runner_observability.Base.{
  ℕ, ◌≤◌, String, ◌≡◌, refl, ap, ◌∙◌, true, false, ◌&&◌, Option, none, some, List, [], ◌∷◌, Result,
  ok, err, ◌⊎◌, inl, inr, arith, all, All, &&-eq-true, if◌then◌else◌, if_holds, ok-injective,
  prefix,
}
use runner_observability.Python.{Python}
use runner_observability.Gate.Suite.{
  DrillResult, GateReport, Completed, parse_suite_result, local_gate_passed,
}
use runner_observability.Gate.Report.{render_report, render_crash_report}
use runner_observability.Gate.Run.{
  Stages, Crash, WriteFault, no_fault, open_fails, partial, Disk, unlink, write_then, finish,
  build_full_report, main,
}

-- A gate that has passed: each stage has ended, the test run returned zero after at least 100 tests,
-- and every drill and the check of the agent passed.
pub record IsPassed (stages : Stages) : Type 0 where
  pub completed : Completed
  pub drills : List DrillResult
  pub fail_open : DrillResult
  pub ran : ℕ
  pub suite_ended : stages.suite ≡ ok completed
  pub drills_ended : stages.drills ≡ ok drills
  pub fail_open_ended : stages.fail_open ≡ ok fail_open
  pub returned_zero : completed.returned_zero ≡ true
  pub counted : completed.ran ≡ some ran
  pub enough : 100 ≤ ran
  pub no_failures : (parse_suite_result completed).failures ≡ 0
  pub no_errors : (parse_suite_result completed).errors ≡ 0
  pub drills_passed : All (λ (drill : DrillResult). drill.passed ≡ true) drills
  pub fail_open_passed : fail_open.passed ≡ true

all-All :
    (drills : List DrillResult)
    → all (λ (drill : DrillResult). drill.passed) drills ≡ true
    → All (λ (drill : DrillResult). drill.passed ≡ true) drills
all-All [] h = tt
all-All (d ∷ drills) h =
    let (first, rest) =
      &&-eq-true d.passed (all (λ (drill : DrillResult). drill.passed) drills) h in
    (first, all-All drills rest)

-- what a passing test run has
abbrev SuitePassed : Completed → Type 0
SuitePassed completed =
    (completed.returned_zero ≡ true)
    × ((ran : ℕ) × (completed.ran ≡ some ran) × (100 ≤ ran))
    × ((parse_suite_result completed).failures ≡ 0)
    × ((parse_suite_result completed).errors ≡ 0)

parse_suite_result-passed :
    (completed : Completed) → (parse_suite_result completed).passed ≡ true → SuitePassed completed
unfolding parse_suite_result
parse_suite_result-passed completed h = counted completed.ran refl
  where
    counted : (ran : Option ℕ) → completed.ran ≡ ran → SuitePassed completed
    counted none e = absurd (ground (arith, h, e))
    counted (some ran) e = ground (arith, h, e)

local_gate_passed-IsPassed :
    (now : String) (stages : Stages) {report : GateReport}
    → build_full_report now stages ≡ ok report
    → local_gate_passed report ≡ true
    → IsPassed stages
unfolding build_full_report local_gate_passed
local_gate_passed-IsPassed now stages h good =
    of_stages stages.suite stages.drills stages.fail_open refl refl refl h good
  where
    of_stages :
        {report : GateReport} (suite : Result String Completed)
        (drills : Result String (List DrillResult)) (fail_open : Result String DrillResult)
        → stages.suite ≡ suite
        → stages.drills ≡ drills
        → stages.fail_open ≡ fail_open
        → build_full_report now (record { suite = suite; drills = drills; fail_open = fail_open })
          ≡ ok report
        → local_gate_passed report ≡ true
        → IsPassed stages
    of_stages (err e) drills fail_open s d f h good = cc
    of_stages (ok c) (err e) fail_open s d f h good = cc
    of_stages (ok c) (ok ds) (err e) s d f h good = cc
    of_stages (ok c) (ok ds) (ok o) s d f h good =
        let drills_pass = all (λ (drill : DrillResult). drill.passed) ds in
        let suite_pass = (parse_suite_result c).passed in
        let passed : ((suite_pass && drills_pass) && o.passed) ≡ true =
          ap local_gate_passed (ok-injective h) ∙ good in
        let (others, open_passed) = &&-eq-true (suite_pass && drills_pass) o.passed passed in
        let (suite_passed, drills_passed) = &&-eq-true suite_pass drills_pass others in
        let (zero_code, (ran, counted, enough), clean, sound) =
          parse_suite_result-passed c suite_passed in
        record {
          completed = c;
          drills = ds;
          fail_open = o;
          ran = ran;
          suite_ended = s;
          drills_ended = d;
          fail_open_ended = f;
          returned_zero = zero_code;
          counted = counted;
          enough = enough;
          no_failures = clean;
          no_errors = sound;
          drills_passed = all-All ds drills_passed;
          fail_open_passed = open_passed;
        }

-- the text of this run
abbrev pub this_text : Python → String → Result Crash GateReport → String
this_text py now (err (phase, cause)) = render_crash_report phase cause now
this_text py now (ok report) = render_report py report

-- an exit with 0 for a gate that has passed, or with more
abbrev Exit : Stages → ℕ → Type 0
Exit stages code = (code ≡ 0) × IsPassed stages ⊎ 1 ≤ code

-- How a run ends: the report file has the text of this run, and the exit code is 0 for a gate that has
-- passed, or more; or the writing has failed, and there is no report file, or one with a first part of
-- the text of this run.
abbrev pub IsVerdict : Stages → String → Disk × Option (String × ℕ) → Type 0
IsVerdict stages text (disk, none) =
    (disk.report ≡ none) ⊎ ((n : ℕ) × (disk.report ≡ some (prefix n text)))
IsVerdict stages text (disk, some (line, code)) = (disk.report ≡ some text) × Exit stages code

write_then-IsVerdict :
    (stages : Stages) (disk : Disk) (text line : String) (code : ℕ)
    → disk.report ≡ none
    → Exit stages code
    → IsVerdict stages text (write_then disk text line code)
write_then-IsVerdict stages disk text line code gone ends = of_fault disk.write_fault
  where
    of_fault :
        (fault : WriteFault)
        → IsVerdict stages text (write_then (record disk { write_fault = fault }) text line code)
    of_fault open_fails = inl gone
    of_fault (partial n) = inr (n, refl)
    of_fault no_fault = (refl, ends)

passed_code :
    (now : String) (stages : Stages) (report : GateReport)
    → build_full_report now stages ≡ ok report
    → Exit stages (if local_gate_passed report then 0 else 1)
passed_code now stages report built =
    if_holds (Exit stages) (local_gate_passed report) _ _
      (λ good. inl (refl, local_gate_passed-IsPassed now stages built good))
      (λ _. inr (omega arith))

finish-IsVerdict :
    (py : Python) (now at : String) (stages : Stages) (disk : Disk) (r : Result Crash GateReport)
    → build_full_report at stages ≡ r
    → disk.report ≡ none
    → IsVerdict stages (this_text py now r) (finish py now disk r)
finish-IsVerdict py now at stages disk (err (phase, cause)) built gone =
    write_then-IsVerdict stages disk _ _ 2 gone (inr (omega arith))
finish-IsVerdict py now at stages disk (ok report) built gone =
    write_then-IsVerdict stages disk _ _ _ gone (passed_code at stages report built)

-- If the report of an earlier run can be removed, the gate leaves nothing of it. Either the report file
-- has the text of this run and the gate exits with a code, or the writing fails with an OSError, and
-- the file is missing or has a first part of the text of this run. And the gate exits with 0 only if every
-- stage has ended, at least 100 tests ran and none failed, and every drill and the check of the agent
-- passed.
pub main-IsVerdict :
    (py : Python) (now crashed_at : String) (stages : Stages) (disk : Disk)
    → disk.unlink_fails ≡ false
    → IsVerdict stages
        (this_text py crashed_at (build_full_report now stages))
        (main py now crashed_at stages disk)
unfolding main
main-IsVerdict py now crashed_at stages disk removes =
    finish-IsVerdict py crashed_at now stages (unlink disk) (build_full_report now stages) refl
      (ground (arith, removes))
