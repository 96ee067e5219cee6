-- ===== src/Gate/Run.antt =====
-- gate.py: `build_full_report` and `main`. The test run, the drills and the check of the agent are
-- parameters: what they return, or the name of the type of what they raise.
use runner_observability.Base.{
  ℕ, String, Bool, Option, none, some, List, Result, ok, err, ◌>>=◌, if◌then◌else◌, prefix,
}
use Prim.Native.String.{◌++◌ as append}
use runner_observability.Python.{Python}
use runner_observability.Gate.Suite.{
  DrillResult, GateReport, Completed, parse_suite_result, local_gate_passed,
}
use runner_observability.Gate.Report.{verdict, render_report, render_crash_report}

pub record Stages : Type 0 where
  pub suite : Result String Completed
  pub drills : Result String (List DrillResult)
  pub fail_open : Result String DrillResult

-- A GateCrashError: its phase and its cause.
abbrev pub Crash : Type 0
Crash = String × String

-- raise GateCrashError(phase, error) from error
abbrev in_phase {ℓ} : {A : Type ℓ} → String → Result String A → Result Crash A
in_phase phase (ok a) = ok a
in_phase phase (err cause) = err (phase, cause)

unfoldable pub build_full_report : String → Stages → Result Crash GateReport
unfolding parse_suite_result
build_full_report generated_at stages = do
  completed ← in_phase "automated_gate_suite" stages.suite
  drills ← in_phase "isolated_fault_drills" stages.drills
  fail_open ← in_phase "fail_open_contract" stages.fail_open
  ok (record {
    generated_at = generated_at;
    suite = parse_suite_result completed;
    drills = drills;
    fail_open = fail_open;
  })

-- How the writing of a file goes: as it should; it raises an OSError when the file is opened, which
-- leaves the file as it is; or it raises one when this many characters are written, the file being
-- emptied when it is opened. A cut inside the bytes of a character is left out.
pub data WriteFault : Type 0 where
  no_fault open_fails : WriteFault
  partial : ℕ → WriteFault

-- The report file, if it is there; whether its removal raises an OSError, and how its writing goes.
pub record Disk : Type 0 where
  pub report : Option String
  pub unlink_fails : Bool
  pub write_fault : WriteFault

-- path.unlink(missing_ok=True), with an OSError passed over
abbrev pub unlink : Disk → Disk
unlink disk = if disk.unlink_fails then disk else record disk { report = none }

-- `write_report`, and the end of `main`: the line that is printed and the exit code, or an OSError
abbrev pub write_then : Disk → String → String → ℕ → Disk × Option (String × ℕ)
write_then disk text line code = elim disk.write_fault [
  | open_fails ↦ (disk, none)
  | partial n ↦ (record disk { report = some (prefix n text) }, none)
  | no_fault ↦ (record disk { report = some text }, some (line, code))
]

abbrev pub gate_line : String → String
gate_line result = append "local_verification_gate status=not-ready result=" result

abbrev pub finish : Python → String → Disk → Result Crash GateReport → Disk × Option (String × ℕ)
finish py now disk (err (phase, cause)) =
    write_then disk (render_crash_report phase cause now)
      (gate_line (append "CRASHED phase=" phase)) 2
finish py now disk (ok report) =
    write_then disk (render_report py report) (gate_line (verdict (local_gate_passed report)))
      (if local_gate_passed report then 0 else 1)

-- `now` is the time of the report; a report of a crash has the time at which it is written.
unfoldable pub main : Python → String → String → Stages → Disk → Disk × Option (String × ℕ)
unfolding build_full_report render_report render_crash_report local_gate_passed
main py now crashed_at stages disk =
    finish py crashed_at (unlink disk) (build_full_report now stages)
