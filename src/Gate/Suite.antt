-- ===== src/Gate/Suite.antt =====
-- gate.py: the results, and `_parse_suite_result`.
use runner_observability.Base.{
  ℕ, String, Bool, false, ◌&&◌, Option, none, some, List, [], ◌∷◌, ℤ, pos, negsuc, leb, nat_eq, all,
  string_eq, ◌==◌, if◌then◌else◌,
}

pub record DrillResult : Type 0 where
  pub capability : String
  pub passed : Bool
  pub reasons : List String

pub record SuiteResult : Type 0 where
  pub passed : Bool
  pub tests_run : ℤ
  pub failures : ℕ
  pub errors : ℕ

-- The status and the limitations of a report are fixed.
pub record GateReport : Type 0 where
  pub generated_at : String
  pub suite : SuiteResult
  pub drills : List DrillResult
  pub fail_open : DrillResult

-- A finished test run: whether its return code is 0, the number that the search for the pattern of
-- "Ran … tests in" finds in its output, and the keys and numbers that the search in the text after
-- "FAILED" finds, which are empty where there is none.
pub record Completed : Type 0 where
  pub returned_zero : Bool
  pub ran : Option ℕ
  pub failed_counts : List (String × ℕ)

abbrev pub min_expected_tests_run : ℕ
min_expected_tests_run = 100

-- the loop over the counts: the last of each key
abbrev last_count : String → ℕ → List (String × ℕ) → ℕ
last_count key n [] = n
last_count key n ((k, v) ∷ rest) = last_count key (if k == key then v else n) rest

abbrev tests_run : Option ℕ → ℤ
tests_run none = negsuc 0
tests_run (some n) = pos n

abbrev pub enough_tests : ℤ → Bool
enough_tests (pos n) = leb min_expected_tests_run n
enough_tests (negsuc _) = false

unfoldable pub parse_suite_result : Completed → SuiteResult
parse_suite_result completed =
    let failures = last_count "failures" 0 completed.failed_counts in
    let errors = last_count "errors" 0 completed.failed_counts in
    record {
      passed =
          completed.returned_zero
          && enough_tests (tests_run completed.ran)
          && nat_eq failures 0
          && nat_eq errors 0;
      tests_run = tests_run completed.ran;
      failures = failures;
      errors = errors;
    }

unfoldable pub local_gate_passed : GateReport → Bool
local_gate_passed report =
    report.suite.passed
    && all (λ (drill : DrillResult). drill.passed) report.drills
    && report.fail_open.passed
