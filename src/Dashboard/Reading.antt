-- ===== src/Dashboard/Reading.antt =====
-- dashboard.py: how the fields of a payload are read and shown.
use runner_observability.Base.{
  ℕ, suc, ◌+◌, ◌-◌, String, Option, none, some, List, [], ◌∷◌, ◌++◌, ℤ, pos, negsuc, Result, ok,
  err, ◌>>=◌, string_eq, ◌==◌, contains, if◌then◌else◌, prefix,
}
use Prim.Native.String.{◌++◌ as append}
use runner_observability.Base.Table.{Table, select}
use runner_observability.Value.{
  Value, Fields, field, end, str, dict, proxy, list, int, null, as_mapping, get,
}
use runner_observability.Python.{
  Python, Moment, Exception, value_error, type_error, key_error, attribute_error,
}
use runner_observability.Store.Time.{ReceivedAt, moment, text, other}
use runner_observability.Store.History.{HistoryItem}

-- The parts of the standard library besides `Python`: `str(value)`, and a time in the zone of the
-- dashboard as the text that is shown.
pub record Display : Type 0 where
  pub show : Value → String
  pub local_time : Moment → String

-- mapping[key]
unfoldable pub lookup : Fields → String → Result Exception Value
lookup end key = err key_error
lookup (field k v rest) key = let below = lookup rest key in if k == key then ok v else below

-- value[key], with a text as the key
abbrev pub subscript : Value → String → Result Exception Value
subscript value key = elim (as_mapping value) [ none ↦ err type_error | some f ↦ lookup f key ]

-- A number of a payload. The validation of events admits integers only; of other numbers the model
-- says nothing more than that they are none.
abbrev pub integer : Value → Result Exception ℤ
integer (int n) = ok n
integer _ = err type_error

-- max(0, total - pending)
abbrev pub processed : ℤ → ℤ → ℕ
processed (pos total) (pos pending) = total - pending
processed (pos total) (negsuc pending) = total + suc pending
processed (negsuc total) (pos pending) = 0
processed (negsuc total) (negsuc pending) = pending - total

abbrev pub pr_check_phase_ids : List String
pr_check_phase_ids =
    "lint_check" ∷ "selective_test" ∷ "parallel_4_group" ∷ "sequential_group_rerun"
    ∷ "parallel_4_tests_rerun" ∷ "sequential_tests_rerun" ∷ "merge_coverage" ∷ []

abbrev pub rebuild_phase_ids : List String
rebuild_phase_ids = "rebuild_test_mapping" ∷ "unsafe_group_detect" ∷ []

abbrev pub approved_stage_ids : List String
approved_stage_ids = pr_check_phase_ids ++ rebuild_phase_ids

abbrev pub unrecognised_stage_id : String
unrecognised_stage_id = "unrecognised_stage"

-- `_display_stage_id`. A mapping or a list cannot be looked up in a set.
unfoldable pub display_stage_id : Value → Result Exception String
display_stage_id (str s) = ok (if contains s approved_stage_ids then s else unrecognised_stage_id)
display_stage_id (dict _) = err type_error
display_stage_id (proxy _) = err type_error
display_stage_id (list _) = err type_error
display_stage_id _ = ok unrecognised_stage_id

abbrev phase_unit_labels : Table String String
phase_unit_labels =
    ("lint_check", "files")
    ∷ ("selective_test", "groups")
    ∷ ("parallel_4_group", "groups")
    ∷ ("sequential_group_rerun", "groups")
    ∷ ("parallel_4_tests_rerun", "tests")
    ∷ ("sequential_tests_rerun", "tests")
    ∷ ("merge_coverage", "reports")
    ∷ ("rebuild_test_mapping", "tests")
    ∷ ("unsafe_group_detect", "folders")
    ∷ []

unfoldable pub unit_label : String → String
unit_label stage_id = elim (select stage_id phase_unit_labels) [ none ↦ "units" | some u ↦ u ]

abbrev pub category : String → String
category stage_id =
    if contains stage_id pr_check_phase_ids
    then "pr_check_phase"
    else if contains stage_id rebuild_phase_ids
    then "rebuild_phase"
    else "generic"

unfoldable pub runner_alias : String → String
runner_alias runner_id = append "runner-" (prefix 8 runner_id)

-- `_job_field`
unfoldable pub job_field : HistoryItem → Option Fields
job_field item = elim (as_mapping item.payload) [
  | none ↦ none
  | some payload ↦ as_mapping (get payload "job")
]

-- `_job_field_value`, with `null` for None
unfoldable pub job_field_value : HistoryItem → String → Value
unfolding job_field
job_field_value item key = elim (job_field item) [ none ↦ null | some job ↦ get job key ]

module _ (py : Python) (display : Display) where
  -- `_display_time` of a text, of a text or None, and of a `datetime` or a text
  unfoldable pub display_time : String → Result Exception String
  display_time s = elim (py.fromisoformat s) [
    | none ↦ err value_error
    | some m ↦ ok (display.local_time m)
  ]

  unfoldable pub display_optional_time : Option String → Result Exception (Option String)
  unfolding display_time
  display_optional_time none = ok none
  display_optional_time (some s) = do shown ← display_time s; ok (some shown)

  unfoldable pub display_now : ReceivedAt → Result Exception String
  unfolding display_time
  display_now (moment m) = ok (display.local_time m)
  display_now (text s) = display_time s
  display_now other = err attribute_error
