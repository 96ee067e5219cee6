-- ===== src/Server/Query.antt =====
-- server.py: `_history_filters` and `_history_page_number`, on a query that `parse_qs` has read.
use runner_observability.Base.{
  ℕ, zero, suc, String, none, some, List, [], ◌∷◌, ℤ, pos, negsuc, Result, ok, err, ◌>>=◌,
  string_eq, ◌==◌, if◌then◌else◌,
}
use runner_observability.Base.Table.{Table, select}
use runner_observability.Python.{Python, Exception, value_error}
use runner_observability.Store.Time.{ReceivedAt}
use runner_observability.Store.History.{Filter}

-- the only value of a key
abbrev single : List String → Result Exception String
single (value ∷ []) = ok value
single _ = err value_error

abbrev read_integer : Python → String → Result Exception ℤ
read_integer py text = elim (py.read_int text) [ none ↦ err value_error | some n ↦ ok n ]

abbrev history_filter : Python → String → String → Result Exception Filter
history_filter py key value =
    if key == "runner_id"
    then ok (Filter.runner_id value)
    else if key == "repository"
    then ok (Filter.repository value)
    else if key == "workflow_run_id"
    then (read_integer py value >>= λ n. ok (Filter.workflow_run_id n))
    else if key == "outcome"
    then ok (Filter.outcome value)
    else if key == "received_after"
    then ok (Filter.received_after (ReceivedAt.text value))
    else if key == "received_before"
    then ok (Filter.received_before (ReceivedAt.text value))
    else err value_error

-- `_history_filters`: each error is the same.
unfoldable pub history_filters :
    Python → Table String (List String) → Result Exception (List Filter)
history_filters py [] = ok []
history_filters py ((key, values) ∷ query) =
    let rest = history_filters py query in
    if key == "page" then rest else (do
      value ← single values
      filter ← history_filter py key value
      filters ← rest
      ok (filter ∷ filters))

abbrev page_of : ℤ → Result Exception ℕ
page_of (pos (suc n)) = ok (suc n)
page_of (pos zero) = err value_error
page_of (negsuc n) = err value_error

-- `_history_page_number`
unfoldable pub history_page_number : Python → Table String (List String) → Result Exception ℕ
history_page_number py query = do
  text ← single (elim (select "page" query) [ none ↦ "1" ∷ [] | some values ↦ values ])
  page ← read_integer py text
  page_of page
