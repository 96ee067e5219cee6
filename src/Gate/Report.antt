-- ===== src/Gate/Report.antt =====
-- gate.py: `render_report` and `render_crash_report`.
use runner_observability.Base.{
  ◌+◌, String, Bool, true, false, List, [], ◌∷◌, ◌++◌, ℤ, pos, negsuc, map,
}
use Prim.Native.String.{◌++◌ as append}
use runner_observability.Python.{Python}
use runner_observability.Gate.Suite.{DrillResult, GateReport, local_gate_passed}

-- separator.join(texts)
abbrev pub join : String → List String → String
join separator [] = ""
join separator (text ∷ []) = text
join separator (text ∷ next ∷ rest) = append text (append separator (join separator (next ∷ rest)))

abbrev pub verdict : Bool → String
verdict true = "PASS"
verdict false = "FAIL"

abbrev reason_suffix : List String → String
reason_suffix [] = ""
reason_suffix reasons = append " (" (append (join ", " reasons) ")")

unfoldable pub drill_line : DrillResult → String
drill_line drill = append "- " (
    append drill.capability
      (append ": " (append (verdict drill.passed) (reason_suffix drill.reasons))))

abbrev automated_gate_capability_areas : List String
automated_gate_capability_areas =
    "schema_v1_validation" ∷ "event_store_projection_and_replay" ∷ "ten_minute_offline_liveness"
    ∷ "retention_and_history_filtering" ∷ "notification_dedupe_and_incident_lifecycle"
    ∷ "http_ingest_and_dashboard_boundary" ∷ "actions_run_url_passthrough"
    ∷ "pr_check_and_rebuild_stage_fallback_projection" ∷ "fail_open_agent_delivery_and_cli_contract"
    ∷ []

abbrev default_limitations : List String
default_limitations =
    "no_monitor_host_deployment_evidence" ∷ "no_runner_a_or_runner_b_deployment_evidence"
    ∷ "no_tls_auth_firewall_evidence" ∷ "no_real_github_actions_workflow_acceptance"
    ∷ "not_a_production_ready_decision" ∷ []

-- str(n)
abbrev show_integer : Python → ℤ → String
show_integer py (pos n) = py.show_int n
show_integer py (negsuc n) = append "-" (py.show_int (n + 1))

abbrev report_head : Python → GateReport → List String
report_head py report =
    "# Local Verification Gate report (issue #5)"
    ∷ ""
    ∷ append "Generated at (monitor-owned, UTC): " report.generated_at
    ∷ "Status: not-ready"
    ∷ ""
    ∷ "This report is produced entirely by runner-independent local tests and"
    ∷ "isolated fault drills against throwaway SQLite databases. It contains no"
    ∷ "physical-runner, TLS/auth/firewall, or real-workflow evidence, and it is"
    ∷ "not a production-ready decision. That decision belongs solely to issue #6"
    ∷ "(HITL acceptance) -- see docs/canary-evidence-template.md."
    ∷ ""
    ∷ "## Automated gate (full local suite)"
    ∷ append "- result: " (verdict report.suite.passed)
    ∷ append "- tests_run: " (show_integer py report.suite.tests_run)
    ∷ append "- failures: " (py.show_int report.suite.failures)
    ∷ append "- errors: " (py.show_int report.suite.errors)
    ∷ "- capability areas exercised:"
    ∷ []

abbrev report_foot : GateReport → List String
report_foot report =
    ""
    ∷ "## HITL handoff"
    ∷ "Real-hardware, TLS/auth/firewall, and real-workflow acceptance evidence"
    ∷ "is owned exclusively by issue #6 (HITL). This report is not sufficient"
    ∷ "for, and does not attempt, a production-ready decision."
    ∷ ""
    ∷ "## Next operator action"
    ∷ "Open issue #6 and run its HITL deployment/acceptance checklist against"
    ∷ "Monitor Host, Runner A, and Runner B using docs/canary-evidence-template.md."
    ∷ ""
    ∷ append "Overall local gate result: "
        (append (verdict (local_gate_passed report)) " (status remains `not-ready`)")
    ∷ []

unfoldable pub render_report : Python → GateReport → String
unfolding drill_line local_gate_passed
render_report py report =
    append
      (join "\n" (
        report_head py report
        ++ map (append "  - ") automated_gate_capability_areas
        ++ ("" ∷ "## Isolated fault drills" ∷ [])
        ++ map drill_line report.drills
        ++ (""
            ∷ "## Fail-open contract"
            ∷ drill_line report.fail_open
            ∷ ""
            ∷ "## Known limitations"
            ∷ [])
        ++ map (append "- ") default_limitations
        ++ report_foot report))
      "\n"

abbrev crash_lines : String → String → String → List String
crash_lines phase cause_type generated_at =
    "# Local Verification Gate report (issue #5)"
    ∷ ""
    ∷ append "Generated at (monitor-owned, UTC): " generated_at
    ∷ "Status: not-ready"
    ∷ ""
    ∷ "## Gate run CRASHED -- no pass/fail evidence was produced"
    ∷ append "- phase: " phase
    ∷ append "- error_type: " cause_type
    ∷ ""
    ∷ "This run did not complete. Any report that existed before this run"
    ∷ "started has been removed; do not treat a prior run's report as"
    ∷ "evidence for this run. Diagnose the crash and re-run the gate."
    ∷ ""
    ∷ "This crash report is not a production-ready decision either way --"
    ∷ "see issue #6 (HITL) for that decision."
    ∷ []

unfoldable pub render_crash_report : String → String → String → String
render_crash_report phase cause_type generated_at =
    append (join "\n" (crash_lines phase cause_type generated_at)) "\n"
