-- ===== src/Report/Tests.antt =====
-- Runs of lib/report.c.
use asor.Base.{◌≡◌, refl, true, false, [], ◌∷◌, arith}
use asor.Report.{Report, report_summary}
use asor.Report.Summary.{
  call_pass, call_report, call_xfail, call_skip, run_calls, report_summary_lem,
}

abbrev start : Report
start = record { tests = 0; failures = 0; xfailures = 0; skipped = 0; prefixes = []; printed = [] }

report_summary_example :
    (report_summary (
      run_calls
        (call_skip [] ∷ call_pass ∷ call_xfail [] true false ∷ call_report [] false ∷ [])
        start)).0
    ≡ 1
report_summary_example =
    report_summary_lem
      (call_skip [] ∷ call_pass ∷ call_xfail [] true false ∷ call_report [] false ∷ []) start
      (record { tests = refl; skipped = refl; failures = refl }) (omega arith)
