-- ===== src/Report.antt =====
-- lib/report.c: the counters of test results and the exit code. The prefix is a text that is not
-- changed here, and a message is the text that its format gives. The spin lock is left out.
pub mod Summary
mod Tests
use asor.Base.{
  ℕ, ◌+◌, ◌/◌, ◌%◌, ◌^◌, Bool, true, false, not, ◌&&◌, ◌||◌, List, [], ◌∷◌, ltb, ◌==◌,
  if◌then◌else◌,
}

-- The words in front of a report.
pub data Label : Type 0 where
  skip_label xpass_label xfail_label pass_label fail_label info_label : Label

-- A line, or the parts of the summary.
pub data Line : Type 0 where
  line : Label → List ℕ → List ℕ → Line
  tests_line failures_line xfailures_line skipped_line : ℕ → Line

pub record Report : Type 0 where
  pub tests : ℕ
  pub failures : ℕ
  pub xfailures : ℕ
  pub skipped : ℕ
  pub prefixes : List ℕ
  -- the newest first
  pub printed : List Line

-- x++ of an `unsigned int`
abbrev increment : ℕ → ℕ
increment x = (x + 1) % 2 ^ 32

pub report_pass : Report → Report
report_pass s = record s { tests = increment s.tests }

abbrev label_of : Bool → Bool → Bool → Label
label_of pass xfail skip =
    if skip
    then skip_label
    else if xfail
    then (if pass then xpass_label else xfail_label)
    else if pass
    then pass_label
    else fail_label

-- The counters behind the output.
pub count_result : Bool → Bool → Bool → Report → Report
count_result pass xfail skip s =
    if skip
    then record s { skipped = increment s.skipped }
    else if xfail && not pass
    then record s { xfailures = increment s.xfailures }
    else if xfail || not pass
    then record s { failures = increment s.failures }
    else s

pub va_report : List ℕ → Bool → Bool → Bool → Report → Report
va_report msg pass xfail skip s = count_result pass xfail skip (record s {
  tests = increment s.tests;
  printed = line (label_of pass xfail skip) s.prefixes msg ∷ s.printed;
})

pub report : List ℕ → Bool → Report → Report
report msg pass = va_report msg pass false false

pub report_xfail : List ℕ → Bool → Bool → Report → Report
report_xfail msg xfail pass = va_report msg pass xfail false

pub report_skip : List ℕ → Report → Report
report_skip msg = va_report msg false false true

pub report_info : List ℕ → Report → Report
report_info msg s = record s { printed = line info_label s.prefixes msg ∷ s.printed }

-- if (n) printf(...)
abbrev some_of : (ℕ → Line) → ℕ → List Line → List Line
some_of text n printed = if n == 0 then printed else text n ∷ printed

pub report_summary : Report → ℕ × Report
report_summary s =
    let s1 = record s {
      printed = some_of skipped_line s.skipped (
          some_of xfailures_line s.xfailures
            (some_of failures_line s.failures (tests_line s.tests ∷ s.printed)));
    } in
    if s.tests == s.skipped then (77 / 2, s1) else (if ltb 0 s.failures then 1 else 0, s1)
