-- ===== src/Report/Summary.antt =====
-- The exit code says what the reports were.
use asor.Base.{
  ℕ, ◌+◌, ◌^◌, ◌≤◌, ◌<◌, ◌≡◌, refl, Bool, Bool-cases, inl, inr, true, false, not, ◌&&◌, ◌||◌, List,
  [], ◌∷◌, length, ltb, ◌==◌, if◌then◌else◌, arith,
}
use asor.Report.{
  Report, report_pass, count_result, va_report, report, report_xfail, report_skip, report_info,
  report_summary,
}

-- A call of the program under test.
pub data Call : Type 0 where
  call_pass : Call
  call_report : List ℕ → Bool → Call
  call_xfail : List ℕ → Bool → Bool → Call
  call_skip call_info : List ℕ → Call

pub run_call : Call → Report → Report
run_call call_pass s = report_pass s
run_call (call_report msg pass) s = report msg pass s
run_call (call_xfail msg xfail pass) s = report_xfail msg xfail pass s
run_call (call_skip msg) s = report_skip msg s
run_call (call_info msg) s = report_info msg s

-- The calls in order.
abbrev pub run_calls : List Call → Report → Report
run_calls [] s = s
run_calls (c ∷ cs) s = run_calls cs (run_call c s)

-- What a call says: whether it is about a test, whether that was skipped, and whether the result is
-- not the expected one.
abbrev pub is_test : Call → Bool
is_test call_pass = true
is_test (call_report msg pass) = true
is_test (call_xfail msg xfail pass) = true
is_test (call_skip msg) = true
is_test (call_info msg) = false

abbrev pub is_skip : Call → Bool
is_skip (call_skip msg) = true
is_skip call_pass = false
is_skip (call_report msg pass) = false
is_skip (call_xfail msg xfail pass) = false
is_skip (call_info msg) = false

abbrev pub is_unexpected : Call → Bool
is_unexpected (call_report msg pass) = not pass
is_unexpected (call_xfail msg xfail pass) = if xfail then pass else not pass
is_unexpected call_pass = false
is_unexpected (call_skip msg) = false
is_unexpected (call_info msg) = false

abbrev pub count : (Call → Bool) → List Call → ℕ
count test [] = 0
count test (c ∷ cs) = (if test c then 1 else 0) + count test cs

abbrev any : (Call → Bool) → List Call → Bool
any test [] = false
any test (c ∷ cs) = test c || any test cs

abbrev pub all_skipped : List Call → Bool
all_skipped [] = true
all_skipped (c ∷ cs) = (not (is_test c) || is_skip c) && all_skipped cs

-- What the counters say, of fewer than 2^32 calls.
pub record Counts (s : Report) (t k f : ℕ) : Type 0 where
  pub tests : s.tests ≡ t
  pub skipped : s.skipped ≡ k
  pub failures : s.failures ≡ f

step-Counts :
    (c : Call) (s : Report) (t k f : ℕ)
    → Counts s t k f
    → t + 1 < 2 ^ 32
    → k ≤ t
    → f ≤ t
    → Counts
        (run_call c s)
        (t + (if is_test c then 1 else 0))
        (k + (if is_skip c then 1 else 0))
        (f + (if is_unexpected c then 1 else 0))
unfolding run_call report_pass report report_xfail report_skip report_info va_report count_result
step-Counts call_pass s t k f h lt le le' = record {
  tests = omega (arith, h.tests);
  skipped = omega (arith, h.skipped);
  failures = omega (arith, h.failures);
}
step-Counts (call_report msg true) s t k f h lt le le' = record {
  tests = omega (arith, h.tests);
  skipped = omega (arith, h.skipped);
  failures = omega (arith, h.failures);
}
step-Counts (call_report msg false) s t k f h lt le le' = record {
  tests = omega (arith, h.tests);
  skipped = omega (arith, h.skipped);
  failures = omega (arith, h.failures);
}
step-Counts (call_xfail msg true true) s t k f h lt le le' = record {
  tests = omega (arith, h.tests);
  skipped = omega (arith, h.skipped);
  failures = omega (arith, h.failures);
}
step-Counts (call_xfail msg true false) s t k f h lt le le' = record {
  tests = omega (arith, h.tests);
  skipped = omega (arith, h.skipped);
  failures = omega (arith, h.failures);
}
step-Counts (call_xfail msg false true) s t k f h lt le le' = record {
  tests = omega (arith, h.tests);
  skipped = omega (arith, h.skipped);
  failures = omega (arith, h.failures);
}
step-Counts (call_xfail msg false false) s t k f h lt le le' = record {
  tests = omega (arith, h.tests);
  skipped = omega (arith, h.skipped);
  failures = omega (arith, h.failures);
}
step-Counts (call_skip msg) s t k f h lt le le' = record {
  tests = omega (arith, h.tests);
  skipped = omega (arith, h.skipped);
  failures = omega (arith, h.failures);
}
step-Counts (call_info msg) s t k f h lt le le' = record {
  tests = omega (arith, h.tests);
  skipped = omega (arith, h.skipped);
  failures = omega (arith, h.failures);
}

bits :
    (c : Call)
    → ((if is_skip c then 1 else 0) ≤ (if is_test c then 1 else 0))
      × ((if is_unexpected c then 1 else 0) ≤ (if is_test c then 1 else 0))
      × ((if is_test c then 1 else 0) ≤ 1)
bits call_pass = (omega arith, omega arith, omega arith)
bits (call_report msg pass) = (omega arith, ground arith, omega arith)
bits (call_xfail msg xfail pass) = (omega arith, ground arith, omega arith)
bits (call_skip msg) = (omega arith, omega arith, omega arith)
bits (call_info msg) = (omega arith, omega arith, omega arith)

run-Counts :
    (cs : List Call) (s : Report) (t k f : ℕ)
    → Counts s t k f
    → k ≤ t
    → f ≤ t
    → t + length cs < 2 ^ 32
    → Counts
        (run_calls cs s)
        (t + count is_test cs)
        (k + count is_skip cs)
        (f + count is_unexpected cs)
run-Counts [] s t k f h le le' lt = record {
  tests = omega (arith, h.tests);
  skipped = omega (arith, h.skipped);
  failures = omega (arith, h.failures);
}
run-Counts (c ∷ cs) s t k f h le le' lt =
    let (b1, b2, b3) = bits c in
    let r =
      run-Counts cs (run_call c s) (t + (if is_test c then 1 else 0))
        (k + (if is_skip c then 1 else 0)) (f + (if is_unexpected c then 1 else 0))
        (step-Counts c s t k f h (omega arith) le le') (omega arith) (omega arith) (omega arith) in
    record {
      tests = omega (arith, r.tests);
      skipped = omega (arith, r.skipped);
      failures = omega (arith, r.failures);
    }

skips : (cs : List Call) → count is_skip cs ≤ count is_test cs
skips [] = omega arith
skips (c ∷ cs) = let (b1, b2, b3) = bits c in omega (arith, skips cs)

all_skips : (cs : List Call) → (count is_test cs == count is_skip cs) ≡ all_skipped cs
all_skips [] = refl
all_skips (call_pass ∷ cs) = let h = skips cs in ground arith
all_skips (call_report msg pass ∷ cs) = let h = skips cs in ground arith
all_skips (call_xfail msg xfail pass ∷ cs) = let h = skips cs in ground arith
all_skips (call_skip msg ∷ cs) = let h = all_skips cs in ground arith
all_skips (call_info msg ∷ cs) = let h = all_skips cs in ground arith

any_count : (test : Call → Bool) (cs : List Call) → ltb 0 (count test cs) ≡ any test cs
any_count test [] = refl
any_count test (c ∷ cs) =
    let h = any_count test cs in
    elim (Bool-cases (test c)) [
      | inl yes_c ↦ rw yes_c (ground arith)
      | inr no_c ↦ rw no_c (ground arith)
    ]

-- After fewer than 2^32 calls of the report functions, with all counters zero before, the exit code of
-- `report_summary` is 38 when every test was skipped, also when there was none; otherwise it is 1
-- when the result of some test was not the expected one, and 0 else.
pub report_summary_lem :
    (cs : List Call) (s : Report)
    → Counts s 0 0 0
    → length cs < 2 ^ 32
    → (report_summary (run_calls cs s)).0
      ≡ (if all_skipped cs then 38 else if any is_unexpected cs then 1 else 0)
unfolding report_summary
report_summary_lem cs s h lt =
    let r = run-Counts cs s 0 0 0 h (omega arith) (omega arith) (omega arith) in
    let e = all_skips cs in
    let e' = any_count is_unexpected cs in
    summary_value (run_calls cs s).tests (run_calls cs s).skipped (run_calls cs s).failures
      (count is_test cs) (count is_skip cs) (count is_unexpected cs) _ _ _ (omega (arith, r.tests))
      (omega (arith, r.skipped)) (omega (arith, r.failures)) e e'
  where
    summary_value :
        (t k f t' k' f' : ℕ) (a b : Bool) (s1 : Report)
        → t ≡ t'
        → k ≡ k'
        → f ≡ f'
        → (t' == k') ≡ a
        → ltb 0 f' ≡ b
        → (if◌then◌else◌ {A = ℕ × Report} (t == k) (38, s1) (if ltb 0 f then 1 else 0, s1)).0
          ≡ (if a then 38 else if b then 1 else 0)
    summary_value t k f t' k' f' a b s1 et ek ef ha hb = elim (Bool-cases (t == k)) [
      | inl same ↦ rw same (ground arith)
      | inr off ↦ rw off (ground arith)
    ]
