-- ===== src/Vmx/Run.antt =====
-- The loop of `vmx_run`: its rounds as a step relation, and how it ends.
use asor.Base.{
  ℕ, zero, suc, ◌+◌, ◌%◌, ◌^◌, ◌<◌, ◌≡◌, refl, ap, ◌∙◌, ◌≢◌, bit_and, Bool, true, false, Option,
  none, some, ◌==◌, if◌then◌else◌, arith,
}
use asor.Vmx.{
  Vmx, AsorGuest, Processor, exi_reason, vmx_vmexit, vmx_resume, vmx_entry_failure, vmx_vmcall,
  hypercall, vmx_enter_guest, entry_failure, run_round, vmx_run, Outcome, finished, aborted,
}
use asor.Vmx.Hypercall.{answer, answered, exit_handler_run}

-- Rounds that end with a resumption, and their number.
pub data Resumes (processor : Processor) (current : Option AsorGuest) : ℕ → Vmx → Vmx → Type 0 where
  here : (s : Vmx) → Resumes processor current 0 s s
  round :
      (n : ℕ) (s s' t : Vmx)
      → run_round processor current s ≡ (vmx_resume, s')
      → Resumes processor current n s' t
      → Resumes processor current (suc n) s t

-- How the loop ends with what a last round returned.
abbrev pub ends : ℕ → Vmx → Outcome × Vmx
ends ret s =
    if ret == vmx_vmexit then (finished, record s { guest_finished = true }) else (aborted, s)

if_some :
    {A : Type 0} (b : Bool) (x y : A) → (if b then some x else some y) ≡ some (if b then x else y)
if_some true x y = refl
if_some false x y = refl

some_eq : {A : Type 0} (x y : A) → some x ≡ some y → y ≡ x
some_eq x y h = cc

module _ (processor : Processor) (current : Option AsorGuest) where
  -- A loop that resumed `n` rounds and then got another answer than a resumption ends with it,
  -- when the fuel is more than `n`.
  pub vmx_run-ends :
      (fuel n ret : ℕ) (s t t' : Vmx)
      → n < fuel
      → Resumes processor current n s t
      → run_round processor current t ≡ (ret, t')
      → ret ≢ vmx_resume
      → vmx_run fuel processor current s ≡ some (ends ret t')
  unfolding vmx_run
  vmx_run-ends zero n ret s t t' hn r last ne = absurd (omega arith)
  vmx_run-ends (suc fuel) zero ret s _ t' hn (here _) last ne =
      let f : (ret == vmx_resume) ≡ false = ground arith in
      rw (last, f) (if_some (ret == vmx_vmexit) _ _)
  vmx_run-ends (suc fuel) (suc n) ret s t t' hn (round _ _ s' _ step r) last ne =
      rw step (vmx_run-ends fuel n ret s' t t' (omega arith) r last ne)

-- Entering a guest that makes a hypercall: the round's answer is the handler's.
hypercall_round :
    (processor : Processor) (guest : AsorGuest) (num : ℕ) (t g : Vmx)
    → processor t.launched (record t { in_guest = true }) ≡ (none, hypercall num g)
    → g.vmcs exi_reason ≡ vmx_vmcall
    → num % 2 ^ 12 ≡ 1
    → run_round processor (some guest) t
      ≡ (vmx_vmexit, answered num (record g { in_guest = false; launched = true }))
unfolding run_round vmx_enter_guest entry_failure hypercall
hypercall_round processor guest num t g ran reason one =
    let g' = record g { in_guest = false; launched = true } in
    let early : (bit_and (g.vmcs exi_reason) vmx_entry_failure == 0) ≡ true = rw reason in
    rw (ran, early)
      (exit_handler_run guest num g' (rw reason)
        ∙ ap (λ (ret : ℕ). (answer ret, answered num g')) one)

-- When the guest, after any number of resumed exits, returns from its main function and so makes
-- the hypercall 1, `vmx_run` leaves its loop and returns 0 when the fuel is more than that number:
-- the guest is finished and launched, the exit is counted, and no request is left.
pub vmx_run-hypercall :
    (processor : Processor) (guest : AsorGuest) (fuel n num : ℕ) (s t g : Vmx)
    → n < fuel
    → Resumes processor (some guest) n s t
    → processor t.launched (record t { in_guest = true }) ≡ (none, hypercall num g)
    → g.vmcs exi_reason ≡ vmx_vmcall
    → num % 2 ^ 12 ≡ 1
    → (s' : Vmx) × (vmx_run fuel processor (some guest) s ≡ some (finished, s'))
      × (s'.guest_finished ≡ true)
      × (s'.launched ≡ true)
      × (s'.in_guest ≡ false)
      × (s'.hypercall_field ≡ 0)
      × (s'.exits ≡ (g.exits + 1) % 2 ^ 32)
unfolding hypercall
vmx_run-hypercall processor guest fuel n num s t g hn r ran reason one =
    let s' = answered num (record g { in_guest = false; launched = true }) in
    (
      record s' { guest_finished = true },
      vmx_run-ends processor (some guest) fuel n vmx_vmexit s t s' hn r
          (hypercall_round processor guest num t g ran reason one) (ground arith),
      refl,
      refl,
      refl,
      refl,
      refl,
    )
