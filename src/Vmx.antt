-- ===== src/Vmx.antt =====
-- x86/vmx.c: entering the guest, leaving it, and what the hypervisor does with an exit. The
-- processor and the guest that it runs are a parameter, and so are the guest's handlers, which are
-- function pointers; a `u32` or an `int` is a number below 2^32.
mod Tests
pub mod Hypercall
pub mod Run
use asor.Base.{
  ℕ, zero, suc, ◌+◌, ◌-◌, ◌*◌, ◌/◌, ◌%◌, ◌^◌, ◌≡◌, bit_and, bit_or, Bool, true, false, not, ◌&&◌,
  ◌||◌, Option, none, some, ltb, ◌==◌, if◌then◌else◌,
}

-- What a handler returns (x86/vmx.h).
abbrev pub vmx_vmexit : ℕ
vmx_vmexit = 1

abbrev pub vmx_exit : ℕ
vmx_exit = 2

abbrev pub vmx_resume : ℕ
vmx_resume = 3

abbrev pub vmx_vmabort : ℕ
vmx_vmabort = 4

abbrev pub vmx_vmskip : ℕ
vmx_vmskip = 5

abbrev pub hypercall_bit : ℕ
hypercall_bit = 2 ^ 12

abbrev pub hypercall_mask : ℕ
hypercall_mask = 2 ^ 12 - 1

abbrev pub vmx_vmcall : ℕ
vmx_vmcall = 18

abbrev pub vmx_entry_failure : ℕ
vmx_entry_failure = 2 ^ 31

-- Encodings of fields of the VMCS.
abbrev pub exi_reason : ℕ
exi_reason = 17410

abbrev pub guest_rflags : ℕ
guest_rflags = 26656

-- The variables that the guest's run reads and writes. `exits` is `current->exits`.
pub record Vmx : Type 0 where
  pub vmcs : ℕ → ℕ
  pub hypercall_field : ℕ
  pub launched : Bool
  pub guest_finished : Bool
  pub in_guest : Bool
  pub rflags : ℕ
  pub exits : ℕ

pub record VmentryFailure : Type 0 where
  pub vmlaunch : Bool
  pub early : Bool
  pub flags : ℕ

pub record AsorGuest : Type 0 where
  pub exit_handler : Vmx → ℕ × Vmx
  pub entry_failure_handler : Option (VmentryFailure → Vmx → ℕ × Vmx)

abbrev pub vmcs_read : ℕ → Vmx → ℕ
vmcs_read enc s = s.vmcs enc

abbrev pub vmcs_write : ℕ → ℕ → Vmx → Vmx
vmcs_write enc val s = record s { vmcs = λ e. if e == enc then val else s.vmcs e }

-- The state in which the guest executes vmcall.
pub hypercall : ℕ → Vmx → Vmx
hypercall hypercall_no s = record s {
  hypercall_field = bit_or (bit_and hypercall_no hypercall_mask) hypercall_bit;
}

pub is_hypercall : Vmx → Bool
is_hypercall s =
    let reason = bit_and (vmcs_read exi_reason s) 255 in
    let hyper_bit = bit_and s.hypercall_field hypercall_bit in
    reason == vmx_vmcall && not (hyper_bit == 0)

pub handle_hypercall : Vmx → ℕ × Vmx
handle_hypercall s =
    let hypercall_no = bit_and s.hypercall_field hypercall_mask in
    let s' = record s { hypercall_field = 0 } in
    if hypercall_no == 1
    then (vmx_vmexit, s')
    else if hypercall_no == 2
    then (vmx_vmabort, s')
    else if hypercall_no == 3
    then (vmx_vmskip, s')
    else (vmx_exit, s')

-- The first argument is `current`; none is NULL.
pub exit_handler : Option AsorGuest → Vmx → ℕ × Vmx
exit_handler none s = (2 ^ 32 - 1, s)
exit_handler (some current) s =
    let s1 = record s { exits = (s.exits + 1) % 2 ^ 32; rflags = vmcs_read guest_rflags s } in
    let (ret, s2) = if is_hypercall s1 then handle_hypercall s1 else current.exit_handler s1 in
    (ret, vmcs_write guest_rflags s2.rflags s2)

failure_handler : Option (VmentryFailure → Vmx → ℕ × Vmx) → VmentryFailure → Vmx → ℕ × Vmx
failure_handler none failure s = (vmx_exit, s)
failure_handler (some handler) failure s = handler failure s

pub entry_failure_handler : Option AsorGuest → VmentryFailure → Vmx → ℕ × Vmx
entry_failure_handler none failure s = (2 ^ 32 - 1, s)
entry_failure_handler (some current) failure s =
    failure_handler current.entry_failure_handler failure s

-- What vmlaunch (of a VMCS that is not launched) or vmresume does: the flags, when the instruction
-- returns right away, or none, when the guest ran and the processor jumped to `vmx_return`.
abbrev pub Processor : Type 0
Processor = Bool → Vmx → Option ℕ × Vmx

entry_failure : Bool → Option ℕ → VmentryFailure
entry_failure launched none = record { vmlaunch = not launched; early = false; flags = 0 }
entry_failure launched (some f) = record { vmlaunch = not launched; early = true; flags = f }

pub vmx_enter_guest : Processor → Vmx → Bool × (VmentryFailure × Vmx)
vmx_enter_guest processor s =
    let (flags, s1) = processor s.launched (record s { in_guest = true }) in
    let s2 = record s1 { in_guest = false } in
    let failure = entry_failure s2.launched flags in
    (not failure.early && bit_and (vmcs_read exi_reason s2) vmx_entry_failure == 0, (failure, s2))

-- How `vmx_run` ends: it returns 0, or it prints the exit or the failed entry and aborts.
pub data Outcome : Type 0 where
  finished : Outcome
  aborted : Outcome

-- One round of the loop of `vmx_run` up to the switch: `ret` and the state.
pub run_round : Processor → Option AsorGuest → Vmx → ℕ × Vmx
run_round processor current s =
    let (entered, (failure, s1)) = vmx_enter_guest processor s in
    if entered
    then exit_handler current (record s1 { launched = true })
    else entry_failure_handler current failure s1

-- The loop of `vmx_run`, a round for a unit of fuel.
pub vmx_run : ℕ → Processor → Option AsorGuest → Vmx → Option (Outcome × Vmx)
vmx_run zero processor current s = none
vmx_run (suc fuel) processor current s =
    let (ret, s') = run_round processor current s in
    let rest = vmx_run fuel processor current s' in
    if ret == vmx_resume
    then rest
    else if ret == vmx_vmexit
    then some (finished, record s' { guest_finished = true })
    else some (aborted, s')
