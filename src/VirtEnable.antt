-- ===== src/VirtEnable.antt =====
-- x86/vmx.c, `x86_virt_enable` and the allocation of `init_vmcs`: the parts of the hypervisor in the
-- order in which they run. Machine holds each variable once; a part works on its own view of it and
-- puts back what it changes. The instructions that switch VMX are parameters, as the processor is.
pub mod Contract
pub mod Prepare
pub mod Enable
pub mod Refuse
mod Tests
use asor.Base.{
  ℕ, ◌%◌, ◌^◌, Bool, true, false, not, Option, none, some, List, [], ◌∷◌, ◌==◌, if◌then◌else◌,
  ◌>>=◌,
}
use asor.Memory.{write_word}
use asor.Vmcs.{Platform, Setup, init_vmcs}
use asor.SetupEpt.{EptState, setup_ept}
use asor.SetupEpt
use asor.InitVmx.{VmxState, is_vmx_supported, new_page, init_vmx}
use asor.Vmx.{Vmx, AsorGuest, Processor, Outcome, finished, aborted, vmx_run}

-- The texts of the errors.
pub data Failure : Type 0 where
  vmx_missing vmxon_failed vmcs_clear_error make_vmcs_current_error vmxoff_failed : Failure

pub record Machine : Type 0 where
  -- the processor, the pages and the capabilities
  pub vmx : VmxState
  -- the fields of the current VMCS, and the variables of the controls
  pub vmcs : ℕ → ℕ
  pub ctrl_pin : ℕ
  pub ctrl_enter : ℕ
  pub ctrl_exit : ℕ
  pub ctrl_cpu_0 : ℕ
  pub ctrl_cpu_1 : ℕ
  pub vpid_cnt : ℕ
  -- the variables of x86/ept.c
  pub eptp : ℕ
  pub pml4 : ℕ
  pub ept_printed : List SetupEpt.Message
  -- the variables of the run
  pub hypercall_field : ℕ
  pub launched : Bool
  pub guest_finished : Bool
  pub in_guest : Bool
  pub rflags : ℕ
  pub current : Option AsorGuest
  -- `guest->exits` and `guest->vmcs`
  pub exits : ℕ
  pub guest_vmcs : ℕ
  -- the newest first
  pub failures : List Failure

-- What the code gets from outside: cpuid(1).c, the size of the memory, the registers and symbols, and
-- whether an instruction fails.
pub record Environment : Type 0 where
  pub cpuid_1_c : ℕ
  pub ram_size : ℕ
  pub platform : Platform
  pub vmx_on : Machine → Bool
  pub vmx_off : Machine → Bool
  pub vmcs_clear : Machine → Bool
  pub make_vmcs_current : Machine → Bool
  pub processor : Processor

-- The views of the parts.
abbrev pub setup_of : Machine → Setup
setup_of m = record {
  vmcs = m.vmcs;
  ctrl_pin = m.ctrl_pin;
  ctrl_enter = m.ctrl_enter;
  ctrl_exit = m.ctrl_exit;
  ctrl_cpu_0 = m.ctrl_cpu_0;
  ctrl_cpu_1 = m.ctrl_cpu_1;
  vpid_cnt = m.vpid_cnt;
  ctrl_pin_rev = m.vmx.ctrl_pin_rev;
  ctrl_enter_rev = m.vmx.ctrl_enter_rev;
  ctrl_exit_rev = m.vmx.ctrl_exit_rev;
  ctrl_cpu_rev_0 = m.vmx.ctrl_cpu_rev_0;
  ctrl_cpu_rev_1 = m.vmx.ctrl_cpu_rev_1;
}

abbrev pub with_setup : Setup → Machine → Machine
with_setup s m = record m {
  vmcs = s.vmcs;
  ctrl_pin = s.ctrl_pin;
  ctrl_enter = s.ctrl_enter;
  ctrl_exit = s.ctrl_exit;
  ctrl_cpu_0 = s.ctrl_cpu_0;
  ctrl_cpu_1 = s.ctrl_cpu_1;
  vpid_cnt = s.vpid_cnt;
}

abbrev pub ept_of : Machine → EptState
ept_of m = record {
  setup = setup_of m;
  pages = m.vmx.pages;
  ept_vpid = m.vmx.ept_vpid;
  eptp = m.eptp;
  pml4 = m.pml4;
  printed = m.ept_printed;
}

abbrev pub with_ept : EptState → Machine → Machine
with_ept e m = record (with_setup e.setup m) {
  vmx = record m.vmx { pages = e.pages };
  eptp = e.eptp;
  pml4 = e.pml4;
  ept_printed = e.printed;
}

abbrev pub run_of : Machine → Vmx
run_of m = record {
  vmcs = m.vmcs;
  hypercall_field = m.hypercall_field;
  launched = m.launched;
  guest_finished = m.guest_finished;
  in_guest = m.in_guest;
  rflags = m.rflags;
  exits = m.exits;
}

abbrev pub with_run : Vmx → Machine → Machine
with_run v m = record m {
  vmcs = v.vmcs;
  hypercall_field = v.hypercall_field;
  launched = v.launched;
  guest_finished = v.guest_finished;
  in_guest = v.in_guest;
  rflags = v.rflags;
  exits = v.exits;
}

-- The registers that `init_vmcs` reads are the machine's.
abbrev pub platform_of : Environment → Machine → Platform
platform_of env m = record env.platform {
  cr0 = m.vmx.cr0;
  cr4 = m.vmx.cr4;
  guest_stack = m.vmx.guest_stack;
  guest_syscall_stack = m.vmx.guest_syscall_stack;
}

-- The page of the VMCS: cleared, with the revision in bits 0 to 30 of its first word.
pub new_vmcs : VmxState → ℕ × VmxState
new_vmcs s =
    let (page, pages) = new_page s.pages in
    (
      page,
      record s {
        pages = record pages { mem = write_word page (s.basic.revision % 2 ^ 31) pages.mem };
      },
    )

-- The whole `init_vmcs`, from its allocation on.
pub init_guest_vmcs : Environment → Machine → ℕ × Machine
init_guest_vmcs env m =
    let (page, vmx) = new_vmcs m.vmx in
    let m1 = record m { vmx = vmx; guest_vmcs = page } in
    let clear_failed = env.vmcs_clear m1 in
    let current_failed = env.make_vmcs_current m1 in
    let failures =
      if clear_failed
      then vmcs_clear_error ∷ m1.failures
      else if current_failed
      then make_vmcs_current_error ∷ m1.failures
      else m1.failures in
    let (ret, s) = init_vmcs clear_failed current_failed (platform_of env m1) (setup_of m1) in
    (ret, record (with_setup s m1) { failures = failures })

-- init_vmcs(&(guest->vmcs)); setup_ept(true); the results are not used. `fuel` is for the loops of
-- `setup_ept`.
pub prepare_guest : ℕ → Environment → Machine → Option Machine
prepare_guest fuel env m = do
  let (ret, m1) = init_guest_vmcs env m
  (ret', e) ← setup_ept fuel env.ram_size true (ept_of m1)
  some (with_ept e m1)

-- How the call ends: it returns a value, or `vmx_run` aborted.
pub data Ending : Type 0 where
  returned : ℕ → Ending
  stopped : Ending

-- What follows `vmx_run`.
pub leave_vmx : Environment → Outcome → Machine → Ending × Machine
leave_vmx env aborted m = (stopped, m)
leave_vmx env finished m =
    if env.vmx_off m
    then (returned 1, record m { failures = vmxoff_failed ∷ m.failures })
    else (returned 0, m)

-- `vmx_run` and what follows.
pub run_and_leave : ℕ → Environment → Machine → Option (Ending × Machine)
run_and_leave fuel env m = do
  (outcome, v) ← vmx_run fuel env.processor m.current (run_of m)
  some (leave_vmx env outcome (with_run v m))

-- From init_vmx on.
pub switch_on : ℕ → ℕ → Environment → Machine → Option (Ending × Machine)
switch_on ept_fuel fuel env m =
    let m1 = record m { vmx = init_vmx m.vmx } in
    if env.vmx_on m1
    then some (returned 1, record m1 { failures = vmxon_failed ∷ m1.failures })
    else (do m2 ← prepare_guest ept_fuel env m1; run_and_leave fuel env m2)

-- `guest` is the first of `asor_guests`.
pub x86_virt_enable : ℕ → ℕ → Environment → AsorGuest → Machine → Option (Ending × Machine)
x86_virt_enable ept_fuel fuel env guest m =
    let (supported, vmx) = is_vmx_supported env.cpuid_1_c m.vmx in
    let m1 = record m { current = some guest; vmx = vmx } in
    if not supported
    then some (returned 1, record m1 { failures = vmx_missing ∷ m1.failures })
    else switch_on ept_fuel fuel env m1
