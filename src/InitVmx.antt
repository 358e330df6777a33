-- ===== src/InitVmx.antt =====
-- x86/vmx.c, `is_vmx_supported` and `init_vmx`: what the processor can do, its control registers, the
-- VMXON region and the stacks of the guest. VmxState is the processor's registers, the pages and the
-- variables of the file; the model-specific registers are a function from their number.
pub mod Registers
pub mod Support
mod Tests
use asor.Base.{
  ℕ, ◌+◌, ◌/◌, ◌%◌, ◌^◌, Bool, true, false, not, List, [], ◌∷◌, ◌==◌, if◌then◌else◌, bit_and,
  bit_or,
}
use asor.Memory.{Memory, zero_page, write_word}
use asor.PageAlloc.{Pages, alloc_page}
use asor.Vmcs.{VmxCtrlMsr}
use asor.SetupEpt.{cpu_secondary, cpu_ept}

-- The texts that are printed.
pub data Message : Type 0 where
  not_supported enabled_by_bios locked_out : Message

-- `vmx_basic`, without the fields that are not read.
pub record VmxBasic : Type 0 where
  pub revision : ℕ
  pub ctrl : Bool

pub record VmxState : Type 0 where
  pub msr : ℕ → ℕ
  pub cr0 : ℕ
  pub cr4 : ℕ
  pub pages : Pages
  pub vmxon_region : ℕ
  pub guest_stack : ℕ
  pub guest_syscall_stack : ℕ
  pub basic : VmxBasic
  pub ctrl_pin_rev : VmxCtrlMsr
  pub ctrl_exit_rev : VmxCtrlMsr
  pub ctrl_enter_rev : VmxCtrlMsr
  pub ctrl_cpu_rev_0 : VmxCtrlMsr
  pub ctrl_cpu_rev_1 : VmxCtrlMsr
  pub ept_vpid : ℕ
  -- the newest first
  pub printed : List Message

abbrev pub feature_control : ℕ
feature_control = 0x3a

abbrev pub cr4_vmxe : ℕ
cr4_vmxe = 2 ^ 13

abbrev pub cpu_vpid : ℕ
cpu_vpid = 2 ^ 5

-- `cpuid_1_c` is cpuid(1).c. The results are the returned value and the state.
unfoldable pub is_vmx_supported : ℕ → VmxState → Bool × VmxState
is_vmx_supported cpuid_1_c s =
    let ia32_feature_control = s.msr feature_control in
    if bit_and cpuid_1_c (2 ^ 5) == 0
    then (false, record s { printed = not_supported ∷ s.printed })
    else if bit_and ia32_feature_control 0x5 == 0x5
    then (true, record s { printed = enabled_by_bios ∷ s.printed })
    else if not (bit_and ia32_feature_control 0x1 == 0)
    then (false, record s { printed = locked_out ∷ s.printed })
    else (true, record s { msr = write_word feature_control 0x5 s.msr })

-- alloc_page and memset to 0
pub new_page : Pages → ℕ × Pages
new_page s = let (page, s1) = alloc_page s in (page, record s1 { mem = zero_page page s1.mem })

-- A capability register: `set` is its low half, and `clr` its high half.
abbrev pub ctrl_msr : ℕ → VmxCtrlMsr
ctrl_msr val = record { set = val % 2 ^ 32; clr = val / 2 ^ 32 }

abbrev pub basic_of : ℕ → VmxBasic
basic_of val = record { revision = val % 2 ^ 32; ctrl = not (bit_and val (2 ^ 55) == 0) }

-- The reads of the capability registers.
unfoldable pub read_capabilities : VmxState → VmxState
read_capabilities s =
    let basic = basic_of (s.msr 0x480) in
    let cpu0 = ctrl_msr (s.msr (if basic.ctrl then 0x48e else 0x482)) in
    let cpu1 =
      if not (bit_and cpu0.clr cpu_secondary == 0) then ctrl_msr (s.msr 0x48b) else ctrl_msr 0 in
    record s {
      basic = basic;
      ctrl_pin_rev = ctrl_msr (s.msr (if basic.ctrl then 0x48d else 0x481));
      ctrl_exit_rev = ctrl_msr (s.msr (if basic.ctrl then 0x48f else 0x483));
      ctrl_enter_rev = ctrl_msr (s.msr (if basic.ctrl then 0x490 else 0x484));
      ctrl_cpu_rev_0 = cpu0;
      ctrl_cpu_rev_1 = cpu1;
      ept_vpid = if not (bit_and cpu1.clr (bit_or cpu_ept cpu_vpid) == 0) then s.msr 0x48c else 0;
    }

unfoldable pub init_vmx : VmxState → VmxState
init_vmx s =
    let (region, pages1) = new_page s.pages in
    let fix_cr0_set = s.msr 0x486 in
    let fix_cr0_clr = s.msr 0x487 in
    let fix_cr4_set = s.msr 0x488 in
    let fix_cr4_clr = s.msr 0x489 in
    let s1 = read_capabilities (record s { vmxon_region = region; pages = pages1 }) in
    let s2 = record s1 {
      cr0 = bit_or (bit_and s1.cr0 fix_cr0_clr) fix_cr0_set;
      cr4 = bit_or (bit_or (bit_and s1.cr4 fix_cr4_clr) fix_cr4_set) cr4_vmxe;
      pages = record s1.pages { mem = write_word region s1.basic.revision s1.pages.mem };
    } in
    let (stack, pages2) = new_page s2.pages in
    let (syscall_stack, pages3) = new_page pages2 in
    record s2 { guest_stack = stack; guest_syscall_stack = syscall_stack; pages = pages3 }
