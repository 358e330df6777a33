-- ===== src/VirtEnable/Tests.antt =====
-- Runs of `x86_virt_enable`.
use asor.Base.{
  ℕ, ◌+◌, ◌*◌, ◌%◌, ◌^◌, ◌||◌, true, false, not, none, [], ◌==◌, if◌then◌else◌, bit_and,
}
use asor.Memory.{page_size}
use asor.Vmcs.{Platform, VmxCtrlMsr}
use asor.SetupEpt.Line.{linked}
use asor.InitVmx.{VmxState, cr4_vmxe}
use asor.Vmx.{Vmx, AsorGuest, Processor, hypercall, exi_reason, vmx_resume}
use asor.VirtEnable.{Machine, Environment}

-- Pin-based controls 1, 2 and 4 must be set; others may be set.
abbrev msrs : ℕ → ℕ
msrs a =
    if a == 0x486
    then 0x80000021
    else if a == 0x487 || a == 0x489
    then 0xffffffff
    else if a == 0x488
    then 0x2000
    else if a == 0x480
    then 0x12
    else if a == 0x481
    then 0xffffffff00000016
    else if a == 0x482 || a == 0x483 || a == 0x484 || a == 0x48b
    then 0xffffffff00000000
    else if a == 0x48c
    then 2 ^ 6 + 2 ^ 14
    else 0

abbrev unread : VmxCtrlMsr
unread = record { set = 0; clr = 0 }

-- 4 GB of memory need three pages for each 2 MB, nine, and the five of the rest.
abbrev last : ℕ
last = 4096 + (4 + 3 * 2051) * page_size

abbrev cold : VmxState
cold = record {
  msr = msrs;
  cr0 = 0x11;
  cr4 = 0x20;
  pages = record { mem = linked last; freelist = 4096 };
  vmxon_region = 0;
  guest_stack = 0;
  guest_syscall_stack = 0;
  basic = record { revision = 0; ctrl = true };
  ctrl_pin_rev = unread;
  ctrl_exit_rev = unread;
  ctrl_enter_rev = unread;
  ctrl_cpu_rev_0 = unread;
  ctrl_cpu_rev_1 = unread;
  ept_vpid = 0;
  printed = [];
}

abbrev start : Machine
start = record {
  vmx = cold;
  vmcs = λ e. 0;
  ctrl_pin = 0;
  ctrl_enter = 0;
  ctrl_exit = 0;
  ctrl_cpu_0 = 0;
  ctrl_cpu_1 = 0;
  vpid_cnt = 0;
  eptp = 0;
  pml4 = 0;
  ept_printed = [];
  hypercall_field = 0;
  launched = false;
  guest_finished = false;
  in_guest = false;
  rflags = 0;
  current = none;
  exits = 0;
  guest_vmcs = 0;
  failures = [];
}

abbrev platform : Platform
platform = record {
  cr0 = 0;
  cr3 = 0x1000;
  cr4 = 0;
  efer = 0x500;
  entry_sysenter = 0x401000;
  vmx_return = 0x402000;
  guest_entry = 0x403000;
  tss_base = 0x404000;
  tss_limit = 0x67;
  gdt_base = 0x405000;
  gdt_limit = 0xff;
  idt_base = 0x406000;
  idt_limit = 0xfff;
  guest_stack = 0;
  guest_syscall_stack = 0;
}

-- What a guest leaves that makes a vmcall.
abbrev after_guest : Vmx → Vmx
after_guest v = record v { in_guest = true; vmcs = λ e. if e == exi_reason then 18 else v.vmcs e }

abbrev processor : Processor
processor launched v = (none, hypercall 1 (after_guest v))

-- vmxon fails without VMX in CR4, and the VMCS instructions on a region that is not aligned.
abbrev env : Environment
env = record {
  cpuid_1_c = 2 ^ 5;
  ram_size = 2 ^ 27;
  platform = platform;
  vmx_on = λ m. bit_and m.vmx.cr4 cr4_vmxe == 0;
  vmx_off = λ m. false;
  vmcs_clear = λ m. not (m.guest_vmcs % 2 ^ 12 == 0);
  make_vmcs_current = λ m. not (m.guest_vmcs % 2 ^ 12 == 0);
  processor = processor;
}

abbrev guest : AsorGuest
guest = record { exit_handler = λ s. (vmx_resume, s); entry_failure_handler = none }

-- A machine without secondary controls.
abbrev old : Machine
old = record start { vmx = record cold { msr = λ a. if a == 0x48b then 0 else msrs a } }
