-- ===== src/Vmcs/Tests.antt =====
-- Runs of the setting up of the VMCS.
use asor.Base.{◌^◌, ◌≡◌, refl, ◌⊎◌, bit_and, false}
use asor.Vmcs.{Setup, Platform, VmxCtrlMsr, init_vmcs}
use asor.Vmcs.Encoding.{pin_controls, ent_controls, exi_controls, cpu_exec_ctrl0, cpu_exec_ctrl1}
use asor.Vmcs.Controls.{Accepted, init_vmcs_lem}

abbrev platform : Platform
platform = record {
  cr0 = 0x80000011;
  cr3 = 0x1000;
  cr4 = 0x2020;
  efer = 0x500;
  entry_sysenter = 0x401000;
  vmx_return = 0x402000;
  guest_entry = 0x403000;
  tss_base = 0x404000;
  tss_limit = 0x67;
  gdt_base = 0x405000;
  gdt_limit = 0xff;
  idt_base = 0x406000;
  idt_limit = 0xfff;
  guest_stack = 0x407000;
  guest_syscall_stack = 0x408000;
}

-- Bits 1, 2 and 4 must be set, and all but bit 31 may be set.
abbrev register : VmxCtrlMsr
register = record { set = 0x16; clr = 0x7fffffff }

-- The same with the secondary controls among the demanded ones.
abbrev primary : VmxCtrlMsr
primary = record { set = 0x80000016; clr = 0xffffffff }

abbrev before : Setup
before = record {
  vmcs = λ e. 0;
  ctrl_pin = 0xff;
  ctrl_enter = 1;
  ctrl_exit = 2;
  ctrl_cpu_0 = 0x3000000;
  ctrl_cpu_1 = 3;
  vpid_cnt = 0;
  ctrl_pin_rev = register;
  ctrl_enter_rev = register;
  ctrl_exit_rev = register;
  ctrl_cpu_rev_0 = primary;
  ctrl_cpu_rev_1 = register;
}

init_vmcs_example :
    (s' : Setup) × (init_vmcs false false platform before ≡ (0, s'))
    × Accepted register (s'.vmcs pin_controls)
    × Accepted primary (s'.vmcs cpu_exec_ctrl0)
    × Accepted register (s'.vmcs ent_controls)
    × Accepted register (s'.vmcs exi_controls)
    × ((bit_and primary.set (2 ^ 31) ≡ 0) ⊎ Accepted register (s'.vmcs cpu_exec_ctrl1))
init_vmcs_example = init_vmcs_lem platform before refl refl refl refl refl
