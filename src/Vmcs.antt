-- ===== src/Vmcs.antt =====
-- x86/vmx.c, from `init_vmcs_ctrl` to `init_vmcs`: the control structure of the guest. Setup holds
-- the variables of the controls and the fields of the current VMCS; Platform is what the code reads
-- of the processor and of the linker's symbols. The memory of the VMCS is the processor's.
mod Tests
pub mod Encoding
pub mod Controls
use asor.Base.{
  ℕ, ◌+◌, ◌-◌, ◌%◌, ◌^◌, bit_and, bit_or, Bool, true, false, not, List, [], ◌∷◌, ◌==◌,
  if◌then◌else◌, Option, none, some,
}
use asor.Memory.{page_size}
use asor.Vmcs.Encoding.{
  cpu_exec_ctrl0, cpu_exec_ctrl1, cr3_target_count, ent_controls, exi_controls, guest_actv_state,
  guest_ar_cs, guest_ar_ds, guest_ar_es, guest_ar_fs, guest_ar_gs, guest_ar_ldtr, guest_ar_ss,
  guest_ar_tr, guest_base_cs, guest_base_ds, guest_base_es, guest_base_fs, guest_base_gdtr,
  guest_base_gs, guest_base_idtr, guest_base_ldtr, guest_base_ss, guest_base_tr, guest_cr0,
  guest_cr3, guest_cr4, guest_dr7, guest_efer, guest_intr_state, guest_limit_cs, guest_limit_ds,
  guest_limit_es, guest_limit_fs, guest_limit_gdtr, guest_limit_gs, guest_limit_idtr,
  guest_limit_ldtr, guest_limit_ss, guest_limit_tr, guest_rflags, guest_rip, guest_rsp,
  guest_sel_cs, guest_sel_ds, guest_sel_es, guest_sel_fs, guest_sel_gs, guest_sel_ldtr,
  guest_sel_ss, guest_sel_tr, guest_sysenter_cs, guest_sysenter_eip, guest_sysenter_esp,
  host_base_fs, host_base_gdtr, host_base_gs, host_base_idtr, host_base_tr, host_cr0, host_cr3,
  host_cr4, host_efer, host_rip, host_sel_cs, host_sel_ds, host_sel_es, host_sel_fs, host_sel_gs,
  host_sel_ss, host_sel_tr, host_sysenter_cs, host_sysenter_eip, pf_error_mask, pf_error_match,
  pin_controls, vmcs_link_ptr, vmcs_link_ptr_hi, vpid,
}

abbrev pub kernel_cs : ℕ
kernel_cs = 0x08

abbrev pub kernel_ds : ℕ
kernel_ds = 0x10

abbrev pub tss_main : ℕ
tss_main = 0x80

pub record Platform : Type 0 where
  pub cr0 : ℕ
  pub cr3 : ℕ
  pub cr4 : ℕ
  pub efer : ℕ
  pub entry_sysenter : ℕ
  pub vmx_return : ℕ
  pub guest_entry : ℕ
  pub tss_base : ℕ
  pub tss_limit : ℕ
  pub gdt_base : ℕ
  pub gdt_limit : ℕ
  pub idt_base : ℕ
  pub idt_limit : ℕ
  pub guest_stack : ℕ
  pub guest_syscall_stack : ℕ

-- A capability register: the bits that must be set, and the bits that may be set.
pub record VmxCtrlMsr : Type 0 where
  pub set : ℕ
  pub clr : ℕ

pub record Setup : Type 0 where
  pub vmcs : ℕ → ℕ
  pub ctrl_pin : ℕ
  pub ctrl_enter : ℕ
  pub ctrl_exit : ℕ
  pub ctrl_cpu_0 : ℕ
  pub ctrl_cpu_1 : ℕ
  pub vpid_cnt : ℕ
  pub ctrl_pin_rev : VmxCtrlMsr
  pub ctrl_enter_rev : VmxCtrlMsr
  pub ctrl_exit_rev : VmxCtrlMsr
  pub ctrl_cpu_rev_0 : VmxCtrlMsr
  pub ctrl_cpu_rev_1 : VmxCtrlMsr

-- A sequence of vmcs_write, in order.
unfoldable pub write_all : List (ℕ × ℕ) → (ℕ → ℕ) → ℕ → ℕ
write_all [] vmcs = vmcs
write_all ((enc, val) ∷ rest) vmcs = write_all rest λ e. if e == enc then val else vmcs e

-- (ctrl | set) & clr
abbrev pub adjust : ℕ → VmxCtrlMsr → ℕ
adjust ctrl msr = bit_and (bit_or ctrl msr.set) msr.clr

pub init_vmcs_ctrl : Setup → Setup
init_vmcs_ctrl s =
    let s1 = record s {
      vmcs = write_all ((pin_controls, s.ctrl_pin) ∷ (cpu_exec_ctrl0, s.ctrl_cpu_0) ∷ []) s.vmcs;
    } in
    let secondary = adjust s.ctrl_cpu_1 s.ctrl_cpu_rev_1 in
    let s2 =
      if not (bit_and s.ctrl_cpu_rev_0.set (2 ^ 31) == 0)
      then record s1 {
        ctrl_cpu_1 = secondary;
        vmcs = write_all ((cpu_exec_ctrl1, secondary) ∷ []) s1.vmcs;
      }
      else s1 in
    record s2 {
      vmcs = write_all ((cr3_target_count, 0) ∷ (vpid, (s2.vpid_cnt + 1) % 2 ^ 32) ∷ []) s2.vmcs;
      vpid_cnt = (s2.vpid_cnt + 1) % 2 ^ 32;
    }

host_fields : Platform → Setup → List (ℕ × ℕ)
host_fields p s =
    (host_efer, p.efer)
    ∷ (ent_controls, s.ctrl_enter)
    ∷ (exi_controls, s.ctrl_exit)
    ∷ (host_cr0, p.cr0)
    ∷ (host_cr3, p.cr3)
    ∷ (host_cr4, p.cr4)
    ∷ (host_sysenter_eip, p.entry_sysenter)
    ∷ (host_sysenter_cs, kernel_cs)
    ∷ (host_sel_cs, kernel_cs)
    ∷ (host_sel_ss, kernel_ds)
    ∷ (host_sel_ds, kernel_ds)
    ∷ (host_sel_es, kernel_ds)
    ∷ (host_sel_fs, kernel_ds)
    ∷ (host_sel_gs, kernel_ds)
    ∷ (host_sel_tr, tss_main)
    ∷ (host_base_tr, p.tss_base)
    ∷ (host_base_gdtr, p.gdt_base)
    ∷ (host_base_idtr, p.idt_base)
    ∷ (host_base_fs, 0)
    ∷ (host_base_gs, 0)
    ∷ (pf_error_mask, 0)
    ∷ (pf_error_match, 0)
    ∷ (vmcs_link_ptr, 2 ^ 64 - 1)
    ∷ (vmcs_link_ptr_hi, 2 ^ 64 - 1)
    ∷ (host_rip, p.vmx_return)
    ∷ []

pub init_vmcs_host : Platform → Setup → Setup
init_vmcs_host p s = record s { vmcs = write_all (host_fields p s) s.vmcs }

ia32e : Setup → Bool
ia32e s = not (bit_and s.ctrl_enter (2 ^ 9) == 0)

pub guest_cr0_value : Platform → Setup → ℕ
guest_cr0_value p s =
    let cr0 = if ia32e s then bit_or p.cr0 0x80000000 else p.cr0 in
    if not (bit_and cr0 0x80000000 == 0) then bit_or cr0 1 else cr0

pub guest_cr4_value : Platform → Setup → ℕ
guest_cr4_value p s = if ia32e s then bit_or p.cr4 0x20 else bit_and p.cr4 (2 ^ 64 - 1 - 0x20000)

guest_fields : Platform → Setup → List (ℕ × ℕ)
guest_fields p s =
    (guest_cr0, guest_cr0_value p s)
    ∷ (guest_cr3, p.cr3)
    ∷ (guest_cr4, guest_cr4_value p s)
    ∷ (guest_sysenter_cs, kernel_cs)
    ∷ (guest_sysenter_esp, p.guest_syscall_stack + page_size - 1)
    ∷ (guest_sysenter_eip, p.entry_sysenter)
    ∷ (guest_dr7, 0)
    ∷ (guest_efer, p.efer)
    ∷ (guest_sel_cs, kernel_cs)
    ∷ (guest_sel_ss, kernel_ds)
    ∷ (guest_sel_ds, kernel_ds)
    ∷ (guest_sel_es, kernel_ds)
    ∷ (guest_sel_fs, kernel_ds)
    ∷ (guest_sel_gs, kernel_ds)
    ∷ (guest_sel_tr, tss_main)
    ∷ (guest_sel_ldtr, 0)
    ∷ (guest_base_cs, 0)
    ∷ (guest_base_es, 0)
    ∷ (guest_base_ss, 0)
    ∷ (guest_base_ds, 0)
    ∷ (guest_base_fs, 0)
    ∷ (guest_base_gs, 0)
    ∷ (guest_base_tr, p.tss_base)
    ∷ (guest_base_ldtr, 0)
    ∷ (guest_limit_cs, 0xFFFFFFFF)
    ∷ (guest_limit_ds, 0xFFFFFFFF)
    ∷ (guest_limit_es, 0xFFFFFFFF)
    ∷ (guest_limit_ss, 0xFFFFFFFF)
    ∷ (guest_limit_fs, 0xFFFFFFFF)
    ∷ (guest_limit_gs, 0xFFFFFFFF)
    ∷ (guest_limit_ldtr, 0xffff)
    ∷ (guest_limit_tr, p.tss_limit)
    ∷ (guest_ar_cs, 0xa09b)
    ∷ (guest_ar_ds, 0xc093)
    ∷ (guest_ar_es, 0xc093)
    ∷ (guest_ar_fs, 0xc093)
    ∷ (guest_ar_gs, 0xc093)
    ∷ (guest_ar_ss, 0xc093)
    ∷ (guest_ar_ldtr, 0x82)
    ∷ (guest_ar_tr, 0x8b)
    ∷ (guest_base_gdtr, p.gdt_base)
    ∷ (guest_base_idtr, p.idt_base)
    ∷ (guest_limit_gdtr, p.gdt_limit)
    ∷ (guest_limit_idtr, p.idt_limit)
    ∷ (guest_rip, p.guest_entry)
    ∷ (guest_rsp, p.guest_stack + page_size - 1)
    ∷ (guest_rflags, 0x2)
    ∷ (guest_actv_state, 0)
    ∷ (guest_intr_state, 0)
    ∷ []

pub init_vmcs_guest : Platform → Setup → Setup
init_vmcs_guest p s = record s { vmcs = write_all (guest_fields p s) s.vmcs }

-- The settings of `init_vmcs` and their adjustment to the capabilities.
pub set_controls : Setup → Setup
set_controls s = record s {
  ctrl_pin = adjust (bit_or s.ctrl_pin (bit_or (bit_or 1 (2 ^ 3)) (2 ^ 5))) s.ctrl_pin_rev;
  ctrl_enter = adjust (bit_or (2 ^ 15) (2 ^ 9)) s.ctrl_enter_rev;
  ctrl_exit = adjust (bit_or (2 ^ 21) (2 ^ 9)) s.ctrl_exit_rev;
  ctrl_cpu_0 =
      adjust (bit_and s.ctrl_cpu_0 (2 ^ 32 - 1 - bit_or (2 ^ 24) (2 ^ 25))) s.ctrl_cpu_rev_0;
  ctrl_cpu_1 = 0;
}

-- `init_vmcs` behind its allocation: the arguments say whether vmcs_clear and make_vmcs_current
-- failed. The results are the returned value and the state.
pub init_vmcs : Bool → Bool → Platform → Setup → ℕ × Setup
init_vmcs clear_failed current_failed p s =
    if clear_failed
    then (1, s)
    else if current_failed
    then (1, s)
    else (0, init_vmcs_guest p (init_vmcs_host p (init_vmcs_ctrl (set_controls s))))
