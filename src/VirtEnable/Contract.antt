-- ===== src/VirtEnable/Contract.antt =====
-- What the processor demands before its instructions succeed (Intel SDM volume 3, chapters 24, 26 and
-- 30), as far as the code sets it up, and what the capability registers promise.
use asor.Base.{◌-◌, ℕ, ◌/◌, ◌%◌, ◌^◌, ◌≡◌, ◌≢◌, true, false, none, bit_and}
use asor.Vmcs.Encoding.{
  pin_controls, ent_controls, exi_controls, cpu_exec_ctrl0, cpu_exec_ctrl1, host_cr0, host_cr4,
  host_sel_cs, host_sel_ss, host_sel_ds, host_sel_es, host_sel_fs, host_sel_gs, host_sel_tr,
  vmcs_link_ptr, guest_ar_cs, guest_ar_tr, guest_rflags, guest_actv_state, guest_intr_state,
}
use asor.Vmcs.Controls.{Accepted, IsConsistent}
use asor.SetupEpt.{eptp_field, cpu_secondary, cpu_ept, ept_cap_wb, ept_cap_pwl4}
use asor.InitVmx.{VmxState, feature_control, cr4_vmxe}
use asor.InitVmx.Registers.{Fixed}
use asor.Vmx.{Vmx, hypercall, exi_reason, vmx_vmcall}
use asor.VirtEnable.{Machine, Environment}

-- For vmxon.
pub record VmxonReady (m : Machine) : Type 0 where
  pub cr0 : Fixed (m.vmx.msr 0x486) (m.vmx.msr 0x487) m.vmx.cr0
  pub cr4 : Fixed (m.vmx.msr 0x488) (m.vmx.msr 0x489) m.vmx.cr4
  pub vmxe : bit_and m.vmx.cr4 cr4_vmxe ≡ cr4_vmxe
  pub feature : bit_and (m.vmx.msr feature_control) 0x5 ≡ 0x5
  pub aligned : m.vmx.vmxon_region % 2 ^ 12 ≡ 0
  pub revision : m.vmx.pages.mem m.vmx.vmxon_region ≡ m.vmx.msr 0x480 % 2 ^ 32

-- For vmclear and vmptrld.
pub record VmcsReady (m : Machine) : Type 0 where
  pub aligned : m.guest_vmcs % 2 ^ 12 ≡ 0
  pub other : m.guest_vmcs ≢ m.vmx.vmxon_region
  pub revision : m.vmx.pages.mem m.guest_vmcs ≡ m.vmx.basic.revision % 2 ^ 31

-- The checks of the host's and the guest's state, as far as they do not concern addresses, EFER and
-- the guest's control registers, which the platform gives: the host's control registers are ones that
-- VMX allows; the host's selectors ask for ring 0 and the GDT, and those of code and the task are not
-- null; there is no shadow VMCS; the guest's code segment is present, and its task segment a present
-- busy one; bit 1 of its flags is set, and it is active with nothing that blocks interrupts.
pub record StateReady (c : VmxState) (f : ℕ → ℕ) : Type 0 where
  pub host_0 : Fixed (c.msr 0x486) (c.msr 0x487) (f host_cr0)
  pub host_4 : Fixed (c.msr 0x488) (c.msr 0x489) (f host_cr4)
  pub host_code : (f host_sel_cs % 8 ≡ 0) × (f host_sel_cs ≢ 0)
  pub host_task : (f host_sel_tr % 8 ≡ 0) × (f host_sel_tr ≢ 0)
  pub host_stack : f host_sel_ss % 8 ≡ 0
  pub host_data : (f host_sel_ds % 8 ≡ 0) × (f host_sel_es % 8 ≡ 0)
  pub host_more : (f host_sel_fs % 8 ≡ 0) × (f host_sel_gs % 8 ≡ 0)
  pub link : f vmcs_link_ptr ≡ 2 ^ 64 - 1
  pub guest_code : (f guest_ar_cs % 16 ≡ 11) × (f guest_ar_cs / 2 ^ 7 % 2 ≡ 1)
  pub guest_task : (f guest_ar_tr % 32 ≡ 11) × (f guest_ar_tr / 2 ^ 7 % 2 ≡ 1)
  pub flags : f guest_rflags ≡ 2
  pub active : f guest_actv_state ≡ 0
  pub interruptible : f guest_intr_state ≡ 0

-- For entering a guest that uses EPT, on a processor with the capabilities of `c`.
pub record EntryReady (c : VmxState) (v : Vmx) : Type 0 where
  pub pin : Accepted c.ctrl_pin_rev (v.vmcs pin_controls)
  pub cpu : Accepted c.ctrl_cpu_rev_0 (v.vmcs cpu_exec_ctrl0)
  pub secondary : Accepted c.ctrl_cpu_rev_1 (v.vmcs cpu_exec_ctrl1)
  pub enter : Accepted c.ctrl_enter_rev (v.vmcs ent_controls)
  pub leave : Accepted c.ctrl_exit_rev (v.vmcs exi_controls)
  pub secondary_on : bit_and (v.vmcs cpu_exec_ctrl0) cpu_secondary ≡ cpu_secondary
  pub ept_on : bit_and (v.vmcs cpu_exec_ctrl1) cpu_ept ≡ cpu_ept
  pub write_back : v.vmcs eptp_field % 8 ≡ 6
  pub four_levels : v.vmcs eptp_field / 8 % 8 ≡ 3
  pub state : StateReady c v.vmcs

-- The instructions succeed when what they demand is there, and a guest that is entered comes back
-- from its main function: in the state `g v` it makes the hypercall 1.
pub record IsProcessor (env : Environment) (c : VmxState) (g : Vmx → Vmx) : Type 0 where
  pub vmx_on_ok : (m : Machine) → VmxonReady m → env.vmx_on m ≡ false
  pub vmx_off_ok : (m : Machine) → env.vmx_off m ≡ false
  pub vmcs_clear_ok : (m : Machine) → VmcsReady m → env.vmcs_clear m ≡ false
  pub make_vmcs_current_ok : (m : Machine) → VmcsReady m → env.make_vmcs_current m ≡ false
  pub entered :
      (v : Vmx)
      → EntryReady c v
      → env.processor v.launched (record v { in_guest = true }) ≡ (none, hypercall 1 (g v))
  pub reason : (v : Vmx) → (g v).vmcs exi_reason ≡ vmx_vmcall

-- What the capability registers promise: what must be set may be set, no secondary control must be
-- set, and there is EPT with walks of four levels in write-back memory.
pub record CapsAgree (c : VmxState) : Type 0 where
  pub pin : IsConsistent c.ctrl_pin_rev
  pub enter : IsConsistent c.ctrl_enter_rev
  pub leave : IsConsistent c.ctrl_exit_rev
  pub cpu : IsConsistent c.ctrl_cpu_rev_0
  pub optional : c.ctrl_cpu_rev_1.set ≡ 0
  pub secondary : bit_and cpu_secondary c.ctrl_cpu_rev_0.clr ≡ cpu_secondary
  pub ept : bit_and cpu_ept c.ctrl_cpu_rev_1.clr ≡ cpu_ept
  pub wb : bit_and c.ept_vpid ept_cap_wb ≢ 0
  pub pwl4 : bit_and c.ept_vpid ept_cap_pwl4 ≢ 0
