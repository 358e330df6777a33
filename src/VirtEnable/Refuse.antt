-- ===== src/VirtEnable/Refuse.antt =====
-- `x86_virt_enable` when the page tables of the guest cannot be set up.
use asor.Base.{some}
use asor.InitVmx.{is_vmx_supported, init_vmx}
use asor.Vmx.{Vmx, AsorGuest}
use asor.VirtEnable.{Machine, Environment, init_guest_vmcs}

-- The machine behind vmxon and `init_vmcs`.
abbrev pub with_guest : Environment → AsorGuest → Machine → Machine
with_guest env guest m =
    (init_guest_vmcs env (record m {
      current = some guest;
      vmx = init_vmx (is_vmx_supported env.cpuid_1_c m.vmx).1;
    })).1
