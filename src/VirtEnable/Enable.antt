-- ===== src/VirtEnable/Enable.antt =====
-- `x86_virt_enable` on a machine that has what it takes: the guest runs to its end.
use asor.Base.{ℕ, ◌≡◌, refl, ap, ◌∙◌, false, some}
use asor.InitVmx.{VmxState, is_vmx_supported}
use asor.Vmx.{Vmx, AsorGuest, finished, vmx_run}
use asor.VirtEnable.{Machine, Environment, returned, run_of, with_run, leave_vmx, run_and_leave}

-- The state behind the test for VMX.
abbrev pub tested : Environment → Machine → VmxState
tested env m = (is_vmx_supported env.cpuid_1_c m.vmx).1

leave_vmx_ok :
    (env : Environment) (m : Machine)
    → env.vmx_off m ≡ false
    → leave_vmx env finished m ≡ (returned 0, m)
unfolding leave_vmx
leave_vmx_ok env m off = rw off refl

pub run_and_leave_run :
    (fuel : ℕ) (env : Environment) (m : Machine) (guest : AsorGuest) (v : Vmx)
    → m.current ≡ some guest
    → vmx_run fuel env.processor (some guest) (run_of m) ≡ some (finished, v)
    → env.vmx_off (with_run v m) ≡ false
    → run_and_leave fuel env m ≡ some (returned 0, with_run v m)
unfolding run_and_leave
run_and_leave_run fuel env m guest v cur run off =
    let e : vmx_run fuel env.processor m.current (run_of m) ≡ some (finished, v) =
      ap (λ c. vmx_run fuel env.processor c (run_of m)) cur ∙ run in
    rw e (ap some (leave_vmx_ok env (with_run v m) off))
