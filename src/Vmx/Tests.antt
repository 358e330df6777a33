-- ===== src/Vmx/Tests.antt =====
-- Runs of x86/vmx.c.
use asor.Base.{◌+◌, ◌%◌, ◌^◌, ◌≡◌, refl, true, false, none, some, ◌==◌, if◌then◌else◌, arith}
use asor.Vmx.{Vmx, AsorGuest, Processor, finished, hypercall, vmx_run, vmx_resume}
use asor.Vmx.Run.{here, vmx_run-hypercall}

-- The exit was a vmcall.
abbrev left : Vmx
left = record {
  vmcs = λ e. if e == 17410 then 18 else 2;
  hypercall_field = 0;
  launched = false;
  guest_finished = false;
  in_guest = false;
  rflags = 0;
  exits = 4;
}

-- A guest that makes the hypercall 1 whenever it is entered.
abbrev processor : Processor
processor launched s = (none, hypercall 1 s)

abbrev guest : AsorGuest
guest = record { exit_handler = λ s. (vmx_resume, s); entry_failure_handler = none }

vmx_run-hypercall_example :
    (s' : Vmx) × (vmx_run 1 processor (some guest) left ≡ some (finished, s'))
    × (s'.guest_finished ≡ true)
    × (s'.launched ≡ true)
    × (s'.in_guest ≡ false)
    × (s'.hypercall_field ≡ 0)
    × (s'.exits ≡ (left.exits + 1) % 2 ^ 32)
vmx_run-hypercall_example =
    vmx_run-hypercall processor guest 1 0 1 left left (record left { in_guest = true })
      (omega arith) (here left) refl refl refl
