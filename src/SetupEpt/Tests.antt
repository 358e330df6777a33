-- ===== src/SetupEpt/Tests.antt =====
-- Runs of `setup_ept`.
use asor.Base.{ℕ, ◌+◌, ◌*◌, ◌^◌, ◌≡◌, refl, inl, true, none, some, [], ltb, if◌then◌else◌, arith}
use asor.Memory.{page_size}
use asor.PageAlloc.{alloc_page}
use asor.SetupEpt.Line.{linked, free_run, free_run-Spare, length-free_run, linked-IsFree}
use asor.Vmcs.{Setup, VmxCtrlMsr}
use asor.Ept.Access.{access}
use asor.Ept.Walk.{translate}
use asor.Ept.Identity.{ident}
use asor.SetupEpt.{EptState, end_of_memory, setup_ept}
use asor.SetupEpt.Identity.{HasEpt, field_after, setup_ept_lem, setup_ept-refused}

-- All controls may be set.
abbrev free_controls : VmxCtrlMsr
free_controls = record { set = 0; clr = 0xffffffff }

abbrev no_controls : VmxCtrlMsr
no_controls = record { set = 0; clr = 0 }

abbrev fields : VmxCtrlMsr → Setup
fields msr = record {
  vmcs = λ e. 0;
  ctrl_pin = 0;
  ctrl_enter = 0;
  ctrl_exit = 0;
  ctrl_cpu_0 = 0;
  ctrl_cpu_1 = 0;
  vpid_cnt = 0;
  ctrl_pin_rev = msr;
  ctrl_enter_rev = msr;
  ctrl_exit_rev = msr;
  ctrl_cpu_rev_0 = msr;
  ctrl_cpu_rev_1 = msr;
}

-- 4 GB of memory need three times 2^20 pages and the root.
abbrev start : ℕ → VmxCtrlMsr → EptState
start last msr = record {
  setup = fields msr;
  pages = record { mem = linked last; freelist = 4096 };
  ept_vpid = 2 ^ 6 + 2 ^ 14;
  eptp = 0;
  pml4 = 0;
  printed = [];
}

start-HasEpt : (last : ℕ) → HasEpt (start last free_controls)
start-HasEpt last = record {
  secondary = omega arith;
  ept = omega arith;
  wb = omega arith;
  pwl4 = omega arith;
}

setup_ept_example :
    (s' : EptState) × (setup_ept
        (2 ^ 21)
        (2 ^ 27)
        true
        (start (4096 + 3 * 2051 * page_size) free_controls)
      ≡ some (0, s'))
    × (s'.pml4 ≡ 4096)
    × (s'.eptp ≡ 4096 + (if true then 94 else 30))
    × (s'.setup.vmcs 0x201a
        ≡ field_after (4096 + (if true then 94 else 30)) (fields free_controls) 0x201a)
    × (translate 3 s'.pages.mem s'.pml4 0x12345
        ≡ (if ltb 0x12345 (end_of_memory (2 ^ 27)) then some (ident 7 0x12345) else none))
    × (access 3 s'.pages.mem s'.pml4 0x12345
        ≡ (if ltb 0x12345 (end_of_memory (2 ^ 27)) then 7 else 0))
setup_ept_example =
    setup_ept_lem (2 ^ 21) (2 ^ 27) 4096 0x12345 0x201a (free_run 8192 (3 * 2051)) true
      (start (4096 + 3 * 2051 * page_size) free_controls)
      (start-HasEpt (4096 + 3 * 2051 * page_size))
      (linked-IsFree (3 * 2051) 4096 (4096 + 3 * 2051 * page_size) (omega arith) refl)
      (refl, refl, omega arith, free_run-Spare (3 * 2051) 8192 refl (omega arith)) refl
      (omega arith) (omega arith) (omega (arith, length-free_run (3 * 2051) 8192)) (omega arith)

setup_ept-refused_example :
    (s' : EptState) × (setup_ept 1 0 true (start 4096 no_controls) ≡ some (1, s'))
    × (s'.setup ≡ fields no_controls)
    × (s'.eptp ≡ 0)
    × (s'.pages ≡ (alloc_page (start 4096 no_controls).pages).1)
setup_ept-refused_example = setup_ept-refused 1 0 true (start 4096 no_controls) (inl refl)
