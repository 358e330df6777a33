-- ===== src/InitVmx/Tests.antt =====
-- Runs of `is_vmx_supported` and `init_vmx`.
use asor.Base.{
  ℕ, ◌+◌, ◌%◌, ◌^◌, ◌≡◌, ◌≢◌, refl, true, [], ◌∷◌, ◌==◌, ◌||◌, if◌then◌else◌, bit_and, arith,
}
use asor.PageAlloc.{Pages}
use asor.PageAlloc.Chain.{IsFree}
use asor.Vmcs.{VmxCtrlMsr}
use asor.Ept.Tables.{Spare}
use asor.SetupEpt.Root.{unowned}
use asor.InitVmx.{VmxState, feature_control, cr4_vmxe, is_vmx_supported, init_vmx}
use asor.InitVmx.Registers.{Fixed, FixedAgree, is_vmx_supported_lem, init_vmx_lem}

-- The free pages at 0x1000, 0x2000 and 0x3000.
abbrev free : Pages
free = record {
  mem = λ a. if a == 4096 then 8192 else if a == 8192 then 12288 else 0;
  freelist = 4096;
}

abbrev unread : VmxCtrlMsr
unread = record { set = 0; clr = 0 }

-- CR0 needs bits 0, 5 and 31; CR4 needs bit 13.
abbrev msrs : ℕ → ℕ
msrs a =
    if a == 0x486
    then 0x80000021
    else if a == 0x487 || a == 0x489
    then 0xffffffff
    else if a == 0x488
    then 0x2000
    else if a == 0x480
    then 0x12
    else 0

abbrev start : VmxState
start = record {
  msr = msrs;
  cr0 = 0x11;
  cr4 = 0x20;
  pages = free;
  vmxon_region = 0;
  guest_stack = 0;
  guest_syscall_stack = 0;
  basic = record { revision = 0; ctrl = true };
  ctrl_pin_rev = unread;
  ctrl_exit_rev = unread;
  ctrl_enter_rev = unread;
  ctrl_cpu_rev_0 = unread;
  ctrl_cpu_rev_1 = unread;
  ept_vpid = 0;
  printed = [];
}

free-IsFree : IsFree free (4096 ∷ 8192 ∷ 12288 ∷ [])
free-IsFree = record {
  chain = (refl, ground arith, (refl, ground arith, (refl, ground arith, refl)));
  distinct = ((ground arith, (ground arith, tt)), ((ground arith, tt), (tt, tt)));
}

free-Spare : Spare unowned (4096 ∷ 8192 ∷ 12288 ∷ [])
free-Spare = (refl, refl, omega arith, (refl, refl, omega arith, (refl, refl, omega arith, tt)))

is_vmx_supported_runs : (is_vmx_supported 0x20 start).0 ≡ true
unfolding is_vmx_supported
is_vmx_supported_runs = refl

is_vmx_supported_example :
    (bit_and 0x20 (2 ^ 5) ≢ 0)
    × (bit_and ((is_vmx_supported 0x20 start).1.msr feature_control) 0x5 ≡ 0x5)
is_vmx_supported_example = is_vmx_supported_lem 0x20 start is_vmx_supported_runs

start-FixedAgree : FixedAgree start
start-FixedAgree = record { cr0 = refl; cr4 = refl; vmxe = refl }

init_vmx_example :
    Fixed (start.msr 0x486) (start.msr 0x487) (init_vmx start).cr0
    × Fixed (start.msr 0x488) (start.msr 0x489) (init_vmx start).cr4
    × (bit_and (init_vmx start).cr4 cr4_vmxe ≡ cr4_vmxe)
    × ((init_vmx start).vmxon_region ≡ 4096)
    × ((init_vmx start).guest_stack ≡ 8192)
    × ((init_vmx start).guest_syscall_stack ≡ 12288)
    × ((init_vmx start).pages.mem (4096 + 8) ≡ (if 8 == 0 then start.msr 0x480 % 2 ^ 32 else 0))
    × ((init_vmx start).pages.mem (8192 + 8) ≡ 0)
    × ((init_vmx start).pages.mem (12288 + 8) ≡ 0)
    × IsFree (init_vmx start).pages []
init_vmx_example =
    init_vmx_lem start 4096 8192 12288 8 [] start-FixedAgree free-IsFree free-Spare (omega arith)
