-- ===== src/InitVmx/Support.antt =====
-- `is_vmx_supported` on a processor that has VMX: the yes, and what it leaves alone.
use asor.Base.{
  ℕ, ◌+◌, ◌%◌, ◌^◌, ◌≡◌, ◌≢◌, ◌⊎◌, refl, ap, sym, ◌∙◌, inl, inr, Bool, Bool-cases, true, false,
  ◌==◌, bit_and, List, ◌∷◌, arith,
}
use asor.PageAlloc.Chain.{IsFree}
use asor.Ept.Tables.{Spare}
use asor.SetupEpt.Root.{unowned}
use asor.InitVmx.{
  VmxState, feature_control, cr4_vmxe, is_vmx_supported, read_capabilities, init_vmx,
}
use asor.InitVmx.Registers.{Fixed, FixedAgree, init_vmx_lem}

-- The processor has VMX, and the feature control allows it or can be set.
pub record CanUseVmx (cpuid_1_c : ℕ) (s : VmxState) : Type 0 where
  pub vmx : bit_and cpuid_1_c (2 ^ 5) ≢ 0
  pub feature :
      (bit_and (s.msr feature_control) 0x5 ≡ 0x5) ⊎ (bit_and (s.msr feature_control) 0x1 ≡ 0)

pub record Supported (s : VmxState) (r : Bool × VmxState) : Type 0 where
  pub yes_it_is : r.0 ≡ true
  pub pages : r.1.pages ≡ s.pages
  pub feature : bit_and (r.1.msr feature_control) 0x5 ≡ 0x5
  pub others : (a : ℕ) → a ≢ feature_control → r.1.msr a ≡ s.msr a

pub supported_lem :
    (cpuid_1_c : ℕ) (s : VmxState)
    → CanUseVmx cpuid_1_c s
    → Supported s (is_vmx_supported cpuid_1_c s)
unfolding is_vmx_supported
supported_lem cpuid_1_c s h =
    let n1 : (bit_and cpuid_1_c (2 ^ 5) == 0) ≡ false = ground (arith, h.vmx) in
    elim (Bool-cases (bit_and (s.msr feature_control) 0x5 == 0x5)) [
      | inl on ↦
          rw (n1, on)
            (record {
              yes_it_is = refl;
              pages = refl;
              feature = ground arith;
              others = λ a ne. refl;
            })
      | inr off ↦
          let z : (bit_and (s.msr feature_control) 0x1 == 0) ≡ true = ground (arith, h.feature) in
          rw (n1, off, z)
            (record {
              yes_it_is = refl;
              pages = refl;
              feature = refl;
              others = λ a ne. ground arith;
            })
    ]

pub agree_after :
    (s s' : VmxState)
    → ((a : ℕ) → a ≢ feature_control → s'.msr a ≡ s.msr a)
    → FixedAgree s
    → FixedAgree s'
agree_after s s' same ag =
    let e6 = same 0x486 (omega arith) in
    let e7 = same 0x487 (omega arith) in
    let e8 = same 0x488 (omega arith) in
    let e9 = same 0x489 (omega arith) in
    record { cr0 = rw (e6, e7) ag.cr0; cr4 = rw (e8, e9) ag.cr4; vmxe = rw e9 ag.vmxe }

-- What `init_vmx` leaves for vmxon, and the other free pages.
pub record Started (v : ℕ) (xs : List ℕ) (s' : VmxState) : Type 0 where
  pub cr0 : Fixed (s'.msr 0x486) (s'.msr 0x487) s'.cr0
  pub cr4 : Fixed (s'.msr 0x488) (s'.msr 0x489) s'.cr4
  pub vmxe : bit_and s'.cr4 cr4_vmxe ≡ cr4_vmxe
  pub feature : bit_and (s'.msr feature_control) 0x5 ≡ 0x5
  pub region : s'.vmxon_region ≡ v
  pub revision : s'.pages.mem s'.vmxon_region ≡ s'.msr 0x480 % 2 ^ 32
  pub free : IsFree s'.pages xs

init_vmx_msr : (s : VmxState) → (init_vmx s).msr ≡ s.msr
unfolding init_vmx read_capabilities
init_vmx_msr s = refl

pub init_vmx-Started :
    (s : VmxState) (v g g' : ℕ) (xs : List ℕ)
    → FixedAgree s
    → bit_and (s.msr feature_control) 0x5 ≡ 0x5
    → IsFree s.pages (v ∷ g ∷ g' ∷ xs)
    → Spare unowned (v ∷ g ∷ g' ∷ xs)
    → Started v xs (init_vmx s)
init_vmx-Started s v g g' xs ag feature f sp =
    let (cr0, cr4, on, ev, eg, eg', wv, wg, wg', free) =
      init_vmx_lem s v g g' 0 xs ag f sp (omega arith) in
    let e = init_vmx_msr s in
    record {
      cr0 = rw e cr0;
      cr4 = rw e cr4;
      vmxe = on;
      feature = rw e feature;
      region = ev;
      revision =
          ap (λ a. (init_vmx s).pages.mem a) (ev ∙ sym_zero v)
          ∙ wv
          ∙ ap (λ (r : ℕ → ℕ). r 0x480 % 2 ^ 32) (sym e);
      free = free;
    }
  where
    sym_zero : (a : ℕ) → a ≡ a + 0
    sym_zero a = omega arith
