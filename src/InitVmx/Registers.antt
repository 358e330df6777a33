-- ===== src/InitVmx/Registers.antt =====
-- What `is_vmx_supported` and `init_vmx` leave to the processor.
use asor.Base.{
  ℕ, ◌+◌, ◌%◌, ◌^◌, ◌<◌, ◌≡◌, ◌≢◌, refl, ap, subst, sym, ◌∙◌, inl, inr, true, false, List, ◌∷◌, min,
  ◌==◌, if◌then◌else◌, Bool-cases, bit_and, bit_or, arith,
}
use asor.Base.Bits.{bit, bit_ext, bit-bit_and, bit-bit_or, bit_and-bit_or}
use asor.Memory.{Memory, zero_page, write_word}
use asor.PageAlloc.{Pages}
use asor.PageAlloc.Chain.{IsFree, SameAt-write_word, Chain-frame, alloc_page_first}
use asor.Ept.Tables.{Spare}
use asor.SetupEpt.Root.{unowned, root-IsMapped}
use asor.InitVmx.{
  VmxState, feature_control, cr4_vmxe, is_vmx_supported, new_page, read_capabilities, init_vmx,
}

-- When `is_vmx_supported` says yes, the processor has VMX, and its feature control register is
-- locked with VMX enabled outside SMX.
pub is_vmx_supported_lem :
    (cpuid_1_c : ℕ) (s : VmxState)
    → (is_vmx_supported cpuid_1_c s).0 ≡ true
    → (bit_and cpuid_1_c (2 ^ 5) ≢ 0)
      × (bit_and ((is_vmx_supported cpuid_1_c s).1.msr feature_control) 0x5 ≡ 0x5)
unfolding is_vmx_supported
is_vmx_supported_lem cpuid_1_c s says = elim (Bool-cases (bit_and cpuid_1_c (2 ^ 5) == 0)) [
  | inl y ↦ absurd (false_true (rw y at says))
  | inr n1 ↦ elim (Bool-cases (bit_and (s.msr feature_control) 0x5 == 0x5)) [
    | inl y ↦ rw (n1, y) (ground arith, ground arith)
    | inr n2 ↦ elim (Bool-cases (bit_and (s.msr feature_control) 0x1 == 0)) [
      | inl y ↦ rw (n1, n2, y) (ground arith, refl)
      | inr n3 ↦ absurd (false_true (rw (n1, n2, n3) at says))
    ]
  ]
]
  where
    false_true : false ≡ true → ⊥
    false_true e = ground arith

-- A register with every bit of `set`, and no bit outside `clr`.
abbrev pub Fixed : ℕ → ℕ → ℕ → Type 0
Fixed set clr v = (bit_and v set ≡ set) × (bit_and v clr ≡ v)

Fixed-or : (set clr v : ℕ) → bit_and set clr ≡ set → Fixed set clr (bit_or (bit_and v clr) set)
Fixed-or set clr v h = (
  bit_and-bit_or (bit_and v clr) set,
  bit_ext _ _ λ i. omega (
    arith,
    bit-bit_and (bit_or (bit_and v clr) set) clr i,
    bit-bit_or (bit_and v clr) set i,
    bit-bit_and v clr i,
    consistent i,
  ),
)
  where
    consistent : (i : ℕ) → bit set i ≡ min (bit set i) (bit clr i)
    consistent i = ap (λ (t : ℕ). bit t i) (sym h) ∙ bit-bit_and set clr i

-- With another bit that may be set.
pub Fixed-more :
    (set clr v b : ℕ)
    → bit_and b clr ≡ b
    → Fixed set clr v
    → Fixed set clr (bit_or v b) × (bit_and (bit_or v b) b ≡ b)
Fixed-more set clr v b h (has, within) = (
  (
    bit_ext _ _ λ i. omega (arith, bit-bit_and (bit_or v b) set i, bit-bit_or v b i, has_bit i),
    bit_ext _ _
        λ i. omega (arith, bit-bit_and (bit_or v b) clr i, bit-bit_or v b i, within_bit i, may i),
  ),
  bit_and-bit_or v b,
)
  where
    has_bit : (i : ℕ) → bit set i ≡ min (bit v i) (bit set i)
    has_bit i = ap (λ (t : ℕ). bit t i) (sym has) ∙ bit-bit_and v set i

    within_bit : (i : ℕ) → bit v i ≡ min (bit v i) (bit clr i)
    within_bit i = ap (λ (t : ℕ). bit t i) (sym within) ∙ bit-bit_and v clr i

    may : (i : ℕ) → bit b i ≡ min (bit b i) (bit clr i)
    may i = ap (λ (t : ℕ). bit t i) (sym h) ∙ bit-bit_and b clr i

-- The pages that a free list begins with are taken and cleared.
pub new_page_lem :
    (s : Pages) (q : ℕ) (xs : List ℕ)
    → IsFree s (q ∷ xs)
    → Spare unowned (q ∷ xs)
    → (new_page s ≡ (q, record { mem = zero_page q s.mem; freelist = s.mem q }))
      × IsFree (record { mem = zero_page q s.mem; freelist = s.mem q }) xs
unfolding new_page
new_page_lem s q xs f sp =
    let (taken, nz, rest) = alloc_page_first s q xs f in
    (rw taken refl, (root-IsMapped s q xs f sp).free)

-- A first word that is written into such a page.
pub stamped_page_lem :
    (s : Pages) (q v : ℕ) (xs : List ℕ)
    → IsFree s (q ∷ xs)
    → Spare unowned (q ∷ xs)
    → IsFree (record { mem = write_word q v (zero_page q s.mem); freelist = s.mem q }) xs
stamped_page_lem s q v xs f sp =
    let (run, free) = new_page_lem s q xs f sp in
    let mem1 = zero_page q s.mem in
    record {
      chain =
          Chain-frame mem1 (write_word q v mem1) (s.mem q) xs
            (SameAt-write_word q v mem1 xs f.distinct.0) free.chain;
      distinct = f.distinct.1;
    }

-- What the registers promise: what must be set may be set, and VMX may be enabled.
pub record FixedAgree (s : VmxState) : Type 0 where
  pub cr0 : bit_and (s.msr 0x486) (s.msr 0x487) ≡ s.msr 0x486
  pub cr4 : bit_and (s.msr 0x488) (s.msr 0x489) ≡ s.msr 0x488
  pub vmxe : bit_and cr4_vmxe (s.msr 0x489) ≡ cr4_vmxe

-- The memory behind `init_vmx`, with the revision `rev`.
abbrev pub regions : ℕ → ℕ → ℕ → ℕ → Memory → Memory
regions v g g' rev mem = zero_page g' (zero_page g (write_word v rev (zero_page v mem)))

regions_words :
    (v g g' rev a : ℕ) (mem : Memory)
    → v % 2 ^ 12 ≡ 0
    → g % 2 ^ 12 ≡ 0
    → g' % 2 ^ 12 ≡ 0
    → v ≢ g
    → v ≢ g'
    → g ≢ g'
    → a < 2 ^ 12
    → (regions v g g' rev mem (v + a) ≡ (if a == 0 then rev else 0))
      × (regions v g g' rev mem (g + a) ≡ 0)
      × (regions v g g' rev mem (g' + a) ≡ 0)
regions_words v g g' rev a mem v0 g0 g0' vg vg' gg' lt = (ground arith, ground arith, ground arith)

init_vmx_run :
    (s : VmxState) (v g g' : ℕ) (xs : List ℕ)
    → IsFree s.pages (v ∷ g ∷ g' ∷ xs)
    → Spare unowned (v ∷ g ∷ g' ∷ xs)
    → ((init_vmx s).vmxon_region ≡ v)
      × ((init_vmx s).guest_stack ≡ g)
      × ((init_vmx s).guest_syscall_stack ≡ g')
      × ((init_vmx s).pages.mem ≡ regions v g g' (s.msr 0x480 % 2 ^ 32) s.pages.mem)
      × IsFree (init_vmx s).pages xs
unfolding init_vmx read_capabilities
init_vmx_run s v g g' xs f sp =
    let (run, free) = new_page_lem s.pages v (g ∷ g' ∷ xs) f sp in
    let rev = s.msr 0x480 % 2 ^ 32 in
    let mem1 = zero_page v s.pages.mem in
    let p1 : Pages = record { mem = write_word v rev mem1; freelist = s.pages.mem v } in
    let free1 = stamped_page_lem s.pages v rev (g ∷ g' ∷ xs) f sp in
    let (run2, free2) = new_page_lem p1 g (g' ∷ xs) free1 sp.3 in
    let (run3, free3) =
      new_page_lem (record { mem = zero_page g p1.mem; freelist = p1.mem g }) g' xs free2 sp.3.3 in
    rw (run, run2, run3) (refl, refl, refl, refl, free3)

init_vmx_cr :
    (s : VmxState)
    → ((init_vmx s).cr0 ≡ bit_or (bit_and s.cr0 (s.msr 0x487)) (s.msr 0x486))
      × ((init_vmx s).cr4 ≡ bit_or (bit_or (bit_and s.cr4 (s.msr 0x489)) (s.msr 0x488)) cr4_vmxe)
unfolding init_vmx read_capabilities
init_vmx_cr s = (refl, refl)

-- When the registers that tell which bits of CR0 and CR4 are fixed agree and allow VMX to be enabled,
-- `init_vmx` with three pages `v`, `g` and `g'` at the head of the free list leaves CR0 and CR4 as
-- VMX demands, with VMX enabled in CR4. The first page becomes the VMXON region, which is the
-- revision of the processor and zeros; the others are the two stacks of the guest, cleared. The
-- other free pages stay free.
pub init_vmx_lem :
    (s : VmxState) (v g g' a : ℕ) (xs : List ℕ)
    → FixedAgree s
    → IsFree s.pages (v ∷ g ∷ g' ∷ xs)
    → Spare unowned (v ∷ g ∷ g' ∷ xs)
    → a < 2 ^ 12
    → Fixed (s.msr 0x486) (s.msr 0x487) (init_vmx s).cr0
      × Fixed (s.msr 0x488) (s.msr 0x489) (init_vmx s).cr4
      × (bit_and (init_vmx s).cr4 cr4_vmxe ≡ cr4_vmxe)
      × ((init_vmx s).vmxon_region ≡ v)
      × ((init_vmx s).guest_stack ≡ g)
      × ((init_vmx s).guest_syscall_stack ≡ g')
      × ((init_vmx s).pages.mem (v + a) ≡ (if a == 0 then s.msr 0x480 % 2 ^ 32 else 0))
      × ((init_vmx s).pages.mem (g + a) ≡ 0)
      × ((init_vmx s).pages.mem (g' + a) ≡ 0)
      × IsFree (init_vmx s).pages xs
init_vmx_lem s v g g' a xs ag f sp lt =
    let (e0, e4) = init_vmx_cr s in
    let (ev, eg, eg', em, free) = init_vmx_run s v g g' xs f sp in
    let (wv, wg, wg') =
      regions_words v g g' (s.msr 0x480 % 2 ^ 32) a s.pages.mem sp.1 sp.3.1 sp.3.3.1 f.distinct.0.0
        f.distinct.0.1.0 f.distinct.1.0.0 lt in
    let (cr4, on) =
      Fixed-more (s.msr 0x488) (s.msr 0x489) _ cr4_vmxe ag.vmxe
        (Fixed-or (s.msr 0x488) (s.msr 0x489) s.cr4 ag.cr4) in
    (
      subst (λ x. Fixed (s.msr 0x486) (s.msr 0x487) x) (sym e0)
          (Fixed-or (s.msr 0x486) (s.msr 0x487) s.cr0 ag.cr0),
      subst (λ x. Fixed (s.msr 0x488) (s.msr 0x489) x) (sym e4) cr4,
      ap (λ x. bit_and x cr4_vmxe) e4 ∙ on,
      ev,
      eg,
      eg',
      ap (λ (m : Memory). m (v + a)) em ∙ wv,
      ap (λ (m : Memory). m (g + a)) em ∙ wg,
      ap (λ (m : Memory). m (g' + a)) em ∙ wg',
      free,
    )
