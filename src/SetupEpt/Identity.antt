-- ===== src/SetupEpt/Identity.antt =====
-- What `setup_ept` leaves: the pointer, the controls and the map of the guest's memory.
use asor.Base.{
  ℕ, ◌+◌, ◌*◌, ◌/◌, ◌%◌, ◌^◌, ◌≤◌, ◌<◌, ◌≡◌, ◌≢◌, ◌⊎◌, refl, ap, sym, ◌∙◌, inl, inr, Bool, true,
  false, not, ◌&&◌, ◌||◌, none, some, List, ◌∷◌, length, ltb, ◌==◌, if◌then◌else◌, Bool-cases,
  bit_and, bit_or, arith,
}
use asor.Base.Bits.{bit_or_comm, bit_or_sum, bit_or_assoc}
use asor.Memory.{zero_page}
use asor.PageAlloc.{Pages, alloc_page}
use asor.PageAlloc.Chain.{IsFree, alloc_page_first}
use asor.Vmcs.{Setup, write_all}
use asor.Vmcs.Encoding.{cpu_exec_ctrl0, cpu_exec_ctrl1}
use asor.Ept.{setup_ept_range}
use asor.Ept.Walk.{translate}
use asor.Ept.Access.{access, rights, access-leaf}
use asor.Ept.Install.{below_top}
use asor.Ept.Tables.{Spare}
use asor.Ept.Identity.{ident}
use asor.Ept.Setup.{table_room, setup_ept_range_lem}
use asor.SetupEpt.{
  EptState, ept_missing, wb_missing, pwl4_missing, eptp_field, cpu_secondary, cpu_ept, ept_cap_wb,
  ept_cap_pwl4, eptp_value, write_eptp, ept_2m_supported, setup_eptp, end_of_memory, setup_ept,
}
use asor.SetupEpt.Root.{
  unowned, root_at, root-IsMapped, root-AllAllow, root_owner_at, translate-root,
}

-- The processor can walk tables of four levels in write-back memory.
pub record HasEpt (s : EptState) : Type 0 where
  pub secondary : bit_and s.setup.ctrl_cpu_rev_0.clr cpu_secondary ≢ 0
  pub ept : bit_and s.setup.ctrl_cpu_rev_1.clr cpu_ept ≢ 0
  pub wb : bit_and s.ept_vpid ept_cap_wb ≢ 0
  pub pwl4 : bit_and s.ept_vpid ept_cap_pwl4 ≢ 0

-- A field of the VMCS behind `__setup_ept`.
abbrev pub field_after : ℕ → Setup → ℕ → ℕ
field_after eptp s e =
    if e == eptp_field
    then eptp
    else if e == cpu_exec_ctrl0
    then bit_or (s.vmcs e) cpu_secondary
    else if e == cpu_exec_ctrl1
    then bit_or (s.vmcs e) cpu_ept
    else s.vmcs e

write_eptp_field : (eptp e : ℕ) (s : Setup) → (write_eptp eptp s).vmcs e ≡ field_after eptp s e
unfolding write_eptp write_all
write_eptp_field eptp e s = ground arith

-- The pointer is the root with a walk of four levels in write-back memory.
pub eptp_value_sum :
    (q : ℕ) (ad : Bool) → q % 2 ^ 12 ≡ 0 → eptp_value q ad ≡ q + (if ad then 94 else 30)
eptp_value_sum q true al =
    let e : q / 2 ^ 12 * 2 ^ 12 ≡ q = omega arith in
    ap (λ x. bit_or x 64) (bit_or_comm 30 q)
    ∙ bit_or_assoc q 30 64
    ∙ ap (λ x. bit_or x 94) (sym e)
    ∙ bit_or_sum 12 (q / 2 ^ 12) 94 (omega arith)
    ∙ omega (arith, e)
eptp_value_sum q false al =
    let e : q / 2 ^ 12 * 2 ^ 12 ≡ q = omega arith in
    bit_or_comm 30 q
    ∙ ap (λ x. bit_or x 30) (sym e)
    ∙ bit_or_sum 12 (q / 2 ^ 12) 30 (omega arith)
    ∙ omega (arith, e)

-- On a processor with EPT, `__setup_ept` succeeds.
setup_eptp_run :
    (q : ℕ) (ad : Bool) (s : EptState)
    → HasEpt s
    → setup_eptp q ad s
      ≡ (0, record s { eptp = eptp_value q ad; setup = write_eptp (eptp_value q ad) s.setup })
unfolding setup_eptp
setup_eptp_run q ad s h =
    let e1 : (bit_and s.setup.ctrl_cpu_rev_0.clr cpu_secondary == 0) ≡ false =
      ground (arith, h.secondary) in
    let e2 : (bit_and s.setup.ctrl_cpu_rev_1.clr cpu_ept == 0) ≡ false = ground (arith, h.ept) in
    let e3 : (bit_and s.ept_vpid ept_cap_wb == 0) ≡ false = ground (arith, h.wb) in
    let e4 : (bit_and s.ept_vpid ept_cap_pwl4 == 0) ≡ false = ground (arith, h.pwl4) in
    rw (e1, e2, e3, e4) refl

-- The state behind a successful `__setup_ept` with the root `q`.
abbrev pub pointed : ℕ → Bool → EptState → EptState
pointed q ad s = record s {
  pml4 = q;
  pages = record { mem = s.pages.mem; freelist = s.pages.mem q };
  eptp = eptp_value q ad;
  setup = write_eptp (eptp_value q ad) s.setup;
}

setup_ept_run :
    (fuel ram_size q phys : ℕ) (xs : List ℕ) (ad : Bool) (s : EptState) (pages' : Pages)
    → HasEpt s
    → alloc_page s.pages ≡ (q, record { mem = s.pages.mem; freelist = s.pages.mem q })
    → setup_ept_range fuel q 0
        (end_of_memory ram_size)
        false
        (not ad && ept_2m_supported s)
        7
        (record { mem = zero_page q s.pages.mem; freelist = s.pages.mem q })
      ≡ some (phys, pages')
    → setup_ept fuel ram_size ad s ≡ some (0, record (pointed q ad s) { pages = pages' })
unfolding setup_ept ept_2m_supported
setup_ept_run fuel ram_size q phys xs ad s pages' h taken mapped =
    rw
      (
        taken,
        setup_eptp_run q ad
            (record s { pml4 = q; pages = record { mem = s.pages.mem; freelist = s.pages.mem q } })
            (record { secondary = h.secondary; ept = h.ept; wb = h.wb; pwl4 = h.pwl4 }),
        mapped,
      )
      refl

-- What a successful `setup_ept` with the root `q` leaves, as it translates the address `ga`.
pub record EptEnabled (q ram_size ga : ℕ) (ad : Bool) (s s' : EptState) : Type 0 where
  pub root : s'.pml4 ≡ q
  pub pointer : s'.eptp ≡ q + (if ad then 94 else 30)
  pub fields : (e : ℕ) → s'.setup.vmcs e ≡ field_after (q + (if ad then 94 else 30)) s.setup e
  pub map :
      translate 3 s'.pages.mem s'.pml4 ga
      ≡ (if ltb ga (end_of_memory ram_size) then some (ident 7 ga) else none)
  pub allowed :
      access 3 s'.pages.mem s'.pml4 ga ≡ (if ltb ga (end_of_memory ram_size) then 7 else 0)

-- What the map says of permissions.
pub ident-rights :
    (ga : ℕ) (near : Bool)
    → rights (if near then some (ident 7 ga) else none) ≡ (if near then 7 else 0)
ident-rights ga true = refl
ident-rights ga false = refl

pub setup_ept-EptEnabled :
    (fuel ram_size q ga : ℕ) (xs : List ℕ) (ad : Bool) (s : EptState)
    → HasEpt s
    → IsFree s.pages (q ∷ xs)
    → Spare unowned (q ∷ xs)
    → ram_size % 2 ^ 12 ≡ 0
    → ram_size ≤ 2 ^ 48
    → end_of_memory ram_size / 2 ^ 12 < fuel
    → table_room (end_of_memory ram_size) ≤ length xs
    → ga < 2 ^ 48
    → (s' : EptState) × (setup_ept fuel ram_size ad s ≡ some (0, s'))
      × EptEnabled q ram_size ga ad s s'
setup_ept-EptEnabled fuel ram_size q ga xs ad s h f (un, al, lo, sp) whole small hf room hga =
    let (taken, nz, rest) = alloc_page_first s.pages q xs f in
    let (pages', owner', xs', run, mapped, root, left, same, all, exact, granted) =
      setup_ept_range_lem fuel q (end_of_memory ram_size) 7 ga false (not ad && ept_2m_supported s)
        (record { mem = zero_page q s.pages.mem; freelist = s.pages.mem q }) (root_at q) xs
        (ground arith) (ground arith) hga (omega arith) (omega arith) hf room
        (root-IsMapped s.pages q xs f (un, al, lo, sp)) (root_owner_at q)
        (root-AllAllow 7 q s.pages.mem) in
    let map : translate 3 pages'.mem q ga
        ≡ (if ltb ga (end_of_memory ram_size) then some (ident 7 ga) else none) =
      same
      ∙ ap (λ o. if ltb ga (end_of_memory ram_size) then some (ident 7 ga) else o)
          (translate-root q ga s.pages.mem) in
    (
      record (pointed q ad s) { pages = pages' },
      setup_ept_run fuel ram_size q _ xs ad s pages' h taken run,
      record {
        root = refl;
        pointer = eptp_value_sum q ad al;
        fields = λ e.
            write_eptp_field (eptp_value q ad) e s.setup
            ∙ ap (λ v. field_after v s.setup e) (eptp_value_sum q ad al);
        map = map;
        allowed =
            access-leaf 3 q 0 ga pages'.mem owner' mapped.tables all root (below_top ga hga)
            ∙ ap rights map
            ∙ ident-rights ga (ltb ga (end_of_memory ram_size));
      },
    )

-- `setup_ept` on a processor with EPT, with the page `q` at the head of the free list, at least
-- three more pages for each 2 MB to be mapped, and nine, a memory of a whole number of pages and at
-- most 2^48 bytes, and more fuel than pages, returns 0. The root is `q`, and the EPT pointer holds
-- its address with a walk of four levels in write-back memory, and the flag for accessed and dirty
-- bits if asked for; the controls have EPT switched on, and no other field of the VMCS changes. The
-- tables map every address of the memory, of which there are at least 4 GB, to itself with all
-- permissions, which all the entries on the way to it leave together, and no other address of 48
-- bits.
pub setup_ept_lem :
    (fuel ram_size q ga e : ℕ) (xs : List ℕ) (ad : Bool) (s : EptState)
    → HasEpt s
    → IsFree s.pages (q ∷ xs)
    → Spare unowned (q ∷ xs)
    → ram_size % 2 ^ 12 ≡ 0
    → ram_size ≤ 2 ^ 48
    → end_of_memory ram_size / 2 ^ 12 < fuel
    → table_room (end_of_memory ram_size) ≤ length xs
    → ga < 2 ^ 48
    → (s' : EptState) × (setup_ept fuel ram_size ad s ≡ some (0, s'))
      × (s'.pml4 ≡ q)
      × (s'.eptp ≡ q + (if ad then 94 else 30))
      × (s'.setup.vmcs e ≡ field_after (q + (if ad then 94 else 30)) s.setup e)
      × (translate 3 s'.pages.mem s'.pml4 ga
          ≡ (if ltb ga (end_of_memory ram_size) then some (ident 7 ga) else none))
      × (access 3 s'.pages.mem s'.pml4 ga ≡ (if ltb ga (end_of_memory ram_size) then 7 else 0))
setup_ept_lem fuel ram_size q ga e xs ad s h f sp whole small hf room hga =
    let (s', run, on) =
      setup_ept-EptEnabled fuel ram_size q ga xs ad s h f sp whole small hf room hga in
    (s', run, on.root, on.pointer, on.fields e, on.map, on.allowed)

-- The processor misses something that the tables need.
abbrev pub LacksEpt : EptState → Type 0
LacksEpt s =
    (bit_and s.setup.ctrl_cpu_rev_0.clr cpu_secondary ≡ 0)
    ⊎ (bit_and s.setup.ctrl_cpu_rev_1.clr cpu_ept ≡ 0)
    ⊎ (bit_and s.ept_vpid ept_cap_wb ≡ 0)
    ⊎ (bit_and s.ept_vpid ept_cap_pwl4 ≡ 0)

abbrev Refused : EptState → ℕ × EptState → Type 0
Refused s r =
    (s' : EptState) × (r ≡ (1, s'))
    × (s'.setup ≡ s.setup)
    × (s'.eptp ≡ s.eptp)
    × (s'.pages ≡ s.pages)

setup_eptp-Refused : (q : ℕ) (ad : Bool) (s : EptState) → LacksEpt s → Refused s (setup_eptp q ad s)
unfolding setup_eptp
setup_eptp-Refused q ad s bad =
    elim (Bool-cases (
      bit_and s.setup.ctrl_cpu_rev_0.clr cpu_secondary == 0
      || bit_and s.setup.ctrl_cpu_rev_1.clr cpu_ept == 0)) [
        | inl y ↦ (record s { printed = ept_missing ∷ s.printed }, rw y refl, refl, refl, refl)
        | inr n1 ↦ elim (Bool-cases (bit_and s.ept_vpid ept_cap_wb == 0)) [
          | inl y ↦
              (record s { printed = wb_missing ∷ s.printed }, rw (n1, y) refl, refl, refl, refl)
          | inr n2 ↦ elim (Bool-cases (bit_and s.ept_vpid ept_cap_pwl4 == 0)) [
            | inl y ↦ (
              record s { printed = pwl4_missing ∷ s.printed },
              rw (n1, n2, y) refl,
              refl,
              refl,
              refl,
            )
            | inr n3 ↦ absurd (ground arith)
          ]
        ]
      ]

-- When the processor misses the secondary controls, EPT, write-back memory for the tables, or walks
-- of four levels, `setup_ept` returns 1. It changes neither a field of the VMCS nor the pointer; the
-- page for the root stays taken.
pub setup_ept-refused :
    (fuel ram_size : ℕ) (ad : Bool) (s : EptState)
    → LacksEpt s
    → (s' : EptState) × (setup_ept fuel ram_size ad s ≡ some (1, s'))
      × (s'.setup ≡ s.setup)
      × (s'.eptp ≡ s.eptp)
      × (s'.pages ≡ (alloc_page s.pages).1)
unfolding setup_ept
setup_ept-refused fuel ram_size ad s bad =
    let r = alloc_page s.pages in
    let (s', run, fields, pointer, pages) =
      setup_eptp-Refused (r.0) ad (record s { pml4 = r.0; pages = r.1 }) bad in
    (s', rw run refl, fields, pointer, pages)
