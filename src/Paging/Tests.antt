-- ===== src/Paging/Tests.antt =====
-- Runs of lib/x86/vm.c.
use asor.Base.{
  ℕ, ◌+◌, ◌*◌, ◌/◌, ◌%◌, ◌^◌, ◌≤◌, ◌<◌, ◌≡◌, ◌≢◌, ◌⊎◌, refl, ap, sym, ◌∙◌, inl, inr, true, false,
  Option, none, some, List, [], length, ltb, ◌==◌, if◌then◌else◌, arith, bit_and,
}
use native.Mathlib.Decide.{ℕ_discrete}
use asor.Memory.{Memory, page_size, zero_page}
use asor.PageAlloc.{Pages}
use asor.Ept.Walk.{span, present, large, addr, translate, leaf}
use asor.Ept.Access.{access, rights, AllAllow}
use asor.Ept.Range.{ident-Grants}
use asor.Ept.Tables.{Owner, IsTable, Tables, IsMapped}
use asor.Ept.Final.{leaf?}
use asor.Ept.Identity.{ident, ident_entry, ident-IsLeaf}
use asor.SetupEpt.Root.{root_at, root-IsMapped, root-AllAllow, root_owner_at, translate-root}
use asor.SetupEpt.Line.{linked, free_run, free_run-Spare, length-free_run, linked-IsFree}
use asor.Paging.{
  Mmu, install_pte, find_loop, find_pte_level, found_huge_pte, found_leaf_pte, get_pte,
  virt_to_pte_phys, setup_mmu, split_large_page,
}
use asor.Paging.Directory.{AllPlain}
use asor.Paging.Install.{install_pte_lem}
use asor.Paging.Setup.{Running, root-Fresh, setup_mmu_lem}
use asor.Ept.{split_large_ept_entry}
use asor.Paging.Split.{SameWords, split_large_page_lem}
use asor.Paging.Search.{get_pte_lem, virt_to_pte_phys_lem}

-- A gigabyte from 0 on is one page; the tables are at 4096 and 8192.
abbrev gigabyte : Memory
gigabyte a = if a == 4096 then 8192 + 7 else if a == 8192 then 128 + 7 else 0

abbrev owners : Owner
owners p = if p == 4096 then some (3, 0) else if p == 8192 then some (2, 0) else none

at_root : (i : ℕ) → i < 512 → (i ≡ 0) ⊎ (gigabyte (4096 + 8 * i) ≡ 0)
at_root i h = elim (ℕ_discrete i 0) [ yes z ↦ inl z | no n ↦ inr (ground arith) ]

at_below : (i : ℕ) → i < 512 → (i ≡ 0) ⊎ (gigabyte (8192 + 8 * i) ≡ 0)
at_below i h = elim (ℕ_discrete i 0) [ yes z ↦ inl z | no n ↦ inr (ground arith) ]

nothing_there : (a : ℕ) → gigabyte a ≡ 0 → present (gigabyte a) ≡ true → ⊥
nothing_there a e there = let bad : false ≡ true = sym (ap present e) ∙ there in cc

Tables-root : IsTable gigabyte owners 4096 3 0
Tables-root = record {
  aligned = refl;
  low = omega arith;
  level = omega arith;
  child = λ i k h e there small. elim (at_root i h) [
    | inl z ↦ let ek : k ≡ 2 = omega arith in rw (z, ek) refl
    | inr e ↦ absurd (nothing_there (4096 + 8 * i) e there)
  ];
  big = λ i h there big. elim (at_root i h) [
    | inl z ↦
        let bad : false ≡ true = ap (λ (j : ℕ). large (gigabyte (4096 + 8 * j))) (sym z) ∙ big in
        absurd cc
    | inr e ↦ absurd (nothing_there (4096 + 8 * i) e there)
  ];
}

Tables-below : IsTable gigabyte owners 8192 2 0
unfolding span
Tables-below = record {
  aligned = refl;
  low = omega arith;
  level = omega arith;
  child = λ i k h e there small. elim (at_below i h) [
    | inl z ↦
        let bad : true ≡ false = ap (λ (j : ℕ). large (gigabyte (8192 + 8 * j))) (sym z) ∙ small in
        absurd cc
    | inr e ↦ absurd (nothing_there (8192 + 8 * i) e there)
  ];
  big = λ i h there big. elim (at_below i h) [
    | inl z ↦ (omega arith, rw z refl)
    | inr e ↦ absurd (nothing_there (8192 + 8 * i) e there)
  ];
}

owned :
    (p l pre : ℕ)
    → owners p ≡ some (l, pre)
    → ((p ≡ 4096) × (l ≡ 3) × (pre ≡ 0)) ⊎ ((p ≡ 8192) × (l ≡ 2) × (pre ≡ 0))
owned p l pre o = elim (ℕ_discrete p 4096) [
  | yes e ↦
      let v : ◌≡◌ {A = Option (ℕ × ℕ)} (some (3, 0)) (some (l, pre)) = ap owners (sym e) ∙ o in
      inl (e, cc, cc)
  | no n ↦ elim (ℕ_discrete p 8192) [
    | yes e ↦
        let v : ◌≡◌ {A = Option (ℕ × ℕ)} (some (2, 0)) (some (l, pre)) = ap owners (sym e) ∙ o in
        inr (e, cc, cc)
    | no n' ↦
        let v : owners p ≡ none = ground arith in
        let bad : ◌≡◌ {A = Option (ℕ × ℕ)} none (some (l, pre)) = sym v ∙ o in absurd cc
  ]
]

gigabyte-Tables : Tables gigabyte owners
gigabyte-Tables p l pre o = elim (owned p l pre o) [
  | inl (ep, el, epre) ↦ rw (ep, el, epre) Tables-root
  | inr (ep, el, epre) ↦ rw (ep, el, epre) Tables-below
]

gigabyte-AllPlain : AllPlain gigabyte owners
gigabyte-AllPlain p l pre i o h = elim (owned p l pre o) [
  | inl (ep, el, epre) ↦
      rw ep (elim (at_root i h) [ inl z ↦ rw z (inr refl) | inr e ↦ rw e (inl refl) ])
  | inr (ep, el, epre) ↦
      rw ep (elim (at_below i h) [ inl z ↦ rw z (inr refl) | inr e ↦ rw e (inl refl) ])
]

get_pte_example :
    (p : ℕ) × (get_pte 4096 0x12345 gigabyte ≡ some p)
    × (((translate 3 gigabyte 4096 0x12345 ≡ none) × ((p ≡ 0) ⊎ (present (gigabyte p) ≡ false)))
        ⊎ ((k : ℕ) × (k < 3)
            × (p ≢ 0)
            × (present (gigabyte p) ≡ true)
            × (translate 3 gigabyte 4096 0x12345 ≡ some (leaf k (gigabyte p) 0x12345))))
get_pte_example =
    get_pte_lem 4096 0x12345 gigabyte owners gigabyte-Tables gigabyte-AllPlain refl refl
      (omega arith)

in_gigabyte : translate 3 gigabyte 4096 0x12345 ≡ some (ident 7 0x12345)
unfolding translate span
in_gigabyte = refl

-- The entry is one of level 3, so that the bits 12 to 29 of the address are lost.
virt_to_pte_phys_example :
    (k p : ℕ) × (get_pte 4096 0x12345 gigabyte ≡ some p)
    × (k < 3)
    × (ident 7 0x12345 ≡ leaf k (gigabyte p) 0x12345)
    × (virt_to_pte_phys 4096 0x12345 gigabyte ≡ some (addr (gigabyte p) + 0x12345 % 2 ^ 12))
    × ((k ≢ 0) ⊎ (addr (gigabyte p) + 0x12345 % 2 ^ 12 ≡ 0x12345))
virt_to_pte_phys_example =
    virt_to_pte_phys_lem 4096 0x12345 gigabyte owners (ident 7 0x12345) gigabyte-Tables
      gigabyte-AllPlain refl refl (omega arith) in_gigabyte

bits_lost : virt_to_pte_phys 4096 0x12345 gigabyte ≡ some 0x345
unfolding virt_to_pte_phys get_pte find_pte_level find_loop found_leaf_pte found_huge_pte
bits_lost = refl

-- An empty root at 4096, and three free pages behind it.
abbrev few : Pages
few = record { mem = linked 16384; freelist = 4096 }

abbrev empty : Pages
empty = record { mem = zero_page 4096 few.mem; freelist = few.mem 4096 }

empty-IsMapped : IsMapped empty (root_at 4096) (free_run 8192 3)
empty-IsMapped =
    root-IsMapped few 4096 (free_run 8192 3) (linked-IsFree 3 4096 16384 (omega arith) refl)
      (refl, refl, omega arith, free_run-Spare 3 8192 refl (omega arith))

install_pte_example :
    (a : ℕ) × (s' : Pages) × (owner' : Owner) × (xs' : List ℕ) × (install_pte 4096 1 0x5000
        (ident_entry 0 0x9000 7)
        0
        empty
      ≡ (a, s'))
    × (s'.mem a ≡ ident_entry 0 0x9000 7)
    × IsMapped s' owner' xs'
    × AllPlain s'.mem owner'
    × (owner' 4096 ≡ some (3, 0))
    × (length (free_run 8192 3) ≤ length xs' + 3)
    × (translate 3 s'.mem 4096 0x5008 ≡ (
        if 0x5008 / span 0 == 0x5000 / span 0
        then leaf? 0 (ident_entry 0 0x9000 7) 0x5008
        else translate 3 empty.mem 4096 0x5008))
    × AllAllow 7 s'.mem owner'
    × (bit_and (access 3 s'.mem 4096 0x5008) 7
        ≡ bit_and
            (rights (
              if 0x5008 / span 0 == 0x5000 / span 0
              then leaf? 0 (ident_entry 0 0x9000 7) 0x5008
              else translate 3 empty.mem 4096 0x5008))
            7)
unfolding span
install_pte_example =
    install_pte_lem 0 4096 0x5000 (ident_entry 0 0x9000 7) 7 0x5008 empty (root_at 4096)
      (free_run 8192 3) (omega arith) (omega (arith, length-free_run 3 8192)) empty-IsMapped
      (root_owner_at 4096) (omega arith)
      (ident-IsLeaf 0x9000 7 (omega arith) (omega arith) (omega arith) 0 (omega arith) refl)
      (inr refl) ((root-Fresh 4096 few).plain) (translate-root 4096 0x5000 few.mem) (omega arith)
      (ident-Grants 0 0x9000 7 (omega arith)) (root-AllAllow 7 4096 few.mem) (omega arith)

-- The pages behind the root are enough for 4 GB.
abbrev many : ℕ
many = 4096 + 3 * 2051 * page_size

abbrev boot : Mmu
boot = record {
  pages = record { mem = linked many; freelist = 4096 };
  cr0 = 0x11;
  cr3 = 0;
  cr4 = 0x20;
  printed = [];
}

setup_mmu_example :
    (m' : Mmu) × (owner : Owner) × (xs' : List ℕ) × (setup_mmu (2 ^ 21) (2 ^ 27) boot
      ≡ some (4096, m'))
    × Running 4096 (2 ^ 32) boot m' owner xs'
    × (length (free_run 8192 (3 * 2051)) ≤ length xs' + 18)
    × (translate 3 m'.pages.mem 4096 0xfee00000
        ≡ (if ltb 0xfee00000 (2 ^ 32) then some (ident 7 0xfee00000) else none))
    × (access 3 m'.pages.mem 4096 0xfee00000 ≡ (if ltb 0xfee00000 (2 ^ 32) then 7 else 0))
setup_mmu_example =
    setup_mmu_lem (2 ^ 21) (2 ^ 27) 4096 0xfee00000 boot (free_run 8192 (3 * 2051))
      (linked-IsFree (3 * 2051) 4096 many (omega arith) refl)
      (refl, refl, omega arith, free_run-Spare (3 * 2051) 8192 refl (omega arith)) refl
      (omega arith) (omega arith) (omega (arith, length-free_run (3 * 2051) 8192)) (omega arith)

-- A 2 MB page is split into a free page.
abbrev big_page : Pages
big_page = record { mem = λ a. if a == 4096 then 0x40000087 else 0; freelist = 8192 }

split_large_page_example :
    SameWords (split_large_page 4096 2 big_page) (split_large_ept_entry 4096 2 big_page)
split_large_page_example = split_large_page_lem 4096 2 big_page (inr refl) refl
