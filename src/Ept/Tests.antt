-- ===== src/Ept/Tests.antt =====
-- Runs of x86/ept.c.
use asor.SetupEpt.Line.{linked, free_run, free_run-Spare, length-free_run, linked-IsFree}
use asor.SetupEpt.Root.{root_at, root-IsMapped, root-AllAllow, root_owner_at}
use asor.Memory.{zero_page}
use asor.Base.{
  ℕ, ◌+◌, ◌*◌, ◌/◌, ◌%◌, ◌^◌, ◌≤◌, ◌<◌, ◌≡◌, refl, ap, sym, ◌∙◌, inl, inr, true, false, Option,
  none, some, List, [], ◌∷◌, length, ◌==◌, if◌then◌else◌, Bool-cases, arith, subst, bit_and,
}
use asor.PageAlloc.{Pages}
use asor.Ept.{install_ept_entry}
use asor.Ept.Walk.{span, present, translate}
use asor.Ept.Access.{access, rights, AllAllow}
use asor.Ept.Range.{ident-Grants}
use asor.Ept.Tables.{Owner, IsTable, IsMapped}
use asor.Ept.Final.{leaf?}
use asor.Ept.Install.{install_ept_entry_lem}
use asor.Ept.Identity.{ident_entry, ident-IsLeaf}
use asor.Ept.Setup.{Identity, setup_ept_range_lem}

-- An empty root table at 0x1000, and free pages at 0x2000, 0x3000 and 0x4000.
abbrev empty : Pages
empty = record {
  mem = λ a. if a == 8192 then 12288 else if a == 12288 then 16384 else 0;
  freelist = 8192;
}

abbrev free_list : List ℕ
free_list = 8192 ∷ 12288 ∷ 16384 ∷ []

abbrev root_only : Owner
root_only p = if p == 4096 then some (3, 0) else none

root_word : (p l pre : ℕ) → root_only p ≡ some (l, pre) → (p ≡ 4096) × (l ≡ 3) × (pre ≡ 0)
root_word p l pre h = elim (Bool-cases (p == 4096)) [
  | inl at ↦
      let at' : 4096 ≡ p = ground arith in
      let e : root_only 4096 ≡ some (l, pre) = ap root_only at' ∙ h in (ground arith, cc, cc)
  | inr off ↦ absurd (none_some (rw off at h))
]
  where
    none_some : ◌≡◌ {A = Option (ℕ × ℕ)} none (some (l, pre)) → ⊥
    none_some e = cc

nothing_there : (i : ℕ) → i < 512 → empty.mem (4096 + 8 * i) ≡ 0
nothing_there i h = ground arith

empty_slot : (i : ℕ) → i < 512 → present (empty.mem (4096 + 8 * i)) ≡ true → ⊥
empty_slot i h there =
    let bad : false ≡ true = sym (ap present (nothing_there i h)) ∙ there in ground arith

root-IsTable : IsTable empty.mem root_only 4096 3 0
root-IsTable = record {
  aligned = refl;
  low = omega arith;
  level = omega arith;
  child = λ i k h e there small. absurd (empty_slot i h there);
  big = λ i h there large. absurd (empty_slot i h there);
}

empty-IsMapped : IsMapped empty root_only free_list
empty-IsMapped = record {
  tables = λ p l pre h. let (ep, el, epre) = root_word p l pre h in rw (ep, el, epre) root-IsTable;
  free = record {
    chain = (refl, ground arith, (refl, ground arith, (refl, ground arith, refl)));
    distinct = ((ground arith, (ground arith, tt)), ((ground arith, tt), (tt, tt)));
  };
  spare = (refl, refl, omega arith, (refl, refl, omega arith, (refl, refl, omega arith, tt)));
}

-- One page of each size, with the tables in the free pages from 8192 on.
abbrev fresh : Pages
fresh = record { mem = linked (4096 + 1548 * 4096); freelist = 4096 }

abbrev cleared : Pages
cleared = record { mem = zero_page 4096 fresh.mem; freelist = fresh.mem 4096 }

setup_ept_range_example :
    Identity
      (2 ^ 19)
      4096
      (2 ^ 30 + 2 ^ 21 + 2 ^ 12)
      7
      (2 ^ 30 + 4660)
      true
      true
      cleared
      (free_run 8192 1548)
setup_ept_range_example =
    setup_ept_range_lem (2 ^ 19) 4096 (2 ^ 30 + 2 ^ 21 + 2 ^ 12) 7 (2 ^ 30 + 4660) true true cleared
      (root_at 4096) (free_run 8192 1548) refl (omega arith) (omega arith) (omega arith)
      (omega arith) (omega arith) (omega (arith, length-free_run 1548 8192))
      (root-IsMapped fresh 4096 (free_run 8192 1548)
        (linked-IsFree 1548 4096 (4096 + 1548 * 4096) (omega arith) refl)
        (refl, refl, omega arith, free_run-Spare 1548 8192 refl (omega arith)))
      (root_owner_at 4096) (root-AllAllow 7 4096 fresh.mem)

empty-AllAllow : AllAllow 7 empty.mem root_only
empty-AllAllow p l pre i o nz hi pr =
    let (ep, el, epre) = root_word p l pre o in
    absurd (empty_slot i hi (subst (λ (t : ℕ). present (empty.mem (t + 8 * i)) ≡ true) ep pr))

aligned : 2097152 % span 1 ≡ 0
unfolding span
aligned = refl

install_ept_entry_example :
    (s' : Pages) × (owner' : Owner) × (xs' : List ℕ) × (install_ept_entry 4096 2 2097152
        (ident_entry 1 2097152 7)
        0
        empty
      ≡ some s')
    × IsMapped s' owner' xs'
    × (owner' 4096 ≡ some (3, 0))
    × (3 ≤ length xs' + 3)
    × (translate 3 s'.mem 4096 2097157 ≡ (
        if 2097157 / span 1 == 2097152 / span 1
        then leaf? 1 (ident_entry 1 2097152 7) 2097157
        else translate 3 empty.mem 4096 2097157))
    × AllAllow 7 s'.mem owner'
    × (bit_and (access 3 s'.mem 4096 2097157) 7
        ≡ bit_and
            (rights (
              if 2097157 / span 1 == 2097152 / span 1
              then leaf? 1 (ident_entry 1 2097152 7) 2097157
              else translate 3 empty.mem 4096 2097157))
            7)
install_ept_entry_example =
    install_ept_entry_lem 1 4096 2097152 (ident_entry 1 2097152 7) 7 2097157 empty root_only
      free_list (omega arith) (omega arith) empty-IsMapped refl (omega arith)
      (ident-IsLeaf 2097152 7 (omega arith) (omega arith) (omega arith) 1 (omega arith) aligned)
      (omega arith) (ident-Grants 1 2097152 7 (omega arith)) empty-AllAllow (omega arith)
