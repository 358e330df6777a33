-- ===== src/Paging/Search.antt =====
-- `find_pte_level`, `get_pte` and `virt_to_pte_phys`: the walk of the code is the processor's.
use asor.Base.{
  ℕ, zero, suc, ◌+◌, ◌*◌, ◌/◌, ◌%◌, ◌^◌, ◌<◌, ◌≡◌, ◌≢◌, ◌⊎◌, refl, ap, sym, ◌∙◌, inl, inr, Bool,
  not, ◌||◌, true, false, Option, none, some, ◌==◌, Bool-cases, bit_and, arith,
}
use native.Mathlib.Decide.{ℕ_discrete}
use asor.Base.Bits.{bit_and_ones}
use asor.Memory.{Memory}
use asor.Ept.Walk.{
  span, present, large, addr, addr_lem, slot, translate, Leaf, leaf, entry_addr-slot,
}
use asor.Ept.Tables.{Owner, Tables, path_index}
use asor.Ept.Install.{below_top}
use asor.Ept.Descend.{translate_through, translate-leaf, translate_absent}
use asor.Paging.{
  PteSearch, pt_present_mask, pt_page_size_mask, find_loop, find_pte_level, found_huge_pte,
  found_leaf_pte, get_pte, virt_to_pte_phys,
}
use asor.Paging.Directory.{AllPlain, present_plain}

-- What is known of an entry that the walk ends at: nothing is mapped, and the entry is no leaf or
-- not present; or the entry is the leaf of a level.
abbrev pub Ends : ℕ → Memory → ℕ → ℕ → Bool → ℕ → Type 0
Ends l mem pt virt leaf? p =
    ((translate l mem pt virt ≡ none) × ((leaf? ≡ false) ⊎ (present (mem p) ≡ false)))
    ⊎ ((k : ℕ) × (k < 3)
        × (leaf? ≡ true)
        × (present (mem p) ≡ true)
        × (translate l mem pt virt ≡ some (leaf k (mem p) virt)))

abbrev Finds : ℕ → Memory → Owner → ℕ → ℕ → Type 0
Finds l mem owner pt virt =
    (r : PteSearch) × (find_loop (suc l) 1 pt virt mem ≡ some r)
    × Ends l mem pt virt (found_leaf_pte r mem) r.pte
    × ((p i k pre : ℕ) × (owner p ≡ some (k, pre)) × (p % 2 ^ 12 ≡ 0) × (r.pte ≡ p + 8 * i))

module _ (l pt pre virt : ℕ) (mem : Memory) (owner : Owner) (t : Tables mem owner)
    (own : owner pt ≡ some (l, pre)) (plain : AllPlain mem owner) where
  abbrev entry : ℕ
  entry = mem (slot l pt virt)

  abbrev result : PteSearch
  result = record { level = suc l; pte = slot l pt virt }

  test : (bit_and entry pt_present_mask == 0) ≡ not (present entry)
  test = present_plain entry (plain pt l pre (virt / span l % 512) own (omega arith))

  place :
      (p i k pre' : ℕ) × (owner p ≡ some (k, pre'))
      × (p % 2 ^ 12 ≡ 0)
      × (slot l pt virt ≡ p + 8 * i)
  place = (pt, virt / span l % 512, l, pre, own, (t pt l pre own).aligned, refl)

  find_absent : present entry ≡ false → Finds l mem owner pt virt
  unfolding find_loop found_leaf_pte found_huge_pte
  find_absent absent =
      let z : (bit_and entry pt_present_mask == 0) ≡ true = test ∙ ap not absent in
      (
        result,
        rw (entry_addr-slot l pt virt, z),
        inl (translate_absent l mem pt virt absent, inr absent),
        place,
      )

  find-large :
      present entry ≡ true → large entry ≡ true → (l ≡ 1) ⊎ (l ≡ 2) → Finds l mem owner pt virt
  unfolding find_loop found_leaf_pte found_huge_pte
  find-large there big level =
      let z : (bit_and entry pt_present_mask == 0) ≡ false = test ∙ ap not there in
      let b : (bit_and entry pt_page_size_mask == 0) ≡ false = ground arith in
      let lv : (suc l == 2 || suc l == 3) ≡ true = ground arith in
      (
        result,
        rw (entry_addr-slot l pt virt, z, lv, b),
        inr (
          l,
          omega arith,
          rw (z, b) (ground arith),
          there,
          translate-leaf l mem pt virt there (inr big),
        ),
        place,
      )

  -- At the last level.
  find_last : present entry ≡ true → l ≡ 0 → Finds l mem owner pt virt
  unfolding find_loop found_leaf_pte
  find_last there level =
      let z : (bit_and entry pt_present_mask == 0) ≡ false = test ∙ ap not there in
      let lv : (suc l == 2 || suc l == 3) ≡ false = ground arith in
      let one : (suc l == 1) ≡ true = ground arith in
      (
        result,
        rw (entry_addr-slot l pt virt, z, lv, one),
        inr (l, omega arith, rw one refl, there, translate-leaf l mem pt virt there (inl level)),
        place,
      )

find_through :
    (k pt virt : ℕ) (mem : Memory)
    → (bit_and (mem (slot (suc k) pt virt)) pt_present_mask == 0) ≡ false
    → large (mem (slot (suc k) pt virt)) ≡ false
    → find_loop (suc (suc k)) 1 pt virt mem
      ≡ find_loop (suc k) 1 (addr (mem (slot (suc k) pt virt))) virt mem
unfolding find_loop
find_through k pt virt mem z small =
    let b : (bit_and (mem (slot (suc k) pt virt)) pt_page_size_mask == 0) ≡ true = ground arith in
    let one : (suc (suc k) == 1) ≡ false = ground arith in
    elim (Bool-cases (suc (suc k) == 2 || suc (suc k) == 3)) [
      | inl lv ↦ rw (entry_addr-slot (suc k) pt virt, z, lv, b, one) refl
      | inr lv ↦ rw (entry_addr-slot (suc k) pt virt, z, lv, one) refl
    ]

find_loop_lem :
    (l pt pre virt : ℕ) (mem : Memory) (owner : Owner)
    → Tables mem owner
    → AllPlain mem owner
    → owner pt ≡ some (l, pre)
    → pre ≡ virt / span (suc l)
    → Finds l mem owner pt virt
find_loop_lem zero pt pre virt mem owner t plain own prefix =
    elim (Bool-cases (present (mem (slot 0 pt virt)))) [
      | inr absent ↦ find_absent 0 pt pre virt mem owner t own plain absent
      | inl there ↦ find_last 0 pt pre virt mem owner t own plain there refl
    ]
find_loop_lem (suc k) pt pre virt mem owner t plain own prefix =
    let i = virt / span (suc k) % 512 in
    let e = mem (slot (suc k) pt virt) in
    elim (Bool-cases (present e)) [
      | inr absent ↦ find_absent (suc k) pt pre virt mem owner t own plain absent
      | inl there ↦ elim (Bool-cases (large e)) [
        | inl big ↦
            let (top, al) = (t pt (suc k) pre own).big i (omega arith) there big in
            find-large (suc k) pt pre virt mem owner t own plain there big
              (omega (arith, top, (t pt (suc k) pre own).level))
        | inr small ↦
            let child : owner (addr e) ≡ some (k, virt / span (suc k)) =
              (t pt (suc k) pre own).child i k (omega arith) refl there small
              ∙ ap (λ (x : ℕ). some (k, x)) (path_index (suc k) pre virt prefix) in
            let z : (bit_and e pt_present_mask == 0) ≡ false =
              present_plain e (plain pt (suc k) pre i own (omega arith)) ∙ ap not there in
            let (r, run, ends, at) =
              find_loop_lem k (addr e) (virt / span (suc k)) virt mem owner t plain child refl in
            (
              r,
              find_through k pt virt mem z small ∙ run,
              rw (translate_through k mem pt virt there small) ends,
              at,
            )
      ]
    ]

-- In well-formed tables in which every entry with one of its three low bits set has bit 0 set, and
-- none of which is page 0, for an address below 2^48: `get_pte` passes its assertion, and either
-- nothing is mapped at the address, and it returns NULL or an entry that is not present; or it
-- returns the address, not NULL, of the entry that maps the address, a present one of level 1 to 3.
pub get_pte_lem :
    (cr3 virt : ℕ) (mem : Memory) (owner : Owner)
    → Tables mem owner
    → AllPlain mem owner
    → owner cr3 ≡ some (3, 0)
    → owner 0 ≡ none
    → virt < 2 ^ 48
    → (p : ℕ) × (get_pte cr3 virt mem ≡ some p)
      × (((translate 3 mem cr3 virt ≡ none) × ((p ≡ 0) ⊎ (present (mem p) ≡ false)))
          ⊎ ((k : ℕ) × (k < 3)
              × (p ≢ 0)
              × (present (mem p) ≡ true)
              × (translate 3 mem cr3 virt ≡ some (leaf k (mem p) virt))))
unfolding get_pte find_pte_level
get_pte_lem cr3 virt mem owner t plain own null h =
    let (r, run, ends, (q, i, k', pre', own', al, at)) =
      find_loop_lem 3 cr3 0 virt mem owner t plain own (below_top virt h) in
    let nz : r.pte ≢ 0 = λ z. not_null q (k', pre') own' (omega (arith, at)) in
    elim (Bool-cases (found_leaf_pte r mem)) [
      | inr no_leaf ↦ (
        0,
        rw (run, no_leaf) refl,
        elim ends [
          | inl absent ↦ inl (absent.0, inl refl)
          | inr found ↦ let c : found_leaf_pte r mem ≡ true = found.2 in absurd (ground arith)
        ],
      )
      | inl is_leaf ↦ (
        r.pte,
        rw (run, is_leaf) refl,
        elim ends [
          | inl absent ↦
              inl (absent.0, elim absent.1 [ inl n ↦ absurd (ground arith) | inr out ↦ inr out ])
          | inr found ↦ inr (found.0, found.1, nz, found.3, found.4)
        ],
      )
    ]
  where
    not_null : (q : ℕ) (v : ℕ × ℕ) → owner q ≡ some v → q ≡ 0 → ⊥
    not_null q v o z = let o' : owner 0 ≡ some v = ap owner (sym z) ∙ o in cc

virt_to_pte_phys_run :
    (cr3 virt p : ℕ) (mem : Memory)
    → get_pte cr3 virt mem ≡ some p
    → p ≢ 0
    → virt_to_pte_phys cr3 virt mem ≡ some (addr (mem p) + virt % 2 ^ 12)
unfolding virt_to_pte_phys
virt_to_pte_phys_run cr3 virt p mem run nz =
    let z : (p == 0) ≡ false = ground arith in
    let low : bit_and virt 4095 ≡ virt % 2 ^ 12 = bit_and_ones 12 virt in
    let fits : (addr (mem p) + virt % 2 ^ 12) % 2 ^ 64 ≡ addr (mem p) + virt % 2 ^ 12 =
      omega (arith, addr_lem (mem p)) in
    rw (run, z, low) (ap some fits)

low_leaf : (k e v : ℕ) → k ≡ 0 → addr e + v % 2 ^ 12 ≡ (leaf k e v).hpa
unfolding span
low_leaf zero e v z = omega (arith, addr_lem e)
low_leaf (suc k) e v z = absurd (omega arith)

-- In such tables, for an address below 2^48 that is mapped to `x`: `get_pte` returns the address of an
-- entry in memory that is the leaf `x` of its level, `virt_to_pte_phys` returns the address in this
-- very entry plus the low 12 bits of the address, and either the level is 2 or 3, or this is the
-- physical address of `x`.
pub virt_to_pte_phys_lem :
    (cr3 virt : ℕ) (mem : Memory) (owner : Owner) (x : Leaf)
    → Tables mem owner
    → AllPlain mem owner
    → owner cr3 ≡ some (3, 0)
    → owner 0 ≡ none
    → virt < 2 ^ 48
    → translate 3 mem cr3 virt ≡ some x
    → (k p : ℕ) × (get_pte cr3 virt mem ≡ some p)
      × (k < 3)
      × (x ≡ leaf k (mem p) virt)
      × (virt_to_pte_phys cr3 virt mem ≡ some (addr (mem p) + virt % 2 ^ 12))
      × ((k ≢ 0) ⊎ (addr (mem p) + virt % 2 ^ 12 ≡ x.hpa))
virt_to_pte_phys_lem cr3 virt mem owner x t plain own null h at =
    let (p, run, cases) = get_pte_lem cr3 virt mem owner t plain own null h in
    elim cases [
      | inl absent ↦ absurd (none_some (sym absent.0 ∙ at))
      | inr (k, lt, nz, there, maps) ↦
          let same : x ≡ leaf k (mem p) virt = some_injective (sym at ∙ maps) in
          (
            k,
            p,
            run,
            lt,
            same,
            virt_to_pte_phys_run cr3 virt p mem run nz,
            elim (ℕ_discrete k 0) [
              | no big ↦ inl big
              | yes small ↦
                  inr (low_leaf k (mem p) virt small ∙ ap (λ (y : Leaf). y.hpa) (sym same))
            ],
          )
    ]
  where
    none_some : {y : Leaf} → none ≡ some y → ⊥
    none_some e = cc

    some_injective : {y z : Leaf} → ◌≡◌ {A = Option Leaf} (some y) (some z) → y ≡ z
    some_injective e = cc
