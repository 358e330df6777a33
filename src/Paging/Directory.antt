-- ===== src/Paging/Directory.antt =====
-- One round of the loop of `install_pte`: the entry of a level comes to lead to a table.
use native.Mathlib.Decide.{ℕ_discrete}
use asor.Base.{
  ℕ, suc, ◌+◌, ◌*◌, ◌/◌, ◌%◌, ◌^◌, ◌≤◌, ◌<◌, ◌≡◌, ap, subst, sym, ◌≢◌, ◌∙◌, ◌⊎◌, inl, inr, not,
  bit_and, true, false, none, some, List, ◌∷◌, length, ◌==◌, Bool-cases, arith,
}
use asor.Base.Bits.{bit_and_ones}
use asor.Memory.{Memory}
use asor.PageAlloc.{Pages}
use asor.PageAlloc.Chain.{alloc_page_first}
use asor.Ept.Walk.{span, present, large, slot, translate, present_bits}
use asor.Ept.Tables.{Owner, IsMapped}
use asor.Ept.Entries.{word}
use asor.Ept.Grow.{claim, some_ne_none}
use asor.Ept.Descend.{
  Descends, Descends-table, Descends-absent, grown, claimed, hook_memory, hook_entry, hook_zero,
  translate-leaf,
}
use asor.Paging.{pt_present_mask, make_directory}

-- An entry that bit 0 says is present, when one of the three low bits is set.
abbrev pub IsPlain : ℕ → Type 0
IsPlain e = (e % 8 ≡ 0) ⊎ (e % 2 ≡ 1)

-- Every entry of every table is plain.
abbrev pub AllPlain : Memory → Owner → Type 0
AllPlain mem owner = (p l pre i : ℕ) → owner p ≡ some (l, pre) → i < 512 → IsPlain (mem (p + 8 * i))

-- The test of the code agrees with the one of x86/ept.c.
pub present_plain : (e : ℕ) → IsPlain e → (bit_and e pt_present_mask == 0) ≡ not (present e)
present_plain e h =
    let a : bit_and e pt_present_mask ≡ e % 2 = bit_and_ones 1 e in
    let b = present_bits e in elim h [ inl z ↦ ground arith | inr odd ↦ ground arith ]

-- An address that is not mapped meets no large entry.
pub unmapped-small :
    (k : ℕ) (mem : Memory) (pt ga : ℕ)
    → translate k mem pt ga ≡ none
    → present (mem (slot k pt ga)) ≡ true
    → large (mem (slot k pt ga)) ≡ false
unmapped-small k mem pt ga h pr = elim (Bool-cases (large (mem (slot k pt ga)))) [
  | inr small ↦ small
  | inl big ↦ absurd (clash (sym h ∙ translate-leaf k mem pt ga pr (inr big)))
]
  where
    clash : {A : Type 0} {x : A} → none ≡ some x → ⊥
    clash e = cc

module _ (k pt pre ga q : ℕ) (s : Pages) (owner : Owner) (xs : List ℕ)
    (m : IsMapped s owner (q ∷ xs)) (own : owner pt ≡ some (suc k, pre))
    (prefix : pre ≡ ga / span (suc (suc k))) (plain : AllPlain s.mem owner) where
  abbrev hooked : Memory
  hooked = hook_memory q (slot (suc k) pt ga) s.mem

  hooked-IsPlain_old :
      (p l pre' i : ℕ) → owner p ≡ some (l, pre') → i < 512 → IsPlain (hooked (p + 8 * i))
  hooked-IsPlain_old p l pre' i o hi = elim (ℕ_discrete (p + 8 * i) (slot (suc k) pt ga)) [
    | yes e ↦
        let w : hooked (p + 8 * i) ≡ word 0 (q / 2 ^ 12) 7 =
          ap hooked e ∙ hook_entry k pt pre ga q s owner xs m own prefix in
        inr (omega (arith, w))
    | no ne ↦
        let al = (m.tables p l pre' o).aligned in
        let p_q : p ≢ q = some_ne_none owner o m.spare.0 in
        let out : (p + 8 * i < q) ⊎ (q + 2 ^ 12 ≤ p + 8 * i) = omega (arith, m.spare.1) in
        let w : hooked (p + 8 * i) ≡ s.mem (p + 8 * i) = ground arith in
        subst IsPlain (sym w) (plain p l pre' i o hi)
  ]

  hooked-AllPlain : AllPlain hooked (claim owner q k (ga / span (suc k)))
  unfolding claim
  hooked-AllPlain p l pre' i o hi = elim (ℕ_discrete p q) [
    | yes e ↦
        let w : hooked (p + 8 * i) ≡ 0 =
          ap (λ (t : ℕ). hooked (t + 8 * i)) e
          ∙ hook_zero k pt pre ga q s owner xs m own prefix i hi in
        inl (omega (arith, w))
    | no ne ↦ hooked-IsPlain_old p l pre' i (ground arith) hi
  ]

  -- One round, for an address that is not mapped.
  pub make_directory_lem :
      translate (suc k) s.mem pt ga ≡ none
      → (s1 : Pages) × (owner1 : Owner) × (xs1 : List ℕ) × (make_directory (slot (suc k) pt ga) 0 s
          ≡ (0, s1))
        × Descends k pt ga s owner s1 owner1 xs1
        × (length xs ≤ length xs1)
        × AllPlain s1.mem owner1
  unfolding make_directory
  make_directory_lem unmapped =
      let e = s.mem (slot (suc k) pt ga) in
      let test =
        present_plain e (plain pt (suc k) pre (ga / span (suc k) % 512) own (omega arith)) in
      elim (Bool-cases (present e)) [
        | inr absent ↦
            let t : (bit_and e pt_present_mask == 0) ≡ true = test ∙ ap not absent in
            (
              grown k pt pre ga q s owner xs m own prefix hooked,
              claimed k pt pre ga q s owner xs m own prefix,
              xs,
              rw (t, (alloc_page_first s q xs m.free).0),
              Descends-absent k pt pre ga q s owner xs m own prefix absent,
              omega arith,
              hooked-AllPlain,
            )
        | inl there ↦
            let t : (bit_and e pt_present_mask == 0) ≡ false = test ∙ ap not there in
            (
              s,
              owner,
              q ∷ xs,
              rw t,
              Descends-table k pt pre ga s owner (q ∷ xs) m there
                  (unmapped-small (suc k) s.mem pt ga unmapped there),
              omega arith,
              plain,
            )
      ]

-- A round at an entry that is a table.
pub make_directory_there :
    (k pt ga : ℕ) (s : Pages)
    → IsPlain (s.mem (slot (suc k) pt ga))
    → present (s.mem (slot (suc k) pt ga)) ≡ true
    → make_directory (slot (suc k) pt ga) 0 s ≡ (0, s)
unfolding make_directory
make_directory_there k pt ga s plain there =
    let e = s.mem (slot (suc k) pt ga) in
    let t : (bit_and e pt_present_mask == 0) ≡ false = present_plain e plain ∙ ap not there in rw t
