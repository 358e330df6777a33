-- ===== src/Ept/Round.antt =====
-- The round of `install_ept_entry` at a large entry, which is split, and the round at any entry.
use asor.Base.{
  ℕ, zero, suc, ◌+◌, ◌*◌, ◌/◌, ◌%◌, ◌^◌, ◌≤◌, ◌<◌, ◌≡◌, refl, ap, sym, ◌≢◌, ◌∙◌, ◌⊎◌, inl, inr,
  bit_or, true, not, some, List, ◌∷◌, ◌==◌, arith,
}
use asor.Memory.{Memory, zero_page}
use asor.PageAlloc.{Pages}
use asor.Ept.{fill_split, split_prototype}
use asor.Ept.Walk.{span, present, large, addr, addr_lem, slot, translate, leaf}
use asor.Ept.Access.{Allows, AllAllow, Allows-low}
use asor.Ept.Tables.{Owner, IsMapped}
use asor.Ept.Entries.{word, high_bits, plain, addr-word, present-word, large-word, split_entry}
use asor.Ept.Split.{split_memory, fill_split_inside, fill_split_outside}
use asor.Ept.Parts.{part, part_word, IsPart, part-IsPart, part-leaf_0, part-leaf_1}
use asor.Ept.Descend.{Descends, slot_same, translate-leaf, grown, claimed, apart, Descends-new}
use asor.Ept.Walk.{present_bits}

-- A part of a large entry translates as the large entry did.
leaf-part :
    (k e j ga : ℕ)
    → k < 2
    → j < 512
    → addr e % span (suc k) ≡ 0
    → j ≡ ga / span k % 512
    → leaf k (part k e j) ga ≡ leaf (suc k) e ga
leaf-part zero e j ga h hj al at = part-leaf_0 e j hj ga al at
leaf-part (suc zero) e j ga h hj al at = part-leaf_1 e j hj ga al at
leaf-part (suc (suc k)) e j ga h hj al at = absurd (omega arith)

-- The parts of a large entry lie in memory below 2 ^ 52.
parts_fit : (k e : ℕ) → k < 2 → addr e % span (suc k) ≡ 0 → addr e + 512 * span k ≤ 2 ^ 52
unfolding span
parts_fit zero e h al = omega (arith, addr_lem e)
parts_fit (suc zero) e h al = omega (arith, addr_lem e)
parts_fit (suc (suc k)) e h al = absurd (omega arith)

part_rights : (k e j : ℕ) → k ≢ 0 → part k e j % 8 ≡ e % 8
part_rights zero e j nz = absurd (nz refl)
part_rights (suc k) e j nz = omega arith

module _ (k pt pre ga q : ℕ) (s : Pages) (owner : Owner) (xs : List ℕ)
    (m : IsMapped s owner (q ∷ xs)) (own : owner pt ≡ some (suc k, pre))
    (prefix : pre ≡ ga / span (suc (suc k))) (pr : present (s.mem (slot (suc k) pt ga)) ≡ true)
    (lg : large (s.mem (slot (suc k) pt ga)) ≡ true) where
  abbrev entry : ℕ
  entry = s.mem (slot (suc k) pt ga)

  abbrev mem1 : Memory
  mem1 = split_memory k entry q (slot (suc k) pt ga) s.mem

  abbrev filled : Memory
  filled =
      fill_split 512 0 q (split_prototype (suc (suc k)) entry) (addr entry) (span k)
        (zero_page q s.mem)

  big_entry : (suc k ≢ 3) × (addr entry % span (suc k) ≡ 0)
  big_entry = (m.tables pt (suc k) pre own).big (ga / span (suc k) % 512) (omega arith) pr lg

  level : k < 2
  level = omega (arith, big_entry.0, (m.tables pt (suc k) pre own).level)

  split_self : mem1 (slot (suc k) pt ga) ≡ word (high_bits entry) (q / 2 ^ 12) (plain entry)
  split_self = ground (arith, split_entry entry q m.spare.1 m.spare.2)

  split_part : (j : ℕ) → j < 512 → mem1 (q + 8 * j) ≡ part k entry j
  split_part j hj =
      let ne = apart k pt pre ga q s owner xs m own prefix j hj in
      let here : mem1 (q + 8 * j) ≡ filled (q + 8 * j) = ground arith in
      here
      ∙ fill_split_inside 512 0 q (split_prototype (suc (suc k)) entry) (addr entry) (span k)
          (zero_page q s.mem) j (parts_fit k entry level big_entry.1) (omega arith) (omega arith)
      ∙ ap (λ (t : ℕ). bit_or (split_prototype (suc (suc k)) entry) (addr entry + t * span k))
          (omega arith)
      ∙ part_word k entry j level hj big_entry.1

  parts : (j : ℕ) → j < 512 → IsPart k entry (mem1 (q + 8 * j))
  parts j hj = rw (split_part j hj) (part-IsPart k entry j level hj pr lg big_entry.1)

  split_other : (a : ℕ) → (a < q) ⊎ (q + 2 ^ 12 ≤ a) → a ≢ slot (suc k) pt ga → mem1 a ≡ s.mem a
  split_other a out ne =
      let past : mem1 a ≡ filled a = ground arith in
      let spared : zero_page q s.mem a ≡ s.mem a = ground arith in
      past
      ∙ fill_split_outside 512 0 q (split_prototype (suc (suc k)) entry) (addr entry) (span k)
          (zero_page q s.mem) a (λ j lo hi. ground arith)
      ∙ spared

  split_same :
      (ga' : ℕ)
      → ga' / span (suc k) ≡ ga / span (suc k)
      → translate k mem1 q ga' ≡ translate (suc k) s.mem pt ga'
  split_same ga' same =
      let j = ga' / span k % 512 in
      let hj : j < 512 = omega arith in
      let at = slot_same (suc k) pt ga ga' same in
      translate-leaf k mem1 q ga' (parts j hj).there (parts j hj).big
      ∙ ap (λ (w : ℕ). some (leaf k w ga')) (split_part j hj)
      ∙ ap some (leaf-part k entry j ga' level hj big_entry.1 refl)
      ∙ sym (
          translate-leaf (suc k) s.mem pt ga' (rw at pr) (inr (rw at lg))
          ∙ ap (λ (a : ℕ). some (leaf (suc k) (s.mem a) ga')) at)

  entry-Allows : (perm : ℕ) → AllAllow perm s.mem owner → Allows perm entry
  entry-Allows perm all =
      all pt (suc k) pre (ga / span (suc k) % 512) own (omega arith) (omega arith) pr

  part-Allows :
      (perm j : ℕ) → AllAllow perm s.mem owner → k ≢ 0 → j < 512 → Allows perm (mem1 (q + 8 * j))
  part-Allows perm j all nz hj =
      rw (split_part j hj)
        (Allows-low perm (part k entry j) entry (part_rights k entry j nz) (entry-Allows perm all))

  pub Descends-split :
      Descends k pt ga s owner
        (grown k pt pre ga q s owner xs m own prefix mem1)
        (claimed k pt pre ga q s owner xs m own prefix)
        xs
  Descends-split =
      let page_lt : q / 2 ^ 12 < 2 ^ 40 = omega (arith, m.spare.2) in
      Descends-new k pt pre ga q s owner xs m own prefix mem1
        (rw split_self (
          present-word (high_bits entry) (q / 2 ^ 12) (plain entry) (omega arith) page_lt
            (omega arith)
          ∙ ap (λ (t : ℕ). not (t == 0)) (omega (arith, present_bits entry))
          ∙ pr))
        (rw split_self (
          large-word (high_bits entry) (q / 2 ^ 12) (plain entry) (omega arith) page_lt
            (omega arith)
          ∙ ground arith))
        (rw split_self (
          addr-word (high_bits entry) (q / 2 ^ 12) (plain entry) (omega arith) page_lt (omega arith)
          ∙ omega (arith, m.spare.1)))
        split_other (λ j hj there small. elim ((parts j hj).big) [ inl z ↦ z | inr b ↦ cc ])
        (λ j hj there big. (omega (arith, level), (parts j hj).aligned)) split_same
        (λ perm lt all. rw split_self (
          Allows-low perm (word (high_bits entry) (q / 2 ^ 12) (plain entry)) entry (omega arith)
            (entry-Allows perm all)))
        (λ perm j all nz hj there. part-Allows perm j all nz hj)
