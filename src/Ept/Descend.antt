-- ===== src/Ept/Descend.antt =====
-- One round of the loop of `install_ept_entry`: afterwards the entry leads to a table, and every
-- address is translated as before.
use asor.Base.{
  ℕ, zero, suc, ◌+◌, ◌*◌, ◌/◌, ◌%◌, ◌^◌, ◌≤◌, ◌<◌, ◌≡◌, refl, ap, sym, ◌≢◌, ◌∙◌, ◌⊎◌, inl, inr,
  bit_or, true, false, none, some, List, ◌∷◌, arith,
}
use asor.Memory.{Memory, write_word, zero_page}
use asor.PageAlloc.{Pages}
use asor.PageAlloc.Chain.{alloc_page_first}
use asor.Ept.{ept_ra, ept_wa, ept_ea}
use asor.Ept.Walk.{span, present, large, addr, slot, translate, leaf}
use asor.Ept.Access.{Allows, AllAllow, Allows-all}
use asor.Ept.Tables.{Owner, IsMapped, OnPath}
use asor.Ept.Grow.{
  claim, claim_kept, grow-AllAllow, grow-OnPath, grow-IsMapped, slots_differ, some_ne_none,
}
use asor.Ept.Entries.{word, addr-word, present-word, large-word, table_entry}

-- The table at `pt`, of the level above `k`, before and after the round.
pub record Descends (k pt ga : ℕ) (s : Pages) (owner : Owner) (s1 : Pages) (owner1 : Owner)
    (xs1 : List ℕ) : Type 0 where
  pub mapped : IsMapped s1 owner1 xs1
  pub kept : (p : ℕ) {v : ℕ × ℕ} → owner p ≡ some v → owner1 p ≡ some v
  pub path : OnPath owner (suc k) ga s.mem s1.mem
  pub allows : (perm : ℕ) → perm < 8 → AllAllow perm s.mem owner → AllAllow perm s1.mem owner1
  pub there : present (s1.mem (slot (suc k) pt ga)) ≡ true
  pub small : large (s1.mem (slot (suc k) pt ga)) ≡ false
  pub same :
      (ga' : ℕ)
      → ga' / span (suc k) ≡ ga / span (suc k)
      → translate k s1.mem (addr (s1.mem (slot (suc k) pt ga))) ga' ≡ translate (suc k) s.mem pt ga'

pub slot_same : (l pt ga ga' : ℕ) → ga' / span l ≡ ga / span l → slot l pt ga' ≡ slot l pt ga
slot_same l pt ga ga' e = ap (λ (t : ℕ). pt + 8 * (t % 512)) e

pub translate_through :
    (k : ℕ) (mem : Memory) (pt ga : ℕ)
    → present (mem (slot (suc k) pt ga)) ≡ true
    → large (mem (slot (suc k) pt ga)) ≡ false
    → translate (suc k) mem pt ga ≡ translate k mem (addr (mem (slot (suc k) pt ga))) ga
unfolding translate
translate_through k mem pt ga pr sm = rw (pr, sm)

pub translate-leaf :
    (k : ℕ) (mem : Memory) (pt ga : ℕ)
    → present (mem (slot k pt ga)) ≡ true
    → (k ≡ 0) ⊎ (large (mem (slot k pt ga)) ≡ true)
    → translate k mem pt ga ≡ some (leaf k (mem (slot k pt ga)) ga)
unfolding translate
translate-leaf zero mem pt ga pr big = rw pr
translate-leaf (suc k) mem pt ga pr (inl z) = absurd (omega arith)
translate-leaf (suc k) mem pt ga pr (inr lg) = rw (pr, lg)

pub translate_absent :
    (k : ℕ) (mem : Memory) (pt ga : ℕ)
    → present (mem (slot k pt ga)) ≡ false
    → translate k mem pt ga ≡ none
unfolding translate
translate_absent zero mem pt ga pr = rw pr
translate_absent (suc k) mem pt ga pr = rw pr

-- The entry is a table already.
pub Descends-table :
    (k pt pre ga : ℕ) (s : Pages) (owner : Owner) (xs : List ℕ)
    → IsMapped s owner xs
    → present (s.mem (slot (suc k) pt ga)) ≡ true
    → large (s.mem (slot (suc k) pt ga)) ≡ false
    → Descends k pt ga s owner s owner xs
Descends-table k pt pre ga s owner xs m pr sm = record {
  mapped = m;
  kept = λ p {v} o. o;
  path = λ p m pre i o hi. inl refl;
  allows = λ perm lt all. all;
  there = pr;
  small = sm;
  same = λ ga' e.
      let at = slot_same (suc k) pt ga ga' e in
      sym (
        translate_through k s.mem pt ga' (rw at pr) (rw at sm)
        ∙ ap (λ (a : ℕ). translate k s.mem (addr (s.mem a)) ga') at);
}

-- The memory after a new table was hooked in.
abbrev pub hook_memory : ℕ → ℕ → Memory → Memory
hook_memory q ptep mem =
    write_word ptep (bit_or (bit_or (bit_or q ept_ra) ept_wa) ept_ea) (zero_page q mem)

-- A page that is not NULL becomes the table, whatever it is filled with.
module _ (k pt pre ga q : ℕ) (s : Pages) (owner : Owner) (xs : List ℕ)
    (m : IsMapped s owner (q ∷ xs)) (own : owner pt ≡ some (suc k, pre))
    (prefix : pre ≡ ga / span (suc (suc k))) where
  abbrev pub ptep : ℕ
  ptep = slot (suc k) pt ga

  abbrev pub grown : Memory → Pages
  grown mem1 = record { mem = mem1; freelist = s.mem q }

  abbrev pub claimed : Owner
  claimed = claim owner q k (ga / span (suc k))

  pub apart : (j : ℕ) → j < 512 → ptep ≢ q + 8 * j
  apart j hj e =
      some_ne_none owner own m.spare.0
        (slots_differ pt q (ga / span (suc k) % 512) j (m.tables pt (suc k) pre own).aligned
          m.spare.1 (omega arith) hj e).0

  pub Descends-new :
      (mem1 : Memory)
      → present (mem1 ptep) ≡ true
      → large (mem1 ptep) ≡ false
      → addr (mem1 ptep) ≡ q
      → ((a : ℕ) → (a < q) ⊎ (q + 2 ^ 12 ≤ a) → a ≢ ptep → mem1 a ≡ s.mem a)
      → ((j : ℕ)
          → j < 512
          → present (mem1 (q + 8 * j)) ≡ true
          → large (mem1 (q + 8 * j)) ≡ false
          → k ≡ 0)
      → ((j : ℕ)
          → j < 512
          → present (mem1 (q + 8 * j)) ≡ true
          → large (mem1 (q + 8 * j)) ≡ true
          → (k ≢ 3) × (addr (mem1 (q + 8 * j)) % span k ≡ 0))
      → ((ga' : ℕ)
          → ga' / span (suc k) ≡ ga / span (suc k)
          → translate k mem1 q ga' ≡ translate (suc k) s.mem pt ga')
      → ((perm : ℕ) → perm < 8 → AllAllow perm s.mem owner → Allows perm (mem1 ptep))
      → ((perm j : ℕ)
          → AllAllow perm s.mem owner
          → k ≢ 0
          → j < 512
          → present (mem1 (q + 8 * j)) ≡ true
          → Allows perm (mem1 (q + 8 * j)))
      → Descends k pt ga s owner (grown mem1) claimed xs
  Descends-new mem1 there small to other leaves bigs same hook new =
      let rest = (alloc_page_first s q xs m.free).2 in
      record {
        mapped =
            grow-IsMapped s owner q xs k pt pre ga (s.mem q) mem1 m own prefix rest there small to
              other leaves bigs;
        kept = λ p {v} o.
            claim_kept s owner q xs k pt pre ga (s.mem q) mem1 m own prefix rest there small to
              other leaves bigs p o;
        path =
            grow-OnPath s owner q xs k pt pre ga (s.mem q) mem1 m own prefix rest there small to
              other leaves bigs;
        allows = λ perm lt all.
            grow-AllAllow s owner q xs k pt pre ga (s.mem q) mem1 m own prefix rest there small to
              other leaves bigs perm all (hook perm lt all) (λ j nz hj pr. new perm j all nz hj pr);
        there = there;
        small = small;
        same = λ ga' e. rw to (same ga' e);
      }

  pub hook_entry : hook_memory q ptep s.mem ptep ≡ word 0 (q / 2 ^ 12) 7
  hook_entry = ground (arith, table_entry q m.spare.1 m.spare.2)

  pub hook_zero : (j : ℕ) → j < 512 → hook_memory q ptep s.mem (q + 8 * j) ≡ 0
  hook_zero j hj = let ne = apart j hj in ground arith

  zero_entry : (j : ℕ) → j < 512 → present (hook_memory q ptep s.mem (q + 8 * j)) ≡ true → ⊥
  zero_entry j hj pr = let p : present 0 ≡ true = (rw (hook_zero j hj) at pr) in cc

  -- The entry was empty: nothing was mapped there, and nothing is in a table of zeros.
  pub Descends-absent :
      present (s.mem ptep) ≡ false
      → Descends k pt ga s owner (grown (hook_memory q ptep s.mem)) claimed xs
  Descends-absent absent =
      let page_lt : q / 2 ^ 12 < 2 ^ 40 = omega (arith, m.spare.2) in
      Descends-new (hook_memory q ptep s.mem)
        (rw hook_entry (present-word 0 (q / 2 ^ 12) 7 (omega arith) page_lt (omega arith)))
        (rw hook_entry (large-word 0 (q / 2 ^ 12) 7 (omega arith) page_lt (omega arith)))
        (rw hook_entry (
          addr-word 0 (q / 2 ^ 12) 7 (omega arith) page_lt (omega arith)
          ∙ omega (arith, m.spare.1)))
        (λ a out ne. ground arith) (λ j hj pr sm. absurd (zero_entry j hj pr))
        (λ j hj pr lg. absurd (zero_entry j hj pr))
        (λ ga' e.
          translate_absent k (hook_memory q ptep s.mem) q ga'
            (rw (hook_zero (ga' / span k % 512) (omega arith)) refl)
          ∙ sym (translate_absent (suc k) s.mem pt ga' (rw (slot_same (suc k) pt ga ga' e) absent)))
        (λ perm lt all. rw hook_entry (Allows-all perm (word 0 (q / 2 ^ 12) 7) lt (omega arith)))
        (λ perm j all nz hj pr. absurd (zero_entry j hj pr))
