-- ===== src/Paging/Split.antt =====
-- `split_large_page` and `split_large_ept_entry` of x86/ept.c do the same to an entry.
use native.Mathlib.Decide.{ℕ_discrete}
use asor.Base.{
  ℕ, zero, suc, ◌+◌, ◌-◌, ◌*◌, ◌/◌, ◌%◌, ◌^◌, ◌≤◌, ◌<◌, ◌≡◌, ◌⊎◌, refl, ap, ◌∙◌, inl, inr, not,
  ◌||◌, ◌&&◌, true, false, Option, none, some, leb, ltb, ◌==◌, Bool-cases, bit_and, bit_or, arith,
}
use asor.Memory.{Memory, write_word, zero_page}
use asor.PageAlloc.{Pages, alloc_page}
use asor.Ept.{
  inv64, ept_addr_mask, ept_large_page, ept_present, level_shift, fill_split, split_prototype,
  split_large_ept_entry,
}
use asor.Ept.Walk.{present}
use asor.Paging.{pt_present_mask, fill_table, split_large_page}
use asor.Paging.Directory.{IsPlain, present_plain}

-- Filling reaches the words of the rounds, and keeps the others.
fill-agree :
    (rounds i q prototype pa step a : ℕ) (mem mem' : Memory)
    → (mem a ≡ mem' a) ⊎ ((j : ℕ) × (i ≤ j) × (j < i + rounds) × (a ≡ q + 8 * j))
    → fill_table rounds i q prototype pa step mem a ≡ fill_split rounds i q prototype pa step mem' a
unfolding fill_table fill_split
fill-agree zero i q prototype pa step a mem mem' h = elim h [
  | inl same ↦ same
  | inr (j, lo, hi, at) ↦ absurd (omega arith)
]
fill-agree (suc rounds) i q prototype pa step a mem mem' h =
    fill-agree rounds (i + 1) q prototype ((pa + step) % 2 ^ 64) step a
      (write_word (q + 8 * i) (bit_or prototype pa) mem)
      (write_word (q + 8 * i) (bit_or prototype pa) mem')
      (elim (ℕ_discrete (q + 8 * i) a) [
        | yes here ↦ inl (ground arith)
        | no off ↦ elim h [
          | inl same ↦ inl (ground arith)
          | inr (j, lo, hi, at) ↦ inr (j, omega (arith, at), omega arith, at)
        ]
      ])

-- The word that is in the new page is written; the others are not cleared.
in_page :
    (q a : ℕ) (mem : Memory)
    → q % 8 ≡ 0
    → a % 8 ≡ 0
    → (mem a ≡ zero_page q mem a) ⊎ ((j : ℕ) × (0 ≤ j) × (j < 0 + 512) × (a ≡ q + 8 * j))
in_page q a mem al w = elim (Bool-cases (leb q a && ltb a (q + 2 ^ 12))) [
  | inl inside ↦
      let lo : q ≤ a = ground arith in
      let hi : a < q + 2 ^ 12 = ground arith in
      inr ((a - q) / 8, omega arith, omega arith, omega arith)
  | inr out ↦ inl (ground arith)
]

-- Two results that agree on the free list and on each word.
abbrev pub SameWords : Option Pages → Option Pages → Type 0
SameWords r r' =
    ((r ≡ none) × (r' ≡ none))
    ⊎ ((s : Pages) × (s' : Pages) × (r ≡ some s)
        × (r' ≡ some s')
        × (s.freelist ≡ s'.freelist)
        × ((a : ℕ) → a % 8 ≡ 0 → s.mem a ≡ s'.mem a))

written_words :
    (ptep table a : ℕ) (mem mem' : Memory)
    → mem a ≡ mem' a
    → write_word ptep table mem a ≡ write_word ptep table mem' a
written_words ptep table a mem mem' same = ground arith

-- The free list does not begin within a word. For an entry that has bit 0 set when it has one of its
-- three low bits set, `split_large_page` and the `split_large_ept_entry` of x86/ept.c, which clears
-- the new page first, both fail an assertion, or both succeed with the same free list and the same
-- word at each address.
pub split_large_page_lem :
    (ptep level : ℕ) (s : Pages)
    → IsPlain (s.mem ptep)
    → s.freelist % 8 ≡ 0
    → SameWords (split_large_page ptep level s) (split_large_ept_entry ptep level s)
unfolding split_large_page split_large_ept_entry split_prototype alloc_page
split_large_page_lem ptep level s plain al =
    let e = s.mem ptep in
    let q = s.freelist in
    let test = present_plain e plain in
    elim (Bool-cases (present e)) [
      | inr absent ↦
          let t : (bit_and e pt_present_mask == 0) ≡ true = test ∙ ap not absent in
          let t' : (bit_and e ept_present == 0) ≡ true = ground arith in inl (rw t refl, rw t' refl)
      | inl there ↦
          let t : (bit_and e pt_present_mask == 0) ≡ false = test ∙ ap not there in
          let t' : (bit_and e ept_present == 0) ≡ false = ground arith in
          elim (Bool-cases (bit_and e ept_large_page == 0)) [
            | inl small ↦ inl (rw (t, small) refl, rw (t', small) refl)
            | inr big ↦ elim (Bool-cases (level == 2 || level == 3)) [
              | inr bad ↦ inl (rw (t, big, bad) refl, rw (t', big, bad) refl)
              | inl ok ↦ elim (Bool-cases (q == 0)) [
                | inl null ↦ inl (rw (t, big, ok, null) refl, rw (t', big, ok, null) refl)
                | inr some_page ↦
                    let step = 2 ^ level_shift (level - 1) in
                    let proto = split_prototype level e in
                    let pa = bit_and e ept_addr_mask in
                    let table =
                      bit_or (bit_and (bit_and e (inv64 ept_large_page)) (inv64 ept_addr_mask)) q in
                    inr (
                      record {
                        mem = write_word ptep table (fill_table 512 0 q proto pa step s.mem);
                        freelist = s.mem q;
                      },
                      record {
                        mem =
                            write_word ptep table
                              (fill_split 512 0 q proto pa step (zero_page q s.mem));
                        freelist = s.mem q;
                      },
                      rw (t, big, ok, some_page, some_page) refl,
                      rw (t', big, ok, some_page, some_page) refl,
                      refl,
                      λ a w.
                          written_words ptep table a (fill_table 512 0 q proto pa step s.mem)
                            (fill_split 512 0 q proto pa step (zero_page q s.mem))
                            (fill-agree 512 0 q proto pa step a s.mem (zero_page q s.mem)
                              (in_page q a s.mem al w)),
                    )
              ]
            ]
          ]
    ]
