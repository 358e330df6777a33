-- ===== src/Ept/Split.antt =====
-- `split_large_ept_entry`: the 512 entries that a large entry becomes.
use asor.Base.{
  ℕ, zero, suc, ◌+◌, ◌-◌, ◌*◌, ◌%◌, ◌^◌, ◌≤◌, ◌<◌, ◌≡◌, refl, ap, ◌≢◌, ◌∙◌, inl, inr, bit_and,
  bit_or, true, false, ◌||◌, some, List, ◌∷◌, ◌==◌, Bool-cases, arith,
}
use asor.Memory.{Memory, write_word, zero_page}
use asor.PageAlloc.{Pages}
use asor.PageAlloc.Chain.{IsFree, alloc_page_first}
use asor.Ept.{
  ept_present, ept_large_page, ept_addr_mask, inv64, fill_split, split_prototype,
  split_large_ept_entry,
}
use asor.Ept.Walk.{span, present, large, addr, level_shift-span}

-- The loop writes the entries `i` to `i + n - 1`, and nothing else.
pub fill_split_outside :
    (n i q proto gpa step : ℕ) (mem : Memory) (a : ℕ)
    → ((j : ℕ) → i ≤ j → j < i + n → a ≢ q + 8 * j)
    → fill_split n i q proto gpa step mem a ≡ mem a
unfolding fill_split
fill_split_outside zero i q proto gpa step mem a h = refl
fill_split_outside (suc n) i q proto gpa step mem a h =
    fill_split_outside n (i + 1) q proto ((gpa + step) % 2 ^ 64) step
      (write_word (q + 8 * i) (bit_or proto gpa) mem) a (λ j lo hi. h j (omega arith) (omega arith))
    ∙ (let ne : a ≢ q + 8 * i = h i (omega arith) (omega arith) in ground arith)

pub fill_split_inside :
    (n i q proto gpa step : ℕ) (mem : Memory) (j : ℕ)
    → gpa + n * step ≤ 2 ^ 52
    → i ≤ j
    → j < i + n
    → fill_split n i q proto gpa step mem (q + 8 * j) ≡ bit_or proto (gpa + (j - i) * step)
unfolding fill_split
fill_split_inside zero i q proto gpa step mem j fit lo hi = absurd (omega arith)
fill_split_inside (suc n) i q proto gpa step mem j fit lo hi = elim (Bool-cases (i == j)) [
  | inl e ↦
      let ij : i ≡ j = ground arith in
      let here : write_word (q + 8 * i) (bit_or proto gpa) mem (q + 8 * j) ≡ bit_or proto gpa =
        ground arith in
      let none_on : j - i ≡ 0 = omega arith in
      fill_split_outside n (i + 1) q proto ((gpa + step) % 2 ^ 64) step
        (write_word (q + 8 * i) (bit_or proto gpa) mem) (q + 8 * j) (λ m lo' hi'. omega arith)
      ∙ here
      ∙ ap (bit_or proto) (rw none_on (omega arith))
  | inr e ↦
      let ne : i ≢ j = ground arith in
      let wide : (gpa + step) % 2 ^ 64 ≡ gpa + step = omega arith in
      let on : j - i ≡ j - (i + 1) + 1 = omega arith in
      rw wide (
        fill_split_inside n (i + 1) q proto (gpa + step) step
          (write_word (q + 8 * i) (bit_or proto gpa) mem) j (omega arith) (omega arith)
          (omega arith)
        ∙ ap (bit_or proto) (rw on (omega arith)))
]

-- The table that a large entry `e` of the level behind `k` becomes, at the page `q`.
abbrev pub split_memory : ℕ → ℕ → ℕ → ℕ → Memory → Memory
split_memory k e q ptep mem =
    write_word ptep (bit_or (bit_and (bit_and e (inv64 ept_large_page)) (inv64 ept_addr_mask)) q)
      (fill_split 512 0 q (split_prototype (suc (suc k)) e) (addr e) (span k) (zero_page q mem))

pub split_run :
    (ptep k q : ℕ) (xs : List ℕ) (s : Pages)
    → IsFree s (q ∷ xs)
    → k < 2
    → present (s.mem ptep) ≡ true
    → large (s.mem ptep) ≡ true
    → split_large_ept_entry ptep (suc (suc k)) s
      ≡ some (record { mem = split_memory k (s.mem ptep) q ptep s.mem; freelist = s.mem q })
unfolding split_large_ept_entry
split_run ptep k q xs s f hk pr lg =
    let e = s.mem ptep in
    let (al, nz, f') = alloc_page_first s q xs f in
    let t1 : (bit_and e ept_present == 0) ≡ false = ground arith in
    let t2 : (bit_and e ept_large_page == 0) ≡ false = ground arith in
    let t3 : (suc (suc k) == 2 || suc (suc k) == 3) ≡ true = ground arith in
    let t4 : (q == 0) ≡ false = ground arith in
    let lv : suc (suc k) - 1 ≡ suc k = omega arith in
    rw (al, t1, t2, t3, t4, lv, level_shift-span k)
