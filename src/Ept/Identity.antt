-- ===== src/Ept/Identity.antt =====
-- `setup_ept_range`: a range from address 0 on is mapped to itself, with pages of any size.
use native.Mathlib.Nat.{div-add-mod'}
use asor.Base.{
  ℕ, zero, suc, ◌+◌, ◌-◌, ◌*◌, ◌/◌, ◌%◌, ◌^◌, ◌<◌, ◌≡◌, refl, ap, ◌∙◌, ◌⊎◌, inl, inr, bit_and,
  bit_or, true, not, some, ◌==◌, arith,
}
use asor.Base.Bits.{bit_and_ones, bit_and_shifted, bit_or_sum, bit_or_cut, bit_or-zero}
use asor.Memory.{page_size}
use asor.Ept.{inv64, ept_large_page}
use asor.Ept.Walk.{span, present, large, addr, Leaf}
use asor.Ept.Entries.{word, addr-word, present-word, large-word}
use asor.Ept.Parts.{Leaf_ext}
use asor.Ept.Final.{IsLeaf, leaf?}

-- An address mapped to itself with the permissions `perm`.
abbrev pub ident : ℕ → ℕ → Leaf
ident perm ga = record { hpa = ga; low = perm; middle = 0; high = 0 }

page_mask :
    (phys : ℕ) → phys < 2 ^ 64 → bit_and phys (inv64 (page_size - 1)) ≡ phys / 2 ^ 12 * 2 ^ 12
page_mask phys h =
    omega (arith, bit_and_shifted 12 phys (2 ^ 52 - 1), bit_and_ones 52 (phys / 2 ^ 12))

abbrev pub ident_low : ℕ → ℕ → ℕ
ident_low zero perm = perm
ident_low (suc f) perm = perm + 2 ^ 7

-- The entry that maps the page at `phys` to itself.
abbrev pub ident_entry : ℕ → ℕ → ℕ → ℕ
ident_entry f phys perm = word 0 (phys / 2 ^ 12) (ident_low f perm)

pub small_entry :
    (phys perm : ℕ)
    → phys < 2 ^ 48
    → perm < 8
    → bit_or (bit_and phys (inv64 (page_size - 1))) perm ≡ ident_entry 0 phys perm
small_entry phys perm h hp =
    ap (λ (t : ℕ). bit_or t perm) (page_mask phys (omega arith))
    ∙ bit_or_sum 12 (phys / 2 ^ 12) perm (omega arith)
    ∙ omega arith

pub large_entry :
    (f phys perm : ℕ)
    → phys < 2 ^ 48
    → perm < 8
    → bit_or (bit_or (bit_and phys (inv64 (page_size - 1))) perm) ept_large_page
      ≡ ident_entry (suc f) phys perm
large_entry f phys perm h hp =
    ap (λ (t : ℕ). bit_or t ept_large_page) (small_entry phys perm h hp ∙ omega arith)
    ∙ bit_or_cut 7 (phys / 2 ^ 12 * 2 ^ 12 + perm) 1 0 (omega arith)
    ∙ omega (
      arith,
      bit_or-zero ((phys / 2 ^ 12 * 2 ^ 12 + perm) % 2 ^ 7),
      ap (λ (t : ℕ). bit_or t 1) half,
      bit_or_sum 5 (phys / 2 ^ 12) 1 (omega arith),
    )
  where
    half : (phys / 2 ^ 12 * 2 ^ 12 + perm) / 2 ^ 7 ≡ phys / 2 ^ 12 * 2 ^ 5
    half = omega arith

module _ (phys perm : ℕ) (h : phys < 2 ^ 48) (low : perm < 8) (some_perm : 0 < perm) where
  ident_low-lt : (f : ℕ) → ident_low f perm < 2 ^ 12
  ident_low-lt zero = omega arith
  ident_low-lt (suc f) = omega arith

  pub ident_addr : (f : ℕ) → addr (ident_entry f phys perm) ≡ phys / 2 ^ 12 * 2 ^ 12
  ident_addr f =
      addr-word 0 (phys / 2 ^ 12) (ident_low f perm) (omega arith) (omega arith) (ident_low-lt f)

  pub ident_present : (f : ℕ) → present (ident_entry f phys perm) ≡ true
  ident_present f =
      present-word 0 (phys / 2 ^ 12) (ident_low f perm) (omega arith) (omega arith) (ident_low-lt f)
      ∙ bits f
    where
      bits : (f : ℕ) → not (ident_low f perm % 8 == 0) ≡ true
      bits zero = ground arith
      bits (suc f) = ground arith

  ident_large : (f : ℕ) → large (ident_entry (suc f) phys perm) ≡ true
  ident_large f =
      large-word 0 (phys / 2 ^ 12) (perm + 2 ^ 7) (omega arith) (omega arith) (omega arith)
      ∙ ground arith

  ident_aligned : (f : ℕ) → f < 3 → phys % span f ≡ 0 → phys / 2 ^ 12 * 2 ^ 12 ≡ phys
  unfolding span
  ident_aligned zero hf al = omega arith
  ident_aligned (suc zero) hf al = omega arith
  ident_aligned (suc (suc zero)) hf al = omega arith
  ident_aligned (suc (suc (suc f))) hf al = absurd (omega arith)

  pub ident-IsLeaf : (f : ℕ) → f < 3 → phys % span f ≡ 0 → IsLeaf f (ident_entry f phys perm)
  ident-IsLeaf f hf al = record {
    large_above = λ pr. above f;
    big = λ pr lg. (omega arith, rw (ident_addr f, ident_aligned f hf al) al);
  }
    where
      above : (f : ℕ) → (f ≡ 0) ⊎ (large (ident_entry f phys perm) ≡ true)
      above zero = inl refl
      above (suc f) = inr (ident_large f)

  pub ident-leaf :
      (f ga : ℕ)
      → f < 3
      → phys % span f ≡ 0
      → ga / span f ≡ phys / span f
      → leaf? f (ident_entry f phys perm) ga ≡ some (ident perm ga)
  ident-leaf f ga hf al e = rw (ident_present f) (
      ap some (
        Leaf_ext _ _ _ _ _ _ _ _
          (rw (ident_addr f, ident_aligned f hf al, ← e) (div-add-mod' ga (span f))) (low_bits f)
          (middle_bits f) (high_bits f)))
    where
      low_bits : (f : ℕ) → ident_entry f phys perm % 2 ^ 7 ≡ perm
      low_bits zero = omega arith
      low_bits (suc f) = omega arith

      middle_bits : (f : ℕ) → ident_entry f phys perm / 2 ^ 8 % 2 ^ 4 ≡ 0
      middle_bits zero = omega arith
      middle_bits (suc f) = omega arith

      high_bits : (f : ℕ) → ident_entry f phys perm / 2 ^ 52 % 2 ^ 12 ≡ 0
      high_bits zero = omega arith
      high_bits (suc f) = omega arith
