-- ===== src/Ept/Parts.antt =====
-- The parts of a large entry say of each address what the large entry said.
use asor.Base.{
  ℕ, zero, suc, ◌+◌, ◌*◌, ◌/◌, ◌%◌, ◌^◌, ◌<◌, ◌≡◌, refl, ap, ap₂, ◌∙◌, ◌⊎◌, inl, inr, bit_or, true,
  not, ◌==◌, arith,
}
use asor.Ept.{split_prototype}
use asor.Ept.Walk.{span, present, large, addr, addr_lem, present_bits, large_bit, Leaf, leaf}
use asor.Ept.Entries.{
  word, high_bits, plain, addr-word, present-word, large-word, bit_or-word, split_prototype-2,
  split_prototype-3,
}

pub Leaf_ext :
    (h l m u h' l' m' u' : ℕ)
    → h ≡ h'
    → l ≡ l'
    → m ≡ m'
    → u ≡ u'
    → ◌≡◌ {A = Leaf}
        (record { hpa = h; low = l; middle = m; high = u })
        (record { hpa = h'; low = l'; middle = m'; high = u' })
Leaf_ext h l m u h' l' m' u' a b c d = cc

-- The low bits of a part.
abbrev pub part_low : ℕ → ℕ → ℕ
part_low zero e = plain e
part_low (suc k) e = e % 2 ^ 12

abbrev pub part : ℕ → ℕ → ℕ → ℕ
part k e j = word (high_bits e) (e / 2 ^ 12 % 2 ^ 40 + j * 512 ^ k) (part_low k e)

module _ (e j : ℕ) (small : j < 512) where
  part_page_0 : addr e % span 1 ≡ 0 → e / 2 ^ 12 % 2 ^ 40 + j * 512 ^ 0 < 2 ^ 40
  unfolding span
  part_page_0 al = omega (arith, addr_lem e)

  part_page_1 : addr e % span 2 ≡ 0 → e / 2 ^ 12 % 2 ^ 40 + j * 512 ^ 1 < 2 ^ 40
  unfolding span
  part_page_1 al = omega (arith, addr_lem e)

  pub part_word_0 :
      addr e % span 1 ≡ 0 → bit_or (split_prototype 2 e) (addr e + j * span 0) ≡ part 0 e j
  unfolding span
  part_word_0 al =
      ap₂ bit_or (split_prototype-2 e) (omega (arith, addr_lem e))
      ∙ bit_or-word (high_bits e) (e / 2 ^ 12 % 2 ^ 40 + j * 512 ^ 0) (plain e) (omega arith)
          (part_page_0 al) (omega arith)

  pub part_word_1 :
      addr e % span 2 ≡ 0 → bit_or (split_prototype 3 e) (addr e + j * span 1) ≡ part 1 e j
  unfolding span
  part_word_1 al =
      ap₂ bit_or (split_prototype-3 e) (omega (arith, addr_lem e))
      ∙ bit_or-word (high_bits e) (e / 2 ^ 12 % 2 ^ 40 + j * 512 ^ 1) (e % 2 ^ 12) (omega arith)
          (part_page_1 al) (omega arith)

  pub part-leaf_0 :
      (ga : ℕ) → addr e % span 1 ≡ 0 → j ≡ ga / span 0 % 512 → leaf 0 (part 0 e j) ga ≡ leaf 1 e ga
  unfolding span
  part-leaf_0 ga al at =
      let w =
        addr-word (high_bits e) (e / 2 ^ 12 % 2 ^ 40 + j * 512 ^ 0) (plain e) (omega arith)
          (part_page_0 al) (omega arith) in
      Leaf_ext _ _ _ _ _ _ _ _ (omega (arith, w, addr_lem e)) (omega arith) (omega arith)
        (omega (arith, part_page_0 al))

  pub part-leaf_1 :
      (ga : ℕ) → addr e % span 2 ≡ 0 → j ≡ ga / span 1 % 512 → leaf 1 (part 1 e j) ga ≡ leaf 2 e ga
  unfolding span
  part-leaf_1 ga al at =
      let w =
        addr-word (high_bits e) (e / 2 ^ 12 % 2 ^ 40 + j * 512 ^ 1) (e % 2 ^ 12) (omega arith)
          (part_page_1 al) (omega arith) in
      Leaf_ext _ _ _ _ _ _ _ _ (omega (arith, w, addr_lem e)) (omega arith) (omega arith)
        (omega (arith, part_page_1 al))

-- Both levels together: `suc (suc k)` is the level that is split.
pub part_word :
    (k e j : ℕ)
    → k < 2
    → j < 512
    → addr e % span (suc k) ≡ 0
    → bit_or (split_prototype (suc (suc k)) e) (addr e + j * span k) ≡ part k e j
part_word zero e j h small al = part_word_0 e j small al
part_word (suc zero) e j h small al = part_word_1 e j small al
part_word (suc (suc k)) e j h small al = absurd (omega arith)

-- A part of a large entry is present, and it is large unless it is an entry of the last level.
pub record IsPart (k e w : ℕ) : Type 0 where
  pub there : present w ≡ true
  pub big : (k ≡ 0) ⊎ (large w ≡ true)
  pub aligned : addr w % span k ≡ 0

pub part-IsPart :
    (k e j : ℕ)
    → k < 2
    → j < 512
    → present e ≡ true
    → large e ≡ true
    → addr e % span (suc k) ≡ 0
    → IsPart k e (part k e j)
unfolding span
part-IsPart zero e j h small pr lg al = record {
  there =
      present-word (high_bits e) (e / 2 ^ 12 % 2 ^ 40 + j * 512 ^ 0) (plain e) (omega arith)
        (part_page_0 e j small al) (omega arith)
      ∙ ap (λ (t : ℕ). not (t == 0)) (omega (arith, present_bits e))
      ∙ pr;
  big = inl refl;
  aligned = omega (arith, addr_lem (part 0 e j));
}
part-IsPart (suc zero) e j h small pr lg al = record {
  there =
      present-word (high_bits e) (e / 2 ^ 12 % 2 ^ 40 + j * 512 ^ 1) (e % 2 ^ 12) (omega arith)
        (part_page_1 e j small al) (omega arith)
      ∙ ap (λ (t : ℕ). not (t == 0)) (omega (arith, present_bits e))
      ∙ pr;
  big = inr (
      large-word (high_bits e) (e / 2 ^ 12 % 2 ^ 40 + j * 512 ^ 1) (e % 2 ^ 12) (omega arith)
        (part_page_1 e j small al) (omega arith)
      ∙ ground (arith, large_bit e));
  aligned = omega (arith, addr_lem (part 1 e j), addr_lem e);
}
part-IsPart (suc (suc k)) e j h small pr lg al = absurd (omega arith)
