-- ===== src/Ept/Entries.antt =====
-- The words that the code writes into tables, by their fields: a word is
-- `high * 2 ^ 52 + page * 2 ^ 12 + low`.
use asor.Base.{
  ℕ, ◌+◌, ◌-◌, ◌*◌, ◌/◌, ◌%◌, ◌^◌, ◌<◌, ◌≡◌, ap, ap₂, ◌∙◌, bit_and, bit_or, not, ◌==◌, arith,
}
use asor.Base.Bits.{bit_and_ones, bit_and_cut, bit_or_cut, bit_or_sum, bit_or_assoc, bit_or-zero}
use asor.Ept.{ept_large_page, ept_addr_mask, ept_ra, ept_wa, ept_ea, inv64, split_prototype}
use asor.Ept.Walk.{present, large, addr, addr_lem, present_bits, large_bit}

abbrev pub word : ℕ → ℕ → ℕ → ℕ
word high page low = high * 2 ^ 52 + page * 2 ^ 12 + low

module _ (high page low : ℕ) (lt_high : high < 2 ^ 12) (lt_page : page < 2 ^ 40)
    (lt_low : low < 2 ^ 12) where
  pub addr-word : addr (word high page low) ≡ page * 2 ^ 12
  addr-word = omega (arith, addr_lem (word high page low))

  pub present-word : present (word high page low) ≡ not (low % 8 == 0)
  present-word = ap (λ (t : ℕ). not (t == 0)) (present_bits (word high page low) ∙ omega arith)

  pub large-word : large (word high page low) ≡ not (low / 2 ^ 7 % 2 == 0)
  large-word = ground (arith, large_bit (word high page low))

  -- `prototype | address`
  pub bit_or-word : bit_or (high * 2 ^ 52 + low) (page * 2 ^ 12) ≡ word high page low
  bit_or-word = ground (
    arith,
    bit_or_cut 12 (high * 2 ^ 52 + low) page 0 (omega arith),
    bit_or-zero ((high * 2 ^ 52 + low) % 2 ^ 12),
    bit_or_sum 40 high page lt_page,
    quotient,
    bit_or_zero_right,
  )
    where
      quotient : bit_or ((high * 2 ^ 52 + low) / 2 ^ 12) page ≡ bit_or (high * 2 ^ 40) page
      quotient = ap (λ (t : ℕ). bit_or t page) (omega arith)

      bit_or_zero_right :
          bit_or (high * 2 ^ 52 + low) (page * 2 ^ 12 + 0)
          ≡ bit_or (high * 2 ^ 52 + low) (page * 2 ^ 12)
      bit_or_zero_right = ap (λ (t : ℕ). bit_or (high * 2 ^ 52 + low) t) (omega arith)

-- A new table: read, write and execute.
pub table_entry :
    (q : ℕ)
    → q % 2 ^ 12 ≡ 0
    → q < 2 ^ 52
    → bit_or (bit_or (bit_or q ept_ra) ept_wa) ept_ea ≡ word 0 (q / 2 ^ 12) 7
table_entry q al lt =
    bit_or_assoc (bit_or q 1) 2 4
    ∙ bit_or_assoc q 1 6
    ∙ ap (λ (t : ℕ). bit_or t 7) whole
    ∙ bit_or_sum 12 (q / 2 ^ 12) 7 (omega arith)
    ∙ omega arith
  where
    whole : q ≡ q / 2 ^ 12 * 2 ^ 12
    whole = omega arith

not_addr : (e : ℕ) → bit_and e (inv64 ept_addr_mask) ≡ e / 2 ^ 52 % 2 ^ 12 * 2 ^ 52 + e % 2 ^ 12
not_addr e = omega (
  arith,
  bit_and_cut 52 e (2 ^ 12 - 1) (2 ^ 12 - 1) (omega arith),
  bit_and_ones 12 (e / 2 ^ 52),
  bit_and_ones 12 (e % 2 ^ 52),
)

not_large : (e : ℕ) → bit_and e (inv64 ept_large_page) ≡ e / 2 ^ 8 % 2 ^ 56 * 2 ^ 8 + e % 2 ^ 7
not_large e = omega (
  arith,
  bit_and_cut 8 e (2 ^ 56 - 1) (2 ^ 7 - 1) (omega arith),
  bit_and_ones 56 (e / 2 ^ 8),
  bit_and_ones 7 (e % 2 ^ 8),
)

-- The attributes of an entry without the bit that tells a large page.
abbrev pub plain : ℕ → ℕ
plain e = e / 2 ^ 8 % 2 ^ 4 * 2 ^ 8 + e % 2 ^ 7

abbrev pub high_bits : ℕ → ℕ
high_bits e = e / 2 ^ 52 % 2 ^ 12

pub split_prototype-2 : (e : ℕ) → split_prototype 2 e ≡ high_bits e * 2 ^ 52 + plain e
unfolding split_prototype
split_prototype-2 e =
    rw (not_addr e) (omega (arith, not_large (e / 2 ^ 52 % 2 ^ 12 * 2 ^ 52 + e % 2 ^ 12)))

pub split_prototype-3 : (e : ℕ) → split_prototype 3 e ≡ high_bits e * 2 ^ 52 + e % 2 ^ 12
unfolding split_prototype
split_prototype-3 e = not_addr e

-- What a large entry becomes when it leads to the table `q`.
pub split_entry :
    (e q : ℕ)
    → q % 2 ^ 12 ≡ 0
    → q < 2 ^ 52
    → bit_or (bit_and (bit_and e (inv64 ept_large_page)) (inv64 ept_addr_mask)) q
      ≡ word (high_bits e) (q / 2 ^ 12) (plain e)
split_entry e q al lt =
    ap₂ bit_or fields whole
    ∙ bit_or-word (high_bits e) (q / 2 ^ 12) (plain e) (omega arith) (omega arith) (omega arith)
  where
    whole : q ≡ q / 2 ^ 12 * 2 ^ 12
    whole = omega arith

    fields :
        bit_and (bit_and e (inv64 ept_large_page)) (inv64 ept_addr_mask)
        ≡ high_bits e * 2 ^ 52 + plain e
    fields =
        not_addr (bit_and e (inv64 ept_large_page))
        ∙ ap (λ (t : ℕ). t / 2 ^ 52 % 2 ^ 12 * 2 ^ 52 + t % 2 ^ 12) (not_large e)
        ∙ omega arith
