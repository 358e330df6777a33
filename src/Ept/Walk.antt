-- ===== src/Ept/Walk.antt =====
-- What the processor does with the tables: the walk from a table down to a leaf, and what the leaf
-- says of a guest physical address. `l` is the level less one, so that a table of `l` maps `span l`
-- bytes with each entry.
use native.Mathlib.Nat.{div-div-eq-div-mul}
use native.Mathlib.Numerals.{towards_suc}
use asor.Base.{
  ℕ, zero, suc, ◌+◌, ◌-◌, ◌*◌, ◌/◌, ◌%◌, ◌^◌, ◌<◌, ◌≡◌, refl, ap, sym, ◌∙◌, bit_and, Bool, not,
  Option, none, some, ◌==◌, if◌then◌else◌, arith,
}
use asor.Base.Bits.{bit_and_ones, bit_and_shifted}
use asor.Memory.{Memory}
use asor.Ept.{ept_present, ept_large_page, ept_addr_mask, level_shift, entry_addr}

unfoldable pub span : ℕ → ℕ
span zero = 2 ^ 12
span (suc l) = span l * 512

abbrev pub present : ℕ → Bool
present e = not (bit_and e ept_present == 0)

abbrev pub large : ℕ → Bool
large e = not (bit_and e ept_large_page == 0)

abbrev pub addr : ℕ → ℕ
addr e = bit_and e ept_addr_mask

-- The entry of the table `pt` that is for `ga`.
abbrev pub slot : ℕ → ℕ → ℕ → ℕ
slot l pt ga = pt + 8 * (ga / span l % 512)

-- The host physical address for `ga`, and the attributes of the entry without the bit that tells a
-- large page: bits 0 to 6, 8 to 11, and 52 to 63.
pub record Leaf : Type 0 where
  pub hpa : ℕ
  pub low : ℕ
  pub middle : ℕ
  pub high : ℕ

abbrev pub leaf : ℕ → ℕ → ℕ → Leaf
leaf l e ga = record {
  hpa = addr e / span l * span l + ga % span l;
  low = e % 2 ^ 7;
  middle = e / 2 ^ 8 % 2 ^ 4;
  high = e / 2 ^ 52 % 2 ^ 12;
}

unfoldable pub translate : ℕ → Memory → ℕ → ℕ → Option Leaf
translate zero mem pt ga =
    let e = mem (slot 0 pt ga) in if present e then some (leaf 0 e ga) else none
translate (suc l) mem pt ga =
    let e = mem (slot (suc l) pt ga) in
    let below = translate l mem (addr e) ga in
    if present e then (if large e then some (leaf (suc l) e ga) else below) else none

pub span-pos : (l : ℕ) → 0 < span l
unfolding span
span-pos zero = omega arith
span-pos (suc l) = omega (arith, span-pos l)

pub level_shift-span : (l : ℕ) → 2 ^ level_shift (suc l) ≡ span l
unfolding span
level_shift-span zero = refl
level_shift-span (suc l) =
    let e : level_shift (suc (suc l)) ≡ level_shift (suc l) + 8 + 1 = omega arith in
    rw e (nine (level_shift (suc l)) ∙ ap (λ (t : ℕ). t * 512) (level_shift-span l))
  where
    nine : (s : ℕ) → 2 ^ (s + 8 + 1) ≡ 2 ^ s * 512
    nine s = simp towards_suc (omega arith)

-- The address that the code computes.
pub entry_addr-slot : (l pt ga : ℕ) → entry_addr pt (suc l) ga ≡ slot l pt ga
entry_addr-slot l pt ga =
    rw (level_shift-span l) (ap (λ (t : ℕ). pt + 8 * t) (bit_and_ones 9 (ga / span l)))

pub div-span-suc : (l ga : ℕ) → ga / span (suc l) ≡ ga / span l / 512
unfolding span
div-span-suc l ga = sym (div-div-eq-div-mul ga (span l) 512)

pub addr_lem : (e : ℕ) → addr e ≡ e / 2 ^ 12 % 2 ^ 40 * 2 ^ 12
addr_lem e =
    bit_and_shifted 12 e (2 ^ 40 - 1) ∙ ap (λ (t : ℕ). t * 2 ^ 12) (bit_and_ones 40 (e / 2 ^ 12))

pub present_bits : (e : ℕ) → bit_and e ept_present ≡ e % 8
present_bits e = bit_and_ones 3 e

pub large_bit : (e : ℕ) → bit_and e ept_large_page ≡ e / 2 ^ 7 % 2 * 2 ^ 7
large_bit e = bit_and_shifted 7 e 1 ∙ ap (λ (t : ℕ). t * 2 ^ 7) (bit_and_ones 1 (e / 2 ^ 7))
