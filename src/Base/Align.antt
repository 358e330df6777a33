-- ===== src/Base/Align.antt =====
-- Rounding a 64-bit word up to a power of two by masks (lib/libcflat.h).
use native.Mathlib.Nat.{
  pow-suc, one-le-pow, zero-add, one-mul, suc-mul, mod-lt, div-lt_iff_lt-mul, mod-eq_of_lt,
  div-add-mod', mul-mod_left,
}
use Prim.Native.Nat.{ℕ, zero, suc, ◌+◌, ◌-◌, ◌*◌, ◌/◌, ◌%◌, ◌^◌, ◌≤◌, ◌<◌, bit_and}
use mathlib.Core.Path.{◌≡◌, ap, sym, ◌∙◌}
use native.Mathlib.Omega.{arith}
use asor.Base.Bits.{bit_and_ones, bit_and_shifted}

-- ALIGN(x, a) of 64-bit words
pub align_up : ℕ → ℕ → ℕ
align_up x a =
    let mask = (a + 2 ^ 64 - 1) % 2 ^ 64 in bit_and ((x + mask) % 2 ^ 64) (2 ^ 64 - 1 - mask)

pow_add : (k j : ℕ) → 2 ^ (j + k) ≡ 2 ^ j * 2 ^ k
pow_add k zero = ap (λ (t : ℕ). 2 ^ t) (zero-add k) ∙ sym (one-mul (2 ^ k))
pow_add k (suc j) =
    ap (λ (t : ℕ). 2 ^ t) (omega arith)
    ∙ pow-suc 2 (j + k)
    ∙ ap (λ (t : ℕ). t * 2) (pow_add k j)
    ∙ product (2 ^ j) (2 ^ k)
    ∙ ap (λ (t : ℕ). t * 2 ^ k) (sym (pow-suc 2 j))
  where
    product : (a b : ℕ) → a * b * 2 ≡ a * 2 * b
    product a b = omega arith

less_one : (c b : ℕ) → 0 < c → c * b - b ≡ (c - 1) * b
less_one zero b h = absurd (omega arith)
less_one (suc c) b h = let e : suc c - 1 ≡ c = omega arith in rw (e, suc-mul c b) (omega arith)

-- The mask keeps what is above `k` digits.
round_down : (k j x : ℕ) → k + j ≡ 64 → x < 2 ^ 64 → bit_and x (2 ^ 64 - 2 ^ k) ≡ x / 2 ^ k * 2 ^ k
round_down k j x e h =
    ap (λ (t : ℕ). bit_and x (2 ^ t - 2 ^ k)) (sym e ∙ omega arith)
    ∙ ap (λ (t : ℕ). bit_and x t)
        (ap (λ (t : ℕ). t - 2 ^ k) (pow_add k j)
          ∙ less_one (2 ^ j) (2 ^ k) (one-le-pow j 2 (omega arith)))
    ∙ bit_and_shifted k x (2 ^ j - 1)
    ∙ ap (λ (t : ℕ). t * 2 ^ k) (bit_and_ones j (x / 2 ^ k) ∙ mod-eq_of_lt (below e))
  where
    below : k + j ≡ 64 → x / 2 ^ k < 2 ^ j
    below e =
        let top : 2 ^ (j + k) ≡ 2 ^ 64 =
          let e' : j + k ≡ 64 = omega arith in ap (λ (t : ℕ). 2 ^ t) e' in
        (div-lt_iff_lt-mul (one-le-pow k 2 (omega arith))).1
          (rw (← pow_add k j) (omega (arith, top, h)))

module _ (k x : ℕ) (hk : k < 64) (hx : x + 2 ^ k ≤ 2 ^ 64) where
  align_up_lem : align_up x (2 ^ k) ≡ (x + (2 ^ k - 1)) / 2 ^ k * 2 ^ k
  unfolding align_up
  align_up_lem =
      let m : (2 ^ k + 2 ^ 64 - 1) % 2 ^ 64 ≡ 2 ^ k - 1 =
        omega (arith, one-le-pow k 2 (omega arith)) in
      let w : (x + (2 ^ k - 1)) % 2 ^ 64 ≡ x + (2 ^ k - 1) =
        omega (arith, one-le-pow k 2 (omega arith)) in
      let c : 2 ^ 64 - 1 - (2 ^ k - 1) ≡ 2 ^ 64 - 2 ^ k =
        omega (arith, one-le-pow k 2 (omega arith)) in
      rw (m, w, c)
        (round_down k (64 - k) (x + (2 ^ k - 1)) (omega arith)
          (omega (arith, one-le-pow k 2 (omega arith))))

  pub align_up-bounds :
      (x ≤ align_up x (2 ^ k)) × (align_up x (2 ^ k) < x + 2 ^ k) × (align_up x (2 ^ k) % 2 ^ k ≡ 0)
  align_up-bounds =
      let n = x + (2 ^ k - 1) in
      let pos = one-le-pow k 2 (omega arith) in
      rw align_up_lem (
        omega (arith, div-add-mod' n (2 ^ k), mod-lt n pos),
        omega (arith, div-add-mod' n (2 ^ k), pos),
        mul-mod_left (n / 2 ^ k) (2 ^ k),
      )
