-- ===== src/Base/Bits.antt =====
-- The laws of `bit_and` and `bit_or` that masks and fields need, for every width. Each operation is
-- known by its lowest digit; from that follow the digit at every place, and the split of a word
-- into two fields.
use Prim.Native.Nat.{
  ℕ, zero, suc, ◌+◌, ◌-◌, ◌*◌, ◌/◌, ◌%◌, ◌^◌, ◌≤◌, ◌<◌, min, max, bit_and, bit_or, digits,
  bit_and-bitwise, bit_or-bitwise,
}
use mathlib.Core.Path.{◌≡◌, refl, ap, ◌∙◌}
use native.Mathlib.Nat.{pow-suc, one-le-pow, add-zero}
use native.Mathlib.Omega.{arith}

-- The digit of `x` at place `i`.
pub bit : ℕ → ℕ → ℕ
bit x zero = x % 2
bit x (suc i) = bit (x / 2) i

pub bit-lt : (x i : ℕ) → bit x i < 2
unfolding bit
bit-lt x zero = omega arith
bit-lt x (suc i) = bit-lt (x / 2) i

-- Numbers with the same digits are equal.
bits_agree : (n a b : ℕ) → a ≤ n → b ≤ n → ((i : ℕ) → bit a i ≡ bit b i) → a ≡ b
unfolding bit
bits_agree zero a b p q h = omega arith
bits_agree (suc n) a b p q h =
    omega (arith, h 0, bits_agree n (a / 2) (b / 2) (omega arith) (omega arith) (λ i. h (suc i)))

pub bit_ext : (a b : ℕ) → ((i : ℕ) → bit a i ≡ bit b i) → a ≡ b
bit_ext a b h = bits_agree (a + b) a b (omega arith) (omega arith) h

-- The prelude defines an operation by its digits with fuel; enough fuel is as good as more.
module _ (z : ℕ → ℕ) (f : ℕ → ℕ → ℕ) where
  fuel_irrelevant : (a b n m : ℕ) → a ≤ n → a ≤ m → digits z f n a b ≡ digits z f m a b
  fuel_irrelevant zero b zero zero p q = refl
  fuel_irrelevant zero b zero (suc m) p q = refl
  fuel_irrelevant zero b (suc n) zero p q = refl
  fuel_irrelevant zero b (suc n) (suc m) p q = refl
  fuel_irrelevant (suc a) b zero m p q = absurd (omega arith)
  fuel_irrelevant (suc a) b (suc n) zero p q = absurd (omega arith)
  fuel_irrelevant (suc a) b (suc n) (suc m) p q =
      ap (λ (t : ℕ). t * 2 + f (suc a % 2) (b % 2))
        (fuel_irrelevant (suc a / 2) (b / 2) n m (omega arith) (omega arith))

and_step : (a b : ℕ) → bit_and a b ≡ bit_and (a / 2) (b / 2) * 2 + min (a % 2) (b % 2)
and_step zero b = omega (arith, bit_and-bitwise 0 b, bit_and-bitwise 0 (b / 2))
and_step (suc a) b = omega (
  arith,
  bit_and-bitwise (suc a) b,
  bit_and-bitwise (suc a / 2) (b / 2),
  fuel_irrelevant (λ y. 0) min (suc a / 2) (b / 2) a (suc a / 2) (omega arith) (omega arith),
)

or_step : (a b : ℕ) → bit_or a b ≡ bit_or (a / 2) (b / 2) * 2 + max (a % 2) (b % 2)
or_step zero b = omega (arith, bit_or-bitwise 0 b, bit_or-bitwise 0 (b / 2))
or_step (suc a) b = omega (
  arith,
  bit_or-bitwise (suc a) b,
  bit_or-bitwise (suc a / 2) (b / 2),
  fuel_irrelevant (λ y. y) max (suc a / 2) (b / 2) a (suc a / 2) (omega arith) (omega arith),
)

field_double : (k a : ℕ) → a * 2 ^ suc k ≡ a * 2 ^ k * 2
field_double k a = omega (arith, ap (λ (t : ℕ). a * t) (pow-suc 2 k))

-- What follows from the equation for the lowest digit alone.
module _ (op f : ℕ → ℕ → ℕ) (step : (a b : ℕ) → op a b ≡ op (a / 2) (b / 2) * 2 + f (a % 2) (b % 2))
    (small : (a b : ℕ) → a < 2 → b < 2 → f a b < 2) (none_set : op 0 0 ≡ 0) where
  op_halves : (a b : ℕ) → op a b / 2 ≡ op (a / 2) (b / 2)
  op_halves a b = omega (arith, step a b, small (a % 2) (b % 2) (omega arith) (omega arith))

  bit-op : (a b i : ℕ) → bit (op a b) i ≡ f (bit a i) (bit b i)
  unfolding bit
  bit-op a b zero = omega (arith, step a b, small (a % 2) (b % 2) (omega arith) (omega arith))
  bit-op a b (suc i) = rw (op_halves a b) (bit-op (a / 2) (b / 2) i)

  op_fields :
      (k a x b y : ℕ)
      → x < 2 ^ k
      → y < 2 ^ k
      → op (a * 2 ^ k + x) (b * 2 ^ k + y) ≡ op a b * 2 ^ k + op x y
  op_fields zero a x b y p q =
      let ex : x ≡ 0 = omega arith in
      let ey : y ≡ 0 = omega arith in rw (ex, ey, none_set) (ground arith)
  op_fields (suc k) a x b y p q =
      let ea : (a * 2 ^ suc k + x) / 2 ≡ a * 2 ^ k + x / 2 = omega (arith, field_double k a) in
      let eb : (b * 2 ^ suc k + y) / 2 ≡ b * 2 ^ k + y / 2 = omega (arith, field_double k b) in
      let da : (a * 2 ^ suc k + x) % 2 ≡ x % 2 = omega (arith, field_double k a) in
      let db : (b * 2 ^ suc k + y) % 2 ≡ y % 2 = omega (arith, field_double k b) in
      let ih : op (a * 2 ^ k + x / 2) (b * 2 ^ k + y / 2) ≡ op a b * 2 ^ k + op (x / 2) (y / 2) =
        op_fields k a (x / 2) b (y / 2) (omega (arith, field_double k 1))
          (omega (arith, field_double k 1)) in
      rw (step (a * 2 ^ suc k + x) (b * 2 ^ suc k + y), ea, eb, da, db, ih)
        (omega (arith, field_double k (op a b), step x y))

and_small : (a b : ℕ) → a < 2 → b < 2 → min a b < 2
and_small a b p q = omega arith

or_small : (a b : ℕ) → a < 2 → b < 2 → max a b < 2
or_small a b p q = omega arith

pub bit-bit_and : (a b i : ℕ) → bit (bit_and a b) i ≡ min (bit a i) (bit b i)
bit-bit_and = bit-op bit_and min and_step and_small refl

pub bit-bit_or : (a b i : ℕ) → bit (bit_or a b) i ≡ max (bit a i) (bit b i)
bit-bit_or = bit-op bit_or max or_step or_small refl

pub bit_and_fields :
    (k a x b y : ℕ)
    → x < 2 ^ k
    → y < 2 ^ k
    → bit_and (a * 2 ^ k + x) (b * 2 ^ k + y) ≡ bit_and a b * 2 ^ k + bit_and x y
bit_and_fields = op_fields bit_and min and_step and_small refl

pub bit_or_fields :
    (k a x b y : ℕ)
    → x < 2 ^ k
    → y < 2 ^ k
    → bit_or (a * 2 ^ k + x) (b * 2 ^ k + y) ≡ bit_or a b * 2 ^ k + bit_or x y
bit_or_fields = op_fields bit_or max or_step or_small refl

bit_zero : (i : ℕ) → bit 0 i ≡ 0
unfolding bit
bit_zero zero = refl
bit_zero (suc i) = bit_zero i

pub bit_and-zero : (a : ℕ) → bit_and a 0 ≡ 0
bit_and-zero a = bit_ext _ _ (λ i. omega (arith, bit-bit_and a 0 i, bit_zero i))

pub bit_or-zero : (a : ℕ) → bit_or a 0 ≡ a
bit_or-zero a = bit_ext _ _ (λ i. omega (arith, bit-bit_or a 0 i, bit_zero i))

pub bit_or_comm : (a b : ℕ) → bit_or a b ≡ bit_or b a
bit_or_comm a b = bit_ext _ _ (λ i. omega (arith, bit-bit_or a b i, bit-bit_or b a i))

pub bit_and_comm : (a b : ℕ) → bit_and a b ≡ bit_and b a
bit_and_comm a b = bit_ext _ _ (λ i. omega (arith, bit-bit_and a b i, bit-bit_and b a i))

pub bit_and-bit_or : (a b : ℕ) → bit_and (bit_or a b) b ≡ b
bit_and-bit_or a b =
    bit_ext (bit_and (bit_or a b) b) b
      λ i. omega (arith, bit-bit_and (bit_or a b) b i, bit-bit_or a b i)

pub bit_or_assoc : (a b c : ℕ) → bit_or (bit_or a b) c ≡ bit_or a (bit_or b c)
bit_or_assoc a b c = bit_ext _ _ λ i. omega (
  arith,
  bit-bit_or (bit_or a b) c i,
  bit-bit_or a b i,
  bit-bit_or a (bit_or b c) i,
  bit-bit_or b c i,
)

-- The low `k` digits.
ones_self : (k x : ℕ) → x < 2 ^ k → bit_and x (2 ^ k - 1) ≡ x
ones_self zero x h = omega (arith, bit_and-zero x)
ones_self (suc k) x h = omega (
  arith,
  and_step x (2 ^ suc k - 1),
  field_double k 1,
  one-le-pow k 2,
  ap (λ (t : ℕ). bit_and (x / 2) t) half_ones,
  ones_self k (x / 2) (omega (arith, field_double k 1)),
)
  where
    half_ones : (2 ^ suc k - 1) / 2 ≡ 2 ^ k - 1
    half_ones = omega (arith, field_double k 1, one-le-pow k 2)

div-lt : (k x : ℕ) → x % 2 ^ k < 2 ^ k
div-lt k x = omega (arith, one-le-pow k 2)

cut : (k x : ℕ) → x ≡ x / 2 ^ k * 2 ^ k + x % 2 ^ k
cut k x = omega arith

-- A word cut at place `k`: with numerals for `k` and the mask these turn each mask of the source
-- into quotients and remainders.
pub bit_and_cut :
    (k x b y : ℕ)
    → y < 2 ^ k
    → bit_and x (b * 2 ^ k + y) ≡ bit_and (x / 2 ^ k) b * 2 ^ k + bit_and (x % 2 ^ k) y
bit_and_cut k x b y h =
    ap (λ (t : ℕ). bit_and t (b * 2 ^ k + y)) (cut k x)
    ∙ bit_and_fields k (x / 2 ^ k) (x % 2 ^ k) b y (div-lt k x) h

pub bit_or_cut :
    (k x b y : ℕ)
    → y < 2 ^ k
    → bit_or x (b * 2 ^ k + y) ≡ bit_or (x / 2 ^ k) b * 2 ^ k + bit_or (x % 2 ^ k) y
bit_or_cut k x b y h =
    ap (λ (t : ℕ). bit_or t (b * 2 ^ k + y)) (cut k x)
    ∙ bit_or_fields k (x / 2 ^ k) (x % 2 ^ k) b y (div-lt k x) h

pub bit_and_ones : (k x : ℕ) → bit_and x (2 ^ k - 1) ≡ x % 2 ^ k
bit_and_ones k x = ground (
  arith,
  bit_and_cut k x 0 (2 ^ k - 1) (omega (arith, one-le-pow k 2)),
  bit_and-zero (x / 2 ^ k),
  ones_self k (x % 2 ^ k) (div-lt k x),
)

pub bit_and_shifted : (k x b : ℕ) → bit_and x (b * 2 ^ k) ≡ bit_and (x / 2 ^ k) b * 2 ^ k
bit_and_shifted k x b = ground (
  arith,
  bit_and_cut k x b 0 (omega (arith, one-le-pow k 2)),
  bit_and-zero (x % 2 ^ k),
  add-zero (b * 2 ^ k),
)

-- Disjoint fields: an `|` that is a sum.
pub bit_or_sum : (k a y : ℕ) → y < 2 ^ k → bit_or (a * 2 ^ k) y ≡ a * 2 ^ k + y
bit_or_sum k a y h = ground (
  arith,
  bit_or_fields k a 0 0 y (omega (arith, one-le-pow k 2)) h,
  bit_or-zero a,
  bit_or_comm 0 y,
  bit_or-zero y,
)

pub bit_or-lt : (k x y : ℕ) → x < 2 ^ k → y < 2 ^ k → bit_or x y < 2 ^ k
bit_or-lt zero x y p q = rw (e x p, e y q) (omega arith)
  where
    e : (x : ℕ) → x < 2 ^ 0 → x ≡ 0
    e x h = omega arith
bit_or-lt (suc k) x y p q = omega (
  arith,
  or_step x y,
  field_double k 1,
  bit_or-lt k (x / 2) (y / 2) (omega (arith, field_double k 1)) (omega (arith, field_double k 1)),
)
