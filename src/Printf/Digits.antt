-- ===== src/Printf/Digits.antt =====
-- The digits of a number in an array: written from the lowest on, turned round in place, and ended
-- by a NUL.
use native.Mathlib.Nat.{div-add-mod', mod-lt, pow-suc, mul-le-mul_left, div-lt_iff_lt-mul}
use asor.Base.{
  ℕ, zero, suc, ◌+◌, ◌-◌, ◌*◌, ◌/◌, ◌%◌, ◌^◌, ◌≤◌, ◌<◌, ◌≡◌, refl, ap, ◌∙◌, ◌≢◌, inl, inr, true,
  false, ◌&&◌, ◌||◌, some, List, [], ◌∷◌, length, ltb, leb, ◌==◌, if◌then◌else◌, Bool-cases, arith,
}
use asor.CString.{Bytes, store_byte}
use asor.CString.Strings.Compare.{IsString}
use asor.Monitor.Numbers.{value, digit_value, digit_char, IsDigit, IsDigits}
use asor.Printf.{digit, digit_loop, swap_loop}

-- The first `n` bytes of an array, the last one first.
abbrev pub down : ℕ → Bytes → List ℕ
down zero buf = []
down (suc n) buf = buf n ∷ down n buf

pub length-down : (n : ℕ) (buf : Bytes) → length (down n buf) ≡ n
length-down zero buf = refl
length-down (suc n) buf = ap suc (length-down n buf)

pub down-store_byte : (n p v : ℕ) (buf : Bytes) → n ≤ p → down n (store_byte p v buf) ≡ down n buf
down-store_byte zero p v buf h = refl
down-store_byte (suc n) p v buf h =
    let off : (n == p) ≡ false = ground arith in rw (off, down-store_byte n p v buf (omega arith))

digit_value-digit : (i : ℕ) → i < 16 → digit_value (digit i) ≡ i
digit_value-digit i h = ground arith

digit-ne-zero : (i : ℕ) → i < 16 → digit i ≢ 0
digit-ne-zero i h = ground arith

IsDigit-digit : (i base : ℕ) → i < base → base ≤ 16 → IsDigit base (digit i)
unfolding digit_char
IsDigit-digit i base lt hi = (ground arith, ground arith)

digit-ne-'0' : (i : ℕ) → i < 16 → i ≢ 0 → digit i ≢ b'0'
digit-ne-'0' i h nz = ground arith

-- What the loop over the digits of `n` leaves in the array from `p` on, when it ends at `q`.
pub record Digits (n base p : ℕ) (buf : Bytes) (q : ℕ) (buf' : Bytes) : Type 0 where
  pub above : p ≤ q
  pub number : value base 0 (down q buf') ≡ value base n (down p buf)
  pub below : (a : ℕ) → a < p → buf' a ≡ buf a
  pub chars : (a : ℕ) → p ≤ a → a < q → (buf' a ≢ 0) × IsDigit base (buf' a)
  pub top : n ≢ 0 → (p < q) × (buf' (q - 1) ≢ b'0')
  pub none_for_zero : n ≡ 0 → q ≡ p

abbrev pub DigitsWritten : ℕ → ℕ → ℕ → ℕ → Bytes → Type 0
DigitsWritten fuel n base p buf =
    (q : ℕ) × (buf' : Bytes) × (digit_loop fuel n base p buf ≡ some (q, buf'))
    × (q < p + fuel)
    × Digits n base p buf q buf'

number_step :
    (n base p q : ℕ) (buf buf' : Bytes)
    → n % base < base
    → base ≤ 16
    → value base 0 (down q buf')
      ≡ value base (n / base) (down (p + 1) (store_byte p (digit (n % base)) buf))
    → value base 0 (down q buf') ≡ value base n (down p buf)
number_step n base p q buf buf' lt hi e =
    let s : p + 1 ≡ suc p = omega arith in
    let self : (p == p) ≡ true = ground arith in
    let v : n / base * base + digit_value (digit (n % base)) ≡ n =
      ap (λ (t : ℕ). n / base * base + t) (digit_value-digit (n % base) (omega arith))
      ∙ div-add-mod' n base in
    rw e (rw (s, self, down-store_byte p p (digit (n % base)) buf (omega arith), v))

half_of : (m fuel base : ℕ) → 2 ≤ base → m < 2 ^ suc fuel → m / base < 2 ^ fuel
half_of m fuel base lo h =
    (div-lt_iff_lt-mul (omega arith)).1
      (omega (arith, pow-suc 2 fuel, mul-le-mul_left (2 ^ fuel) lo, h))

top_digit :
    (m base p q : ℕ) (buf buf' : Bytes)
    → m ≢ 0
    → 2 ≤ base
    → base ≤ 16
    → buf' p ≡ digit (m % base)
    → Digits (m / base) base (p + 1) buf q buf'
    → buf' (q - 1) ≢ b'0'
top_digit m base p q buf buf' nz lo hi at D = elim (Bool-cases (m / base == 0)) [
  | inl last ↦
      let z : m / base ≡ 0 = ground arith in
      let end : q - 1 ≡ p = omega (arith, D.none_for_zero z) in
      let whole : m % base ≡ m = omega (arith, div-add-mod' m base, ap (λ (t : ℕ). t * base) z) in
      rw (end, at)
        (let lt : m % base < base = mod-lt m (omega arith) in
          digit-ne-'0' (m % base) (omega arith) (rw whole nz))
  | inr more ↦ (D.top (ground arith)).1
]

-- The fuel is enough for numbers of so many binary digits.
pub digit_loop_lem :
    (fuel n base p : ℕ) (buf : Bytes)
    → 2 ≤ base
    → base ≤ 16
    → n < 2 ^ fuel
    → DigitsWritten (suc fuel) n base p buf
unfolding digit_loop
digit_loop_lem fuel zero base p buf lo hi h = (
  p,
  buf,
  refl,
  omega arith,
  record {
    above = omega arith;
    number = refl;
    below = λ a lt. refl;
    chars = λ a le lt. absurd (omega arith);
    top = λ nz. absurd (nz refl);
    none_for_zero = λ z. refl;
  },
)
digit_loop_lem zero (suc n) base p buf lo hi h = absurd (omega arith)
digit_loop_lem (suc fuel) (suc n) base p buf lo hi h =
    let m = suc n in
    let lt : m % base < base = mod-lt m (omega arith) in
    let buf1 = store_byte p (digit (m % base)) buf in
    let (q, buf', run, bound, D) =
      digit_loop_lem fuel (m / base) base (p + 1) buf1 lo hi (half_of m fuel base lo h) in
    let f : (m == 0) ≡ false = ground arith in
    let at : buf' p ≡ digit (m % base) = D.below p (omega arith) ∙ ground arith in
    let first : (buf' p ≢ 0) × IsDigit base (buf' p) =
      rw at (digit-ne-zero (m % base) (omega arith), IsDigit-digit (m % base) base lt hi) in
    (
      q,
      buf',
      rw f run,
      omega arith,
      record {
        above = omega (arith, D.above);
        number = number_step m base p q buf buf' lt hi D.number;
        below = λ a l. D.below a (omega arith) ∙ ground arith;
        chars = λ a le l. elim (Bool-cases (a == p)) [
          | inl same ↦ let e : a ≡ p = ground arith in rw e first
          | inr other ↦ D.chars a (ground arith) l
        ];
        top = λ nz. (omega (arith, D.above), top_digit m base p q buf1 buf' nz lo hi at D);
        none_for_zero = λ z. absurd (omega arith);
      },
    )

-- The swaps of the outer `i + rounds` pairs, of which `i` are done.
swap_loop_lem :
    (rounds i p a : ℕ) (buf : Bytes)
    → i + rounds ≤ p / 2
    → swap_loop rounds i p buf a ≡ (
        if leb i a && ltb a (i + rounds) || leb (p - i - rounds) a && ltb a (p - i)
        then buf (p - 1 - a)
        else buf a)
unfolding swap_loop
swap_loop_lem zero i p a buf h =
    let f : (leb i a && ltb a (i + 0) || leb (p - i - 0) a && ltb a (p - i)) ≡ false =
      ground arith in
    rw f
swap_loop_lem (suc rounds) i p a buf h =
    let buf1 = store_byte (p - 1 - i) (buf i) (store_byte i (buf (p - 1 - i)) buf) in
    swap_loop_lem rounds (i + 1) p a buf1 (omega arith) ∙ swapped rounds i p a buf h
  where
    swapped :
        (rounds i p a : ℕ) (buf : Bytes)
        → i + suc rounds ≤ p / 2
        → (let buf1 = store_byte (p - 1 - i) (buf i) (store_byte i (buf (p - 1 - i)) buf) in
            if leb (i + 1) a && ltb a (i + 1 + rounds)
              || leb (p - (i + 1) - rounds) a && ltb a (p - (i + 1))
            then buf1 (p - 1 - a)
            else buf1 a)
          ≡ (if leb i a && ltb a (i + suc rounds) || leb (p - i - suc rounds) a && ltb a (p - i)
              then buf (p - 1 - a)
              else buf a)
    swapped rounds i p a buf h = elim (Bool-cases (a == i)) [
      | inl low ↦
          let e : a ≡ i = ground arith in
          let t : (leb (i + 1) i && ltb i (i + 1 + rounds)
                || leb (p - (i + 1) - rounds) i && ltb i (p - (i + 1)))
              ≡ false =
            ground arith in
          let t' : (leb i i && ltb i (i + suc rounds)
                || leb (p - i - suc rounds) i && ltb i (p - i))
              ≡ true =
            ground arith in
          let off : (i == p - 1 - i) ≡ false = ground arith in
          let self : (i == i) ≡ true = ground arith in rw (e, t, t', off, self)
      | inr not_low ↦ elim (Bool-cases (a == p - 1 - i)) [
        | inl high ↦
            let e : a ≡ p - 1 - i = ground arith in
            let t : (leb (i + 1) a && ltb a (i + 1 + rounds)
                  || leb (p - (i + 1) - rounds) a && ltb a (p - (i + 1)))
                ≡ false =
              ground arith in
            let t' : (leb i a && ltb a (i + suc rounds)
                  || leb (p - i - suc rounds) a && ltb a (p - i))
                ≡ true =
              ground arith in
            let back : p - 1 - a ≡ i = omega arith in rw (t, t', high, back)
        | inr not_high ↦
            elim (Bool-cases (
              leb (i + 1) a && ltb a (i + 1 + rounds)
              || leb (p - (i + 1) - rounds) a && ltb a (p - (i + 1)))) [
                | inl inner ↦
                    let t' : (leb i a && ltb a (i + suc rounds)
                          || leb (p - i - suc rounds) a && ltb a (p - i))
                        ≡ true =
                      ground arith in
                    let x : (p - 1 - a == p - 1 - i) ≡ false = ground arith in
                    let y : (p - 1 - a == i) ≡ false = ground arith in rw (inner, t', x, y)
                | inr outer ↦
                    let t' : (leb i a && ltb a (i + suc rounds)
                          || leb (p - i - suc rounds) a && ltb a (p - i))
                        ≡ false =
                      ground arith in
                    rw (outer, t', not_high, not_low)
              ]
      ]
    ]

-- The whole loop turns the first `p` bytes round.
reversed : (p a : ℕ) (buf : Bytes) → a < p → swap_loop (p / 2) 0 p buf a ≡ buf (p - 1 - a)
reversed p a buf lt =
    swap_loop_lem (p / 2) 0 p a buf (omega arith)
    ∙ (elim (Bool-cases (leb 0 a && ltb a (0 + p / 2) || leb (p - 0 - p / 2) a && ltb a (p - 0))) [
      | inl y ↦ rw y
      | inr n ↦ let middle : p - 1 - a ≡ a = ground arith in rw (n, middle)
    ])

down-IsString :
    (n i p : ℕ) (buf : Bytes)
    → n + i ≡ p
    → ((a : ℕ) → a < p → buf a ≢ 0)
    → IsString (down n buf) i (store_byte p 0 (swap_loop (p / 2) 0 p buf))
down-IsString zero i p buf e nz = ground arith
down-IsString (suc n) i p buf e nz =
    let off : (i == p) ≡ false = ground arith in
    let at : p - 1 - i ≡ n = omega arith in
    (
      rw off (reversed p i buf (omega arith) ∙ ap buf at),
      nz n (omega arith),
      down-IsString n (i + 1) p buf (omega arith) nz,
    )

pub IsDigits-down :
    (n base : ℕ) (buf : Bytes)
    → ((a : ℕ) → a < n → IsDigit base (buf a))
    → IsDigits base (down n buf)
IsDigits-down zero base buf h = tt
IsDigits-down (suc n) base buf h =
    (h n (omega arith), IsDigits-down n base buf (λ a lt. h a (omega arith)))

-- The array that is printed holds the digits with the highest first.
pub turned-IsString :
    (p : ℕ) (buf : Bytes)
    → ((a : ℕ) → a < p → buf a ≢ 0)
    → IsString (down p buf) 0 (store_byte p 0 (swap_loop (p / 2) 0 p buf))
turned-IsString p buf nz = down-IsString p 0 p buf (omega arith) nz
