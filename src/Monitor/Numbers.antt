-- ===== src/Monitor/Numbers.antt =====
-- What the console writes for a number: `monitor_write_hex` and `monitor_write_dec` against the
-- value of the digits that they send.
use native.Mathlib.Nat.{div-div-eq-div-mul}
use native.Mathlib.Numerals.{towards_suc}
use asor.Base.{
  ℕ, zero, suc, ◌+◌, ◌-◌, ◌*◌, ◌/◌, ◌%◌, ◌^◌, ◌<◌, ◌≡◌, refl, ap, sym, ◌≢◌, inl, inr, ◌∙◌, bit_and,
  Bool, true, false, ◌&&◌, some, List, [], ◌∷◌, ◌++◌, leb, ◌==◌, if◌then◌else◌, Bool-cases, arith,
  NonZero,
}
use asor.Base.Bits.{bit_and_ones}
use asor.Monitor.{MColor, Monitor, put, write_color, hex_char, hex_loop, write_hex}

abbrev pub digit_value : ℕ → ℕ
digit_value c = if leb b'a' c then c - b'a' + 10 else c - b'0'

-- The number that a string of digits stands for, in base `b`, behind the digits read so far.
abbrev pub value : ℕ → ℕ → List ℕ → ℕ
value b acc [] = acc
value b acc (c ∷ s) = value b (acc * b + digit_value c) s

-- Each character is a digit of base `b`: one of 0 to 9 and a to f, of a value below `b`.
unfoldable pub digit_char : ℕ → ℕ
digit_char v = if leb 10 v then b'a' + (v - 10) else b'0' + v

abbrev pub IsDigit : ℕ → ℕ → Type 0
IsDigit b c = (c ≡ digit_char (digit_value c)) × (digit_value c < b)

abbrev pub IsDigits : ℕ → List ℕ → Type 0
IsDigits b [] = Unit {0}
IsDigits b (c ∷ s) = IsDigit b c × IsDigits b s

-- No leading zero, unless the only digit is a zero.
abbrev pub IsCanonical : List ℕ → Type 0
IsCanonical [] = ⊥
IsCanonical (c ∷ []) = Unit {0}
IsCanonical (c ∷ d ∷ s) = c ≢ b'0'

value-append :
    (b acc c : ℕ) (s : List ℕ) → value b acc (s ++ (c ∷ [])) ≡ value b acc s * b + digit_value c
value-append b acc c [] = refl
value-append b acc c (d ∷ s) = value-append b (acc * b + digit_value d) c s

unfoldable pub puts : List ℕ → MColor → MColor → Monitor → Monitor
puts [] bc fc m = m
puts (c ∷ s) bc fc m = puts s bc fc (put c bc fc m)

puts-append :
    (s r : List ℕ) (bc fc : MColor) (m : Monitor)
    → puts (s ++ r) bc fc m ≡ puts r bc fc (puts s bc fc m)
unfolding puts
puts-append [] r bc fc m = refl
puts-append (c ∷ s) r bc fc m = puts-append s r bc fc (put c bc fc m)

pub write_color-puts :
    (s rest : List ℕ) (bc fc : MColor) (m : Monitor)
    → NonZero s
    → write_color (s ++ (0 ∷ rest)) bc fc m ≡ some (puts s bc fc m)
unfolding write_color puts
write_color-puts [] rest bc fc m ok = refl
write_color-puts (c ∷ s) rest bc fc m ok =
    ground (arith, write_color-puts s rest bc fc (put c bc fc m) ok.1)

-- The characters that `hex_loop` sends.
hex_text : ℕ → ℕ → Bool → List ℕ
hex_text zero n no_zeroes = []
hex_text (suc r) n no_zeroes =
    let tmp = bit_and (n / 2 ^ (4 * suc r)) 0xF in
    let skip = tmp == 0 && no_zeroes in
    let rest = hex_text r n (if skip then no_zeroes else false) in
    if skip then rest else hex_char tmp ∷ rest

hex_loop-puts :
    (r n : ℕ) (z : Bool) (bc fc : MColor) (m : Monitor)
    → hex_loop r n z bc fc m ≡ puts (hex_text r n z) bc fc m
unfolding hex_loop hex_text puts
hex_loop-puts zero n z bc fc m = refl
hex_loop-puts (suc r) n z bc fc m =
    elim (Bool-cases (bit_and (n / 2 ^ (4 * suc r)) 0xF == 0 && z)) [
      | inl e ↦ rw e (hex_loop-puts r n z bc fc m)
      | inr e ↦ rw e (
          hex_loop-puts r n false bc fc
            (put (hex_char (bit_and (n / 2 ^ (4 * suc r)) 0xF)) bc fc m))
    ]

IsDigit-hex_char : (n : ℕ) → IsDigit 16 (hex_char (bit_and n 0xF))
unfolding digit_char
IsDigit-hex_char n = (ground (arith, bit_and_ones 4 n), ground (arith, bit_and_ones 4 n))

IsDigits-hex_text : (r n c : ℕ) (z : Bool) → IsDigit 16 c → IsDigits 16 (hex_text r n z ++ (c ∷ []))
unfolding hex_text
IsDigits-hex_text zero n c z h = (h, tt)
IsDigits-hex_text (suc r) n c z h =
    elim (Bool-cases (bit_and (n / 2 ^ (4 * suc r)) 0xF == 0 && z)) [
      | inl e ↦ rw e (IsDigits-hex_text r n c z h)
      | inr e ↦ rw e (IsDigit-hex_char (n / 2 ^ (4 * suc r)), IsDigits-hex_text r n c false h)
    ]

hex_digit : (n : ℕ) → digit_value (hex_char (bit_and n 0xF)) ≡ n % 16
hex_digit n = ground (arith, bit_and_ones 4 n)

-- From one nibble to the next.
nibble : (r n : ℕ) → n / 2 ^ (4 * suc r) ≡ n / 2 ^ (4 * r) / 16
nibble r n = rw (div-div-eq-div-mul n (2 ^ (4 * r)) 16) (ap (λ (t : ℕ). n / t) (shift r))
  where
    four : (s : ℕ) → 2 ^ (s + 4) ≡ 2 ^ s * 16
    four s = simp towards_suc (omega arith)

    shift : (r : ℕ) → 2 ^ (4 * suc r) ≡ 2 ^ (4 * r) * 16
    shift r = let e : 4 * suc r ≡ 4 * r + 4 = omega arith in rw e (four (4 * r))

value-hex_text :
    (r n acc : ℕ) (z : Bool)
    → n / 2 ^ (4 * r) / 16 ≡ acc
    → (z ≡ true → acc ≡ 0)
    → value 16 acc (hex_text r n z) ≡ n / 16
unfolding hex_text
value-hex_text zero n acc z h first = sym h ∙ ground arith
value-hex_text (suc r) n acc z h first =
    let q = n / 2 ^ (4 * suc r) in
    elim (Bool-cases (bit_and q 0xF == 0 && z)) [
      | inl e ↦ rw e (value-hex_text r n acc z (ground (arith, nibble r n, bit_and_ones 4 q)) first)
      | inr e ↦ rw e (
          value-hex_text r n (acc * 16 + digit_value (hex_char (bit_and q 0xF))) false
            (omega (arith, nibble r n, hex_digit q)) (λ c. cc))
    ]

pub IsCanonical-cons : (c : ℕ) (s : List ℕ) → c ≢ b'0' → IsCanonical (c ∷ s)
IsCanonical-cons c [] h = tt
IsCanonical-cons c (d ∷ s) h = h

IsCanonical-hex_text : (r n c : ℕ) → IsCanonical (hex_text r n true ++ (c ∷ []))
unfolding hex_text
IsCanonical-hex_text zero n c = tt
IsCanonical-hex_text (suc r) n c =
    let q = bit_and (n / 2 ^ (4 * suc r)) 0xF in
    elim (Bool-cases (q == 0 && true)) [
      | inl e ↦ rw e (IsCanonical-hex_text r n c)
      | inr e ↦ rw e (IsCanonical-cons (hex_char q) (hex_text r n false ++ (c ∷ [])) (ground arith))
    ]

NonZero-hex_text : (r n c : ℕ) (z : Bool) → c ≢ 0 → NonZero (hex_text r n z ++ (c ∷ []))
unfolding hex_text
NonZero-hex_text zero n c z h = (h, tt)
NonZero-hex_text (suc r) n c z h =
    let q = bit_and (n / 2 ^ (4 * suc r)) 0xF in
    elim (Bool-cases (q == 0 && z)) [
      | inl e ↦ rw e (NonZero-hex_text r n c z h)
      | inr e ↦ rw e (ground arith, NonZero-hex_text r n c false h)
    ]

-- For a 32-bit number `monitor_write_hex` has the effect of writing "0x" and a string of
-- the characters 0 to 9 and a to f that, read as hexadecimal digits, stands for the number and has
-- no leading zero.
pub write_hex_lem :
    (n : ℕ) (bc fc : MColor) (m : Monitor)
    → n < 2 ^ 32
    → (s : List ℕ) × (write_hex n bc fc m ≡ write_color (b'0' ∷ b'x' ∷ (s ++ (0 ∷ []))) bc fc m)
      × (value 16 0 s ≡ n)
      × IsDigits 16 s
      × IsCanonical s
      × NonZero s
unfolding write_hex puts
write_hex_lem n bc fc m h = (
  hex_text 7 n true ++ (last ∷ []),
  rw (
    write_color-puts (b'0' ∷ b'x' ∷ []) [] bc fc m (ground arith, (ground arith, tt)),
    write_color-puts (b'0' ∷ b'x' ∷ (hex_text 7 n true ++ (last ∷ []))) [] bc fc m
        (ground arith, (ground arith, NonZero-hex_text 7 n last true (ground arith))),
    hex_loop-puts,
    puts-append (b'0' ∷ b'x' ∷ hex_text 7 n true) (last ∷ []) bc fc m,
  ),
  rw (value-append 16 0 last (hex_text 7 n true))
      (omega (arith, value-hex_text 7 n 0 true (omega arith) (λ c. refl), hex_digit n)),
  IsDigits-hex_text 7 n last true (IsDigit-hex_char n),
  IsCanonical-hex_text 7 n last,
  NonZero-hex_text 7 n last true (ground arith),
)
  where
    last : ℕ
    last = hex_char (bit_and n 0xF)
