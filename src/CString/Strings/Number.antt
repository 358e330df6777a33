-- ===== src/CString/Strings/Number.antt =====
-- `atol` against the number that a string stands for.
use asor.Base.{
  ℕ, zero, suc, ◌+◌, ◌-◌, ◌*◌, ◌%◌, ◌^◌, ◌≤◌, ◌<◌, ◌≡◌, inl, inr, Bool, true, false, ◌&&◌, ◌||◌,
  some, List, [], ◌∷◌, length, ltb, leb, ◌==◌, if◌then◌else◌, Bool-cases, ◌>>=◌, arith,
}
use asor.CString.{Bytes}
use asor.CString.Strings.{skip_spaces, read_digits, atol}
use asor.CString.Strings.Compare.{IsString}

abbrev pub blank? : ℕ → Bool
blank? c = c == b' ' || c == b'\t'

abbrev pub digit? : ℕ → Bool
digit? c = leb b'0' c && leb c b'9'

abbrev pub skip_blanks : List ℕ → List ℕ
skip_blanks [] = []
skip_blanks (c ∷ s) = if blank? c then skip_blanks s else c ∷ s

-- The value of the leading digits, behind those read so far.
abbrev pub digits_value : ℕ → List ℕ → ℕ
digits_value acc [] = acc
digits_value acc (c ∷ s) = if digit? c then digits_value (acc * 10 + (c - b'0')) s else acc

-- The number as a 64-bit word in two's complement.
abbrev pub number : List ℕ → ℕ
number [] = 0
number (c ∷ s) =
    if c == b'-'
    then (2 ^ 64 - digits_value 0 s % 2 ^ 64) % 2 ^ 64
    else if c == b'+'
    then digits_value 0 s % 2 ^ 64
    else digits_value 0 (c ∷ s) % 2 ^ 64

read_digits_lem :
    (s : List ℕ) (fuel p acc : ℕ) (mem : Bytes)
    → length s < fuel
    → IsString s p mem
    → read_digits fuel p (acc % 2 ^ 64) mem ≡ some (digits_value acc s % 2 ^ 64)
unfolding read_digits
read_digits_lem s zero p acc mem lt h = absurd (omega arith)
read_digits_lem [] (suc fuel) p acc mem lt h = rw h
read_digits_lem (c ∷ s) (suc fuel) p acc mem lt (e, nz, h) =
    let f : (c == 0) ≡ false = ground arith in
    rw (e, f)
      (elim (Bool-cases (digit? c)) [
        | inl digit ↦
            let d : (ltb c b'0' || ltb b'9' c) ≡ false = ground arith in
            let w : (acc % 2 ^ 64 * 10 + (c - b'0')) % 2 ^ 64 ≡ (acc * 10 + (c - b'0')) % 2 ^ 64 =
              omega arith in
            rw (d, digit, w)
              (read_digits_lem s fuel (p + 1) (acc * 10 + (c - b'0')) mem (omega arith) h)
        | inr other ↦ let d : (ltb c b'0' || ltb b'9' c) ≡ true = ground arith in rw (d, other)
      ])

-- What `skip_spaces` leaves is the string without its blanks.
abbrev Skipped : List ℕ → ℕ → ℕ → Bytes → Type 0
Skipped s fuel p mem =
    (q : ℕ) × (skip_spaces fuel p mem ≡ some q)
    × IsString (skip_blanks s) q mem
    × (length (skip_blanks s) ≤ length s)

skip_spaces_lem :
    (s : List ℕ) (fuel p : ℕ) (mem : Bytes)
    → length s < fuel
    → IsString s p mem
    → Skipped s fuel p mem
unfolding skip_spaces
skip_spaces_lem s zero p mem lt h = absurd (omega arith)
skip_spaces_lem [] (suc fuel) p mem lt h = (p, rw h, h, omega arith)
skip_spaces_lem (c ∷ s) (suc fuel) p mem lt (e, nz, h) = elim (Bool-cases (blank? c)) [
  | inl blank ↦
      let (q, run, str, len) = skip_spaces_lem s fuel (p + 1) mem (omega arith) h in
      rw blank (q, rw (e, blank) run, str, omega arith)
  | inr other ↦ rw other (p, rw (e, other), (e, nz, h), omega arith)
]

signed_lem :
    (s : List ℕ) (fuel q : ℕ) (mem : Bytes)
    → length s < fuel
    → IsString s q mem
    → (read_digits fuel (if mem q == b'-' || mem q == b'+' then q + 1 else q) 0 mem >>= λ acc.
        some (if mem q == b'-' then (2 ^ 64 - acc) % 2 ^ 64 else acc))
      ≡ some (number s)
signed_lem [] fuel q mem lt h = rw (h, read_digits_lem [] fuel q 0 mem lt h)
signed_lem (c ∷ s) fuel q mem lt (e, nz, h) = rw e (elim (Bool-cases (c == b'-')) [
  | inl minus ↦ rw (minus, read_digits_lem s fuel (q + 1) 0 mem (omega arith) h)
  | inr other ↦ elim (Bool-cases (c == b'+')) [
    | inl plus ↦ rw (other, plus, read_digits_lem s fuel (q + 1) 0 mem (omega arith) h)
    | inr digit ↦ rw (other, digit, read_digits_lem (c ∷ s) fuel q 0 mem lt (e, nz, h))
  ]
])

-- `atol` of a string skips its blanks, takes one sign, and gives the value of the digits that
-- follow up to the first other character, as a 64-bit word in two's complement.
pub atol_lem :
    (s : List ℕ) (fuel p : ℕ) (mem : Bytes)
    → length s < fuel
    → IsString s p mem
    → atol fuel p mem ≡ some (number (skip_blanks s))
unfolding atol
atol_lem s fuel p mem lt h =
    let (q, run, str, len) = skip_spaces_lem s fuel p mem lt h in
    rw run (signed_lem (skip_blanks s) fuel q mem (omega arith) str)
