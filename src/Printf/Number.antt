-- ===== src/Printf/Number.antt =====
-- The numbers in a format of lib/printf.c: `fmtnum`.
use asor.Base.{
  ℕ, zero, suc, ◌+◌, ◌^◌, ◌≤◌, ◌<◌, ◌≡◌, ◌≢◌, inl, inr, true, false, ◌&&◌, ◌||◌, some, List, [],
  ◌∷◌, length, leb, ◌==◌, Bool-cases, arith,
}
use asor.CString.{Bytes}
use asor.CString.Strings.Compare.{IsString}
use asor.CString.Strings.Number.{atol_lem}
use asor.Printf.{skip_digits, fmtnum}
use asor.Printf.Rendering.{after_digits, after_number, field}

-- From every address on there is a NUL within fewer than `fuel` bytes, and numbers have room.
pub record IsReadable (fuel : ℕ) (mem : Bytes) : Type 0 where
  pub strings : (p : ℕ) → (s : List ℕ) × IsString s p mem × (length s < fuel)
  pub enough : 70 < fuel
  pub small : fuel < 2 ^ 31

-- Arguments are words, and none of them is the least `long`.
abbrev pub Words : List ℕ → Type 0
Words [] = Unit {0}
Words (v ∷ va) = (v < 2 ^ 64) × (v ≢ 2 ^ 63) × Words va

skip_digits_lem :
    (s : List ℕ) (fuel p : ℕ) (mem : Bytes)
    → length s < fuel
    → IsString s p mem
    → (q : ℕ) × (skip_digits fuel p mem ≡ some q)
      × IsString (after_digits s) q mem
      × (length (after_digits s) ≤ length s)
unfolding skip_digits
skip_digits_lem s zero p mem lt h = absurd (omega arith)
skip_digits_lem [] (suc fuel) p mem lt h = (p, rw h, h, omega arith)
skip_digits_lem (c ∷ s) (suc fuel) p mem lt (e, nz, h) =
    elim (Bool-cases (leb b'0' c && leb c b'9')) [
      | inl digit ↦
          let (q, run, str, len) = skip_digits_lem s fuel (p + 1) mem (omega arith) h in
          (q, rw (e, digit) run, rw digit str, rw digit (omega arith))
      | inr other ↦ (p, rw (e, other), rw other (e, nz, h), rw other (omega arith))
    ]

-- A number in the format: what is left is no longer than `n`.
abbrev pub Numbered : List ℕ → ℕ → ℕ → ℕ → Bytes → Type 0
Numbered s n fuel p mem =
    (q : ℕ) × (fmtnum fuel p mem ≡ some (field s, q))
    × (field s < 2 ^ 32)
    × IsString (after_number s) q mem
    × (length (after_number s) ≤ n)

pub fmtnum_lem :
    (s : List ℕ) (fuel p : ℕ) (mem : Bytes)
    → length s < fuel
    → IsString s p mem
    → Numbered s (length s) fuel p mem
unfolding fmtnum
fmtnum_lem [] fuel p mem lt h =
    let (q, run, str, len) = skip_digits_lem [] fuel p mem lt h in
    let minus : (mem p == b'-') ≡ false = ground arith in
    (q, rw (minus, run, atol_lem [] fuel p mem lt h), omega arith, str, len)
fmtnum_lem (c ∷ s) fuel p mem lt (e, nz, h) = elim (Bool-cases (c == b'-')) [
  | inl minus ↦
      let (q, run, str, len) = skip_digits_lem s fuel (p + 1) mem (omega arith) h in
      (
        q,
        rw (e, minus, run, atol_lem (c ∷ s) fuel p mem lt (e, nz, h)),
        omega arith,
        rw minus str,
        rw minus (omega arith),
      )
  | inr other ↦
      let (q, run, str, len) = skip_digits_lem (c ∷ s) fuel p mem lt (e, nz, h) in
      (
        q,
        rw (e, other, run, atol_lem (c ∷ s) fuel p mem lt (e, nz, h)),
        omega arith,
        rw other str,
        rw other len,
      )
]

-- A number that begins with a digit or a minus sign is not empty.
pub fmtnum_digit :
    (c : ℕ) (s : List ℕ) (fuel p : ℕ) (mem : Bytes)
    → (leb b'1' c && leb c b'9' || c == b'-') ≡ true
    → length (c ∷ s) < fuel
    → IsString (c ∷ s) p mem
    → Numbered (c ∷ s) (length s) fuel p mem
unfolding fmtnum skip_digits
fmtnum_digit c s zero p mem d lt h = absurd (omega arith)
fmtnum_digit c s (suc fuel) p mem d lt (e, nz, h) = elim (Bool-cases (c == b'-')) [
  | inl minus ↦
      let (q, run, str, len) = skip_digits_lem s (suc fuel) (p + 1) mem (omega arith) h in
      (
        q,
        rw (e, minus, run, atol_lem (c ∷ s) (suc fuel) p mem lt (e, nz, h)),
        omega arith,
        rw minus str,
        rw minus len,
      )
  | inr digit ↦
      let (q, run, str, len) = skip_digits_lem s fuel (p + 1) mem (omega arith) h in
      let y : (leb b'0' c && leb c b'9') ≡ true = ground arith in
      let not_minus : (c == b'-') ≡ false = digit in
      (
        q,
        rw (e, digit, e, y, run, atol_lem (c ∷ s) (suc fuel) p mem lt (e, nz, h)),
        omega arith,
        rw (not_minus, y) str,
        rw (not_minus, y) len,
      )
]
