-- ===== src/Util/Keyval.antt =====
-- What `parse_keyval` reads of a text.
use asor.Base.{
  ℕ, ◌+◌, ◌-◌, ◌%◌, ◌^◌, ◌≤◌, ◌<◌, ◌≡◌, ◌≢◌, ◌⊎◌, refl, subst, sym, inl, inr, Bool-cases, false,
  Option, none, some, List, [], ◌∷◌, length, ◌==◌, if◌then◌else◌, arith,
}
use asor.CString.{Bytes}
use asor.CString.Strings.{strchr}
use asor.CString.Strings.Compare.{IsString}
use asor.CString.Strings.Search.{before, past, past_next, strchr_lem}
use asor.CString.Strings.Number.{number, skip_blanks, atol_lem}
use asor.Util.{parse_keyval}

-- The characters behind the first `k`.
abbrev pub behind : ℕ → List ℕ → List ℕ
behind k [] = []
behind k (c ∷ s) = if c == k then s else behind k s

-- The key is what stands before the first '='; the value is the number behind it.
abbrev pub keyval : Option (List ℕ) → List ℕ → ℕ × Option ℕ
keyval none value = (2 ^ 32 - 1, none)
keyval (some key) value = (length key % 2 ^ 32, some (number (skip_blanks value)))

length-behind : (k : ℕ) (s : List ℕ) → length (behind k s) ≤ length s
length-behind k [] = omega arith
length-behind k (c ∷ s) =
    let h = length-behind k s in
    elim (Bool-cases (c == k)) [ inl hit ↦ rw hit (omega arith) | inr miss ↦ rw miss (omega arith) ]

behind-IsString :
    (k : ℕ) (s : List ℕ) (p : ℕ) (mem : Bytes)
    → IsString s p mem
    → (before k s ≡ none) ⊎ IsString (behind k s) (past p (before k s) + 1) mem
behind-IsString k [] p mem h = inl refl
behind-IsString k (c ∷ s) p mem (e, nz, h) = elim (Bool-cases (c == k)) [
  | inl hit ↦
      let at : p + 0 + 1 ≡ p + 1 = omega arith in
      inr (rw hit (subst (λ (a : ℕ). IsString s a mem) (sym at) h))
  | inr miss ↦ elim (behind-IsString k s (p + 1) mem h) [
    | inl absent ↦ inl (rw (miss, absent) refl)
    | inr str ↦ inr (
        rw miss
          (subst (λ (a : ℕ). IsString (behind k s) (a + 1) mem) (past_next p c (before k s)) str))
  ]
]

keyval_run :
    (o : Option (List ℕ)) (value : List ℕ) (fuel s : ℕ) (mem : Bytes)
    → s ≢ 0
    → length value < fuel
    → strchr fuel s b'=' mem ≡ some (past s o)
    → (o ≡ none) ⊎ IsString value (past s o + 1) mem
    → parse_keyval fuel s mem ≡ some (keyval o value)
unfolding parse_keyval
keyval_run none value fuel s mem nz lt run str = rw run refl
keyval_run (some key) value fuel s mem nz lt run (inl bad) = absurd cc
keyval_run (some key) value fuel s mem nz lt run (inr str) =
    let t : (s + length key == 0) ≡ false = ground arith in
    let d : s + length key - s ≡ length key = omega arith in
    rw (run, t, atol_lem value fuel (s + length key + 1) mem lt str, d) refl

-- For a string that is not at NULL, with more fuel than characters, `parse_keyval` returns -1 and
-- writes no value when the string has no '='. Otherwise it returns the number of characters before
-- the first '=', as a 32-bit word, and writes the number that `atol` reads behind it.
pub parse_keyval_lem :
    (text : List ℕ) (fuel s : ℕ) (mem : Bytes)
    → s ≢ 0
    → length text < fuel
    → IsString text s mem
    → parse_keyval fuel s mem ≡ some (keyval (before b'=' text) (behind b'=' text))
parse_keyval_lem text fuel s mem nz lt h =
    keyval_run (before b'=' text) (behind b'=' text) fuel s mem nz
      (omega (arith, length-behind b'=' text)) (strchr_lem text fuel s b'=' mem lt (ground arith) h)
      (behind-IsString b'=' text s mem h)
