-- ===== src/CString/Strings/Pattern.antt =====
-- What a pattern of `simple_glob` matches, and the tests that decide it.
use asor.Base.{
  ℕ, zero, suc, ◌+◌, ◌-◌, ◌≤◌, ◌≡◌, refl, ◌≢◌, inl, inr, Bool, true, false, not, ◌&&◌, Option, none,
  some, List, [], ◌∷◌, length, drop, ltb, ◌==◌, if◌then◌else◌, Bool-cases, ◌>>=◌, arith,
}
use asor.CString.{Bytes}
use asor.CString.Strings.Compare.{IsString, eq_list, prefix?}
use asor.CString.Strings.Search.{index_of, at_index}

abbrev pub found? : Option ℕ → Bool
found? none = false
found? (some i) = true

-- Whether `text` ends with `t`.
abbrev pub suffix? : List ℕ → List ℕ → Bool
suffix? t text =
    if ltb (length text) (length t) then false else eq_list (drop (length text - length t) text) t

-- A star at the end, and what stands before it.
abbrev pub strip_end : List ℕ → Bool × List ℕ
strip_end [] = (false, [])
strip_end (c ∷ []) = if c == b'*' then (true, []) else (false, c ∷ [])
strip_end (c ∷ d ∷ s) = let (star, t) = strip_end (d ∷ s) in (star, c ∷ t)

abbrev pub glob_rest : Bool → List ℕ → List ℕ → Bool
glob_rest star_start p text =
    let (star_end, t) = strip_end p in
    if star_start && star_end
    then found? (index_of t text)
    else if star_end
    then prefix? t text
    else if star_start
    then suffix? t text
    else eq_list text t

-- A pattern with a star at its start, at its end, or at both, matches a text that ends with, begins
-- with, or contains what is left; without a star it matches the same text.
abbrev pub glob : List ℕ → List ℕ → Bool
glob [] text = glob_rest false [] text
glob (c ∷ p) text = if c == b'*' then glob_rest true p text else glob_rest false (c ∷ p) text

-- The string behind the first characters.
pub IsString-drop :
    (n : ℕ) (s : List ℕ) (p : ℕ) (mem : Bytes)
    → n ≤ length s
    → IsString s p mem
    → IsString (drop n s) (p + n) mem
IsString-drop zero s p mem le h = let e : p + 0 ≡ p = omega arith in rw e h
IsString-drop (suc n) [] p mem le h = absurd (omega arith)
IsString-drop (suc n) (c ∷ s) p mem le (e, nz, h) =
    let a : p + suc n ≡ p + 1 + n = omega arith in
    rw a (IsString-drop n s (p + 1) mem (omega arith) h)

pub index_of-prefix? :
    (t s : List ℕ) (a : ℕ) → a ≢ 0 → (at_index a (index_of t s) == a) ≡ prefix? t s
index_of-prefix? t [] a nz = elim (Bool-cases (prefix? t [])) [
  | inl y ↦ rw y (ground arith)
  | inr n ↦ rw n (ground arith)
]
index_of-prefix? t (c ∷ s) a nz = elim (Bool-cases (prefix? t (c ∷ s))) [
  | inl y ↦ rw y (ground arith)
  | inr n ↦ rw n (later (index_of t s))
]
  where
    later : (o : Option ℕ) → (at_index a (o >>= λ i. some (i + 1)) == a) ≡ false
    later none = ground arith
    later (some i) = ground arith

pub found?-at : (a : ℕ) (o : Option ℕ) → a ≢ 0 → not (at_index a o == 0) ≡ found? o
found?-at a none nz = refl
found?-at a (some i) nz = ground arith

pub strip_end-star :
    (p : List ℕ) (q : ℕ) (mem : Bytes)
    → IsString p q mem
    → (ltb 0 (length p) && mem (q + length p - 1) == b'*') ≡ (strip_end p).0
strip_end-star [] q mem h = refl
strip_end-star (c ∷ []) q mem (e, nz, h) =
    let a : q + 1 - 1 ≡ q = omega arith in
    rw (a, e) (elim (Bool-cases (c == b'*')) [ inl y ↦ rw y | inr n ↦ rw n ])
strip_end-star (c ∷ d ∷ s) q mem (e, nz, h) =
    let a : q + suc (suc (length s)) - 1 ≡ q + 1 + suc (length s) - 1 = omega arith in
    let l : ltb 0 (suc (suc (length s))) ≡ true = ground arith in
    let l' : ltb 0 (suc (length s)) ≡ true = ground arith in
    let ih = strip_end-star (d ∷ s) (q + 1) mem h in rw (a, l) (rw l' at ih)

pub length-strip_end :
    (p : List ℕ) → length ((strip_end p).1) ≡ (if (strip_end p).0 then length p - 1 else length p)
length-strip_end [] = refl
length-strip_end (c ∷ []) = elim (Bool-cases (c == b'*')) [ inl y ↦ rw y | inr n ↦ rw n ]
length-strip_end (c ∷ d ∷ s) = ground (arith, length-strip_end (d ∷ s))
