-- ===== src/CString/Strings/Search.antt =====
-- Finding a character, a string and a variable of the environment.
use asor.Base.{
  ℕ, zero, suc, ◌+◌, ◌-◌, ◌%◌, ◌^◌, ◌<◌, ◌≡◌, refl, ap, ◌∙◌, ◌≢◌, inl, inr, false, not, ◌&&◌,
  Option, none, some, List, [], ◌∷◌, length, leb, ◌==◌, if◌then◌else◌, Bool-cases, >>=-eq-some,
  ◌>>=◌, arith,
}
use asor.CString.{Bytes}
use asor.CString.Strings.{strchr, strstr_loop, strstr, strncmp, getenv}
use asor.CString.Strings.Compare.{
  IsString, Starts, AllBytes, prefix?, strlen_lem, memcmp-prefix?, strncmp-prefix?,
}

-- The characters before the first `k`.
abbrev pub before : ℕ → List ℕ → Option (List ℕ)
before k [] = none
before k (c ∷ s) = if c == k then some [] else (before k s >>= λ t. some (c ∷ t))

-- The address behind some characters at `p`, or NULL.
abbrev pub past : ℕ → Option (List ℕ) → ℕ
past p none = 0
past p (some t) = p + length t

pub past_next : (p c : ℕ) (o : Option (List ℕ)) → past (p + 1) o ≡ past p (o >>= λ t. some (c ∷ t))
past_next p c none = refl
past_next p c (some t) = omega arith

-- `strchr` of a string for a character that is not NUL gives the address of the first such
-- character, and NULL if there is none, with more fuel than characters.
pub strchr_lem :
    (s : List ℕ) (fuel p k : ℕ) (mem : Bytes)
    → length s < fuel
    → k % 2 ^ 8 ≢ 0
    → IsString s p mem
    → strchr fuel p k mem ≡ some (past p (before (k % 2 ^ 8) s))
unfolding strchr
strchr_lem s zero p k mem lt nz h = absurd (omega arith)
strchr_lem [] (suc fuel) p k mem lt nz h = ground arith
strchr_lem (c ∷ s) (suc fuel) p k mem lt nz (e, z, h) = rw e (elim (Bool-cases (c == k % 2 ^ 8)) [
  | inl hit ↦ rw hit (ap some (omega arith))
  | inr miss ↦
      let f : (c == 0) ≡ false = ground arith in
      rw (miss, f)
        (strchr_lem s fuel (p + 1) k mem (omega arith) nz h
          ∙ ap some (past_next p c (before (k % 2 ^ 8) s)))
])

-- The place of the first occurrence of `t` in `s`.
abbrev pub index_of : List ℕ → List ℕ → Option ℕ
index_of t [] = if prefix? t [] then some 0 else none
index_of t (c ∷ s) = if prefix? t (c ∷ s) then some 0 else (index_of t s >>= λ i. some (i + 1))

abbrev pub at_index : ℕ → Option ℕ → ℕ
at_index p none = 0
at_index p (some i) = p + i

at_next : (p : ℕ) (o : Option ℕ) → at_index (p + 1) o ≡ at_index p (o >>= λ i. some (i + 1))
at_next p none = refl
at_next p (some i) = omega arith

prefix?-short : (t s : List ℕ) → length s < length t → prefix? t s ≡ false
prefix?-short [] s h = absurd (omega arith)
prefix?-short (d ∷ t) [] h = refl
prefix?-short (d ∷ t) (c ∷ s) h = let e = prefix?-short t s (omega arith) in ground arith

index_of-short : (t s : List ℕ) → length s < length t → index_of t s ≡ none
index_of-short t [] h = rw (prefix?-short t [] h)
index_of-short t (c ∷ s) h = rw (prefix?-short t (c ∷ s) h, index_of-short t s (omega arith))

strstr_loop_lem :
    (d : ℕ) (t s : List ℕ) (a b : ℕ) (mem : Bytes)
    → AllBytes mem
    → IsString s a mem
    → IsString (d ∷ t) b mem
    → strstr_loop (length s) (length (d ∷ t)) a b mem ≡ at_index a (index_of (d ∷ t) s)
unfolding strstr_loop
strstr_loop_lem d t [] a b mem al hs ht = refl
strstr_loop_lem d t (c ∷ s) a b mem al hs ht =
    elim (Bool-cases (leb (length (d ∷ t)) (suc (length s)))) [
      | inr long ↦ rw (long, index_of-short (d ∷ t) (c ∷ s) (ground arith))
      | inl fit ↦
          rw (fit, memcmp-prefix? (d ∷ t) (c ∷ s) a b mem al hs ht)
            (elim (Bool-cases (prefix? (d ∷ t) (c ∷ s))) [
              | inl hit ↦ rw hit (omega arith)
              | inr miss ↦
                  rw miss (
                    strstr_loop_lem d t s (a + 1) b mem al hs.2 ht ∙ at_next a (index_of (d ∷ t) s))
            ])
    ]

index_of_empty : (s : List ℕ) → index_of [] s ≡ some 0
index_of_empty [] = refl
index_of_empty (c ∷ s) = refl

-- `strstr` gives the address of the first occurrence of one string in another, the start for the
-- empty string, and NULL if there is none, with more fuel than either has characters.
pub strstr_lem :
    (s t : List ℕ) (fuel a b : ℕ) (mem : Bytes)
    → AllBytes mem
    → length s < fuel
    → length t < fuel
    → IsString s a mem
    → IsString t b mem
    → strstr fuel a b mem ≡ some (at_index a (index_of t s))
unfolding strstr
strstr_lem s [] fuel a b mem al ls lt hs ht =
    rw (strlen_lem [] fuel b mem lt ht, strlen_lem s fuel a mem ls hs, index_of_empty s)
      (ap some (omega arith))
strstr_lem s (d ∷ t) fuel a b mem al ls lt hs ht =
    rw (strlen_lem (d ∷ t) fuel b mem lt ht, strlen_lem s fuel a mem ls hs)
      (rw (strstr_loop_lem d t s a b mem al hs ht) (ap some (ground arith)))

-- The strings of the environment at their addresses.
abbrev pub IsEnviron : List ℕ → List (List ℕ) → ℕ → Bytes → Type 0
IsEnviron [] [] fuel mem = Unit {0}
IsEnviron [] (s ∷ ss) fuel mem = ⊥
IsEnviron (p ∷ ps) [] fuel mem = ⊥
IsEnviron (p ∷ ps) (s ∷ ss) fuel mem =
    (p ≢ 0) × (length s < fuel) × IsString s p mem × IsEnviron ps ss fuel mem

-- The value of the variable at `p` with the name `var`, if that begins `name`.
abbrev pub env_or : List ℕ → ℕ → Option (List ℕ) → ℕ → ℕ
env_or name p none rest = rest
env_or name p (some var) rest = if prefix? var name then p + length var + 1 else rest

-- The value of the first variable of which the name begins `name`.
abbrev pub env_value : List ℕ → List ℕ → List (List ℕ) → ℕ
env_value name [] ss = 0
env_value name (p ∷ ps) [] = 0
env_value name (p ∷ ps) (s ∷ ss) = env_or name p (before b'=' s) (env_value name ps ss)

Starts-before :
    (k : ℕ) (s t : List ℕ) (p : ℕ) (mem : Bytes)
    → IsString s p mem
    → before k s ≡ some t
    → Starts t p mem
Starts-before k s [] p mem h e = tt
Starts-before k [] (d ∷ t) p mem h e = cc
Starts-before k (c ∷ s) (d ∷ t) p mem (ec, nz, h) e = elim (Bool-cases (c == k)) [
  | inl hit ↦ absurd (no_cons (rw hit at e))
  | inr miss ↦
      let (u, eu, both) = >>=-eq-some (before k s) (λ u. some (c ∷ u)) (rw miss at e) in
      let ed : c ≡ d = cc in
      let et : u ≡ t = cc in
      (ec ∙ ed, rw (← ed) nz, Starts-before k s t (p + 1) mem h (eu ∙ ap some et))
]
  where
    no_cons : ◌≡◌ {A = Option (List ℕ)} (some []) (some (d ∷ t)) → ⊥
    no_cons e = cc

getenv_one :
    (key s : List ℕ) (o : Option (List ℕ)) (name p rest : ℕ) (mem : Bytes)
    → AllBytes mem
    → p ≢ 0
    → IsString key name mem
    → IsString s p mem
    → before b'=' s ≡ o
    → (if not (past p o == 0) && strncmp (past p o - p) name p mem == 0
        then some (past p o + 1)
        else some rest)
      ≡ some (env_or key p o rest)
getenv_one key s none name p rest mem al nz hk hs e = refl
getenv_one key s (some var) name p rest mem al nz hk hs e =
    let there : (p + length var == 0) ≡ false = ground arith in
    let len : p + length var - p ≡ length var = omega arith in
    rw (there, len, strncmp-prefix? var key name p mem al hk (Starts-before b'=' s var p mem hs e))
      (elim (Bool-cases (prefix? var key)) [ inl y ↦ rw y | inr n ↦ rw n ])

-- `getenv` gives the address of the value of the first variable whose name is a prefix of the name
-- that is asked for, so of a shorter one too, and NULL if there is none.
pub getenv_lem :
    (key : List ℕ) (ps : List ℕ) (ss : List (List ℕ)) (fuel name : ℕ) (mem : Bytes)
    → AllBytes mem
    → IsString key name mem
    → IsEnviron ps ss fuel mem
    → getenv fuel name ps mem ≡ some (env_value key ps ss)
unfolding getenv
getenv_lem key [] ss fuel name mem al hk h = refl
getenv_lem key (p ∷ ps) [] fuel name mem al hk h = absurd h
getenv_lem key (p ∷ ps) (s ∷ ss) fuel name mem al hk (nz, lt, hs, h) =
    rw
      (
        strchr_lem s fuel p b'=' mem lt (ground arith) hs,
        getenv_lem key ps ss fuel name mem al hk h,
      )
      (getenv_one key s (before b'=' s) name p (env_value key ps ss) mem al nz hk hs refl)
