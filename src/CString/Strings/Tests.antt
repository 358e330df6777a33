-- ===== src/CString/Strings/Tests.antt =====
-- Runs of the string functions of lib/string.c.
use asor.Base.{ℕ, ◌≡◌, ◌||◌, refl, inr, some, List, [], ◌∷◌, ◌==◌, if◌then◌else◌, arith}
use asor.CString.{Bytes}
use asor.CString.Strings.{strstr, getenv, simple_glob}
use asor.CString.Strings.Compare.{IsString, AllBytes}
use asor.CString.Strings.Search.{index_of, at_index, env_value, strstr_lem, getenv_lem}
use asor.CString.Strings.Pattern.{glob}
use asor.CString.Strings.Glob.{simple_glob_lem}

-- "a*" at 10, "ab" at 20, "a=7" at 30 and " -42" at 40.
abbrev texts : Bytes
texts a =
    if a == 10 || a == 20 || a == 30
    then b'a'
    else if a == 11
    then b'*'
    else if a == 21
    then b'b'
    else if a == 31
    then b'='
    else if a == 32
    then b'7'
    else if a == 40
    then b' '
    else if a == 41
    then b'-'
    else if a == 42
    then b'4'
    else if a == 43
    then b'2'
    else 0

texts-AllBytes : AllBytes texts
texts-AllBytes a = ground arith

abbrev star : List ℕ
star = b'a' ∷ b'*' ∷ []

abbrev letters : List ℕ
letters = b'a' ∷ b'b' ∷ []

abbrev variable : List ℕ
variable = b'a' ∷ b'=' ∷ b'7' ∷ []

abbrev minus_42 : List ℕ
minus_42 = b' ' ∷ b'-' ∷ b'4' ∷ b'2' ∷ []

star-IsString : IsString star 10 texts
star-IsString = (refl, omega arith, (refl, omega arith, refl))

letters-IsString : IsString letters 20 texts
letters-IsString = (refl, omega arith, (refl, omega arith, refl))

variable-IsString : IsString variable 30 texts
variable-IsString = (refl, omega arith, (refl, omega arith, (refl, omega arith, refl)))

minus_42-IsString : IsString minus_42 40 texts
minus_42-IsString =
    (refl, omega arith, (refl, omega arith, (refl, omega arith, (refl, omega arith, refl))))

strstr_example : strstr 5 20 21 texts ≡ some (at_index 20 (index_of (b'b' ∷ []) letters))
strstr_example =
    strstr_lem letters (b'b' ∷ []) 5 20 21 texts texts-AllBytes (omega arith) (omega arith)
      letters-IsString (refl, omega arith, refl)

-- The variable `a` is taken for `ab`.
getenv_example : getenv 5 20 (30 ∷ []) texts ≡ some (env_value letters (30 ∷ []) (variable ∷ []))
getenv_example =
    getenv_lem letters (30 ∷ []) (variable ∷ []) 5 20 texts texts-AllBytes letters-IsString
      (omega arith, omega arith, variable-IsString, tt)

simple_glob_example : simple_glob 5 60 20 10 texts ≡ some (glob star letters)
simple_glob_example =
    simple_glob_lem star letters 5 60 20 10 texts texts-AllBytes (omega arith) (omega arith)
      (omega arith) (omega arith) (inr (omega arith)) (inr (omega arith)) letters-IsString
      star-IsString
