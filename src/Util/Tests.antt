-- ===== src/Util/Tests.antt =====
-- A run of lib/util.c.
use asor.Base.{ℕ, ◌≡◌, refl, some, List, [], ◌∷◌, ◌==◌, if◌then◌else◌, arith}
use asor.CString.{Bytes}
use asor.CString.Strings.Search.{before}
use asor.Util.{parse_keyval}
use asor.Util.Keyval.{behind, keyval, parse_keyval_lem}

-- n=7 at 10
abbrev texts : Bytes
texts a = if a == 10 then b'n' else if a == 11 then b'=' else if a == 12 then b'7' else 0

abbrev text : List ℕ
text = b'n' ∷ b'=' ∷ b'7' ∷ []

parse_keyval_example : parse_keyval 4 10 texts ≡ some (keyval (before b'=' text) (behind b'=' text))
parse_keyval_example =
    parse_keyval_lem text 4 10 texts (omega arith) (omega arith)
      (refl, omega arith, (refl, omega arith, (refl, omega arith, refl)))
