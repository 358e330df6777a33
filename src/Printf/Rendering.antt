-- ===== src/Printf/Rendering.antt =====
-- What a format of `printf` stands for: the text that its arguments give, by the characters of the
-- format. `mem` is the memory that an argument of %s points into.
use asor.Base.{
  ℕ, ◌+◌, ◌-◌, ◌%◌, ◌^◌, ◌≡◌, ◌≢◌, true, false, Bool, ◌&&◌, ◌||◌, List, [], ◌∷◌, ◌++◌, leb, ◌==◌,
  if◌then◌else◌,
}
use asor.CString.{Bytes}
use asor.CString.Strings.Compare.{IsString}
use asor.CString.Strings.Number.{number, skip_blanks}
use asor.Monitor.Numbers.{value, IsDigits, IsCanonical}
use asor.Printf.{StrProps}
use asor.Printf.Stream.{justify}
use asor.Printf.Numbers.{unsigned_text}

-- The digits of a number in a base.
abbrev pub IsNumeral : ℕ → ℕ → List ℕ → Type 0
IsNumeral base n s = (value base 0 s ≡ n) × IsDigits base s × IsCanonical s

-- An `int` without `l`, a `long` with it.
abbrev pub width : ℕ → ℕ
width nlong = if nlong == 0 then 32 else 64

-- An argument of so many bits in two's complement.
abbrev pub minus? : ℕ → ℕ → Bool
minus? w v = leb (2 ^ (w - 1)) (v % 2 ^ w)

abbrev pub absolute : ℕ → ℕ → ℕ
absolute w v = if minus? w v then 2 ^ w - v % 2 ^ w else v % 2 ^ w

-- What the character `c` of a directive makes of the arguments `va`: a text, and those left.
pub data Renders (mem : Bytes) (c nlong : ℕ) (props : StrProps)
    : List ℕ → List ℕ → List ℕ → Type 0 where
  percent : (va : List ℕ) → c ≡ b'%' → Renders mem c nlong props va (b'%' ∷ []) va
  char : (v : ℕ) (va : List ℕ) → c ≡ b'c' → Renders mem c nlong props (v ∷ va) (v ∷ []) va
  signed :
      (v : ℕ) (va s text : List ℕ)
      → c ≡ b'd'
      → IsNumeral 10 (absolute (width nlong) v) s
      → text ≡ justify props.npad props.pad (if minus? (width nlong) v then b'-' ∷ s else s)
      → Renders mem c nlong props (v ∷ va) text va
  unsigned :
      (v : ℕ) (va s : List ℕ)
      → c ≡ b'u'
      → IsNumeral 10 (v % 2 ^ width nlong) s
      → Renders mem c nlong props (v ∷ va) (justify props.npad props.pad s) va
  hex :
      (v : ℕ) (va s text : List ℕ)
      → c ≡ b'x'
      → IsNumeral 16 (v % 2 ^ width nlong) s
      → text ≡ unsigned_text (v % 2 ^ width nlong) 16 props s
      → Renders mem c nlong props (v ∷ va) text va
  pointer :
      (v : ℕ) (va s : List ℕ)
      → c ≡ b'p'
      → IsNumeral 16 v s
      → Renders mem c nlong props
          (v ∷ va)
          (unsigned_text v 16 (record props { alternate = true }) s)
          va
  string :
      (v : ℕ) (va s : List ℕ)
      → c ≡ b's'
      → IsString s v mem
      → Renders mem c nlong props (v ∷ va) (justify props.npad props.pad s) va
  other :
      (va : List ℕ)
      → (c ≢ b'%') × (c ≢ b'c') × (c ≢ b'd') × (c ≢ b'u') × (c ≢ b'x') × (c ≢ b'p') × (c ≢ b's')
      → Renders mem c nlong props va (c ∷ []) va

-- What is behind a number: its sign, and its digits.
abbrev pub after_digits : List ℕ → List ℕ
after_digits [] = []
after_digits (c ∷ s) = if leb b'0' c && leb c b'9' then after_digits s else c ∷ s

abbrev pub after_number : List ℕ → List ℕ
after_number [] = []
after_number (c ∷ s) = if c == b'-' then after_digits s else after_digits (c ∷ s)

-- A width: a negative one is a word in two's complement.
abbrev pub field : List ℕ → ℕ
field s = number (skip_blanks s) % 2 ^ 32

-- A character that begins a width.
abbrev pub width? : ℕ → Bool
width? c = leb b'1' c && leb c b'9' || c == b'-'

-- A directive behind its %: flags, a width and sizes, and the character. What is left is the format
-- behind it and the arguments.
pub data Directive (mem : Bytes)
    : List ℕ → ℕ → StrProps → List ℕ → List ℕ → List ℕ → List ℕ → Type 0 where
  ended : (nlong : ℕ) (props : StrProps) (va : List ℕ) → Directive mem [] nlong props va [] [] va
  alternate :
      (s s' va va' text : List ℕ) (nlong : ℕ) (props : StrProps)
      → Directive mem s nlong (record props { alternate = true }) va text s' va'
      → Directive mem (b'#' ∷ s) nlong props va text s' va'
  zeros :
      (s s' va va' text : List ℕ) (nlong : ℕ) (props : StrProps)
      → Directive mem
          (after_number s)
          nlong
          (record props { pad = b'0'; npad = field s })
          va
          text
          s'
          va'
      → Directive mem (b'0' ∷ s) nlong props va text s' va'
  wide :
      (c : ℕ) (s s' va va' text : List ℕ) (nlong : ℕ) (props : StrProps)
      → width? c ≡ true
      → Directive mem
          (after_number (c ∷ s))
          nlong
          (record props { npad = field (c ∷ s) })
          va
          text
          s'
          va'
      → Directive mem (c ∷ s) nlong props va text s' va'
  long :
      (s s' va va' text : List ℕ) (nlong : ℕ) (props : StrProps)
      → Directive mem s (nlong + 1) props va text s' va'
      → Directive mem (b'l' ∷ s) nlong props va text s' va'
  sized :
      (c : ℕ) (s s' va va' text : List ℕ) (nlong : ℕ) (props : StrProps)
      → (c == b't' || c == b'z') ≡ true
      → Directive mem s 1 props va text s' va'
      → Directive mem (c ∷ s) nlong props va text s' va'
  conversion :
      (c : ℕ) (s va va' text : List ℕ) (nlong : ℕ) (props : StrProps)
      → (c ≢ b'#')
        × (c ≢ b'0')
        × (width? c ≡ false)
        × (c ≢ b'l')
        × ((c == b't' || c == b'z') ≡ false)
      → Renders mem c nlong props va text va'
      → Directive mem (c ∷ s) nlong props va text s va'

-- A format with its arguments stands for a text.
pub data Formats (mem : Bytes) : List ℕ → List ℕ → List ℕ → Type 0 where
  done : (va : List ℕ) → Formats mem [] va []
  literal :
      (c : ℕ) (s va text : List ℕ)
      → c ≢ b'%'
      → Formats mem s va text
      → Formats mem (c ∷ s) va (c ∷ text)
  directed :
      (s s' va va' text1 text2 : List ℕ)
      → Directive mem s 0 (record { pad = b' '; npad = 0; alternate = false }) va text1 s' va'
      → Formats mem s' va' text2
      → Formats mem (b'%' ∷ s) va (text1 ++ text2)
