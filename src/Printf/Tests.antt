-- ===== src/Printf/Tests.antt =====
-- Runs of lib/printf.c.
use asor.Base.{
  ℕ, ◌-◌, ◌^◌, ◌<◌, ◌≡◌, refl, inl, inr, Bool-cases, true, false, List, [], ◌∷◌, length, ◌==◌,
  if◌then◌else◌, arith,
}
use asor.CString.{Bytes}
use asor.CString.Strings.Compare.{IsString}
use asor.Printf.{PStream, StrProps}
use asor.Printf.Numbers.{PrintsUnsigned, PrintsInt, print_unsigned_lem, print_int_lem}
use asor.Monitor.{black, white, light_yellow, dark_red, Monitor, attribute_byte, clear}
use asor.Monitor.Cursor.{empty_terminal, clear_lem}
use asor.Serial.{Serial}
use asor.Serial.Line.{Line, line_ports, sent_of, lcr_of, never, line_ports-IsUart}
use asor.Printf.Console.{Prints, printf, warning, error, printf_lem}
use asor.Printf.Number.{IsReadable}

-- "%d" at 10.
abbrev texts : Bytes
texts a = if a == 10 then b'%' else if a == 11 then b'd' else 0

abbrev format : List ℕ
format = b'%' ∷ b'd' ∷ []

format-IsString : IsString format 10 texts
format-IsString = (refl, omega arith, (refl, omega arith, refl))

IsString-texts : (p : ℕ) → (s : List ℕ) × IsString s p texts × (length s < 3000)
IsString-texts p = elim (Bool-cases (p == 10)) [
  | inl start ↦ let e : p ≡ 10 = ground arith in rw e (format, format-IsString, omega arith)
  | inr n1 ↦ elim (Bool-cases (p == 11)) [
    | inl next ↦
        let e : p ≡ 11 = ground arith in rw e (b'd' ∷ [], (refl, omega arith, refl), omega arith)
    | inr n2 ↦ ([], ground arith, omega arith)
  ]
]

texts-IsReadable : IsReadable 3000 texts
texts-IsReadable = record { strings = IsString-texts; enough = omega arith; small = omega arith }

-- Eight characters at 500.
abbrev stream : PStream
stream = record { out = texts; buffer = 500; remain = 8; added = 0 }

abbrev zeros : StrProps
zeros = record { pad = b'0'; npad = 4; alternate = true }

print_unsigned_example : PrintsUnsigned 3000 255 16 texts zeros stream
print_unsigned_example =
    print_unsigned_lem 3000 255 16 texts zeros stream (omega arith) (omega arith) (omega arith)
      (omega arith) (omega arith)

-- -5 in a field of four zeros.
print_int_example : PrintsInt 3000 (2 ^ 64 - 5) 10 texts zeros stream
print_int_example =
    print_int_lem 3000 (2 ^ 64 - 5) 10 texts zeros stream (omega arith) (omega arith) (omega arith)
      (omega arith) (omega arith) (omega arith)

abbrev screen : Monitor
screen = record { video_memory = λ i. 0; cursor_x = 7; cursor_y = 3; ports = [] }

abbrev unopened : Serial Line
unopened = record { device = ([], 0); inited = false }

printf_example :
    Prints sent_of
      (attribute_byte black white)
      empty_terminal
      unopened
      texts
      format
      (1234 ∷ 0 ∷ [])
      (printf line_ports 3000 500 10 texts (1234 ∷ 0 ∷ []) texts texts (clear screen) unopened)
    × Prints sent_of
        (attribute_byte black light_yellow)
        empty_terminal
        unopened
        texts
        format
        (1234 ∷ 0 ∷ [])
        (warning line_ports 3000 500 10 texts (1234 ∷ 0 ∷ []) texts texts (clear screen) unopened)
    × Prints sent_of
        (attribute_byte black dark_red)
        empty_terminal
        unopened
        texts
        format
        (1234 ∷ 0 ∷ [])
        (error line_ports 3000 500 10 texts (1234 ∷ 0 ∷ []) texts texts (clear screen) unopened)
printf_example =
    printf_lem line_ports sent_of lcr_of never format 1 3000 500 10 texts (1234 ∷ 0 ∷ []) texts
      texts (clear screen) empty_terminal unopened line_ports-IsUart (omega arith) (omega arith)
      texts-IsReadable (λ a. ground arith) (omega arith) (omega arith) format-IsString
      (omega arith, omega arith, (omega arith, omega arith, tt)) (clear_lem screen λ i. omega arith)
      (λ y. absurd (ground arith))
