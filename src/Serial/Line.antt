-- ===== src/Serial/Line.antt =====
-- A serial line for runs of lib/x86/io.c, which keeps what the data sheet of the UART says.
use asor.Base.{
  ℕ, ◌+◌, ◌%◌, ◌^◌, ◌≡◌, refl, Bool-cases, inl, inr, true, false, ◌==◌, if◌then◌else◌, List, [],
  ◌∷◌, ◌++◌, bit_and, ◌<◌, arith,
}
use asor.Serial.{Ports}
use asor.Serial.Uart.{TakesBytes, IsUart}

-- A line that is never busy: what it sent, and its line control register, which also tells how many
-- bits of a byte are sent.
abbrev pub Line : Type 0
Line = List ℕ × ℕ

abbrev read : ℕ → Line → ℕ × Line
read a d = (if a == 0x3fb then d.1 % 2 ^ 8 else 0x20, d)

abbrev write_data : ℕ → Line → Line
write_data v d =
    if bit_and (d.1) 0x80 == 0 then (d.0 ++ (v % 2 ^ (5 + bit_and (d.1) 3)) ∷ [], d.1) else d

abbrev write : ℕ → ℕ → Line → Line
write v a d = if a == 0x3fb then (d.0, v) else if a == 0x3f8 then write_data v d else d

abbrev pub line_ports : Ports Line
line_ports = record { inb = read; outb = write }

abbrev pub sent_of : Line → List ℕ
sent_of d = d.0

abbrev pub lcr_of : Line → ℕ
lcr_of d = d.1

abbrev pub never : Line → ℕ
never d = 0

lcr_of-write_data : (v : ℕ) (d : Line) → lcr_of (write_data v d) ≡ lcr_of d
lcr_of-write_data v d = elim (Bool-cases (bit_and (d.1) 0x80 == 0)) [
  | inl y ↦ rw y refl
  | inr n ↦ rw n refl
]

whole :
    (v : ℕ) (d : Line)
    → v < 2 ^ 8
    → TakesBytes (d.1)
    → sent_of (write_data v d) ≡ sent_of d ++ v ∷ []
whole v d lt (clear, eight) =
    let y : (bit_and (d.1) 0x80 == 0) ≡ true = let c = clear in ground arith in
    let same : v % 2 ^ (5 + 3) ≡ v = omega arith in rw (y, eight, same) refl

pub line_ports-IsUart : IsUart line_ports sent_of lcr_of never 1
line_ports-IsUart = record {
  bounded = λ d. omega arith;
  read_sent = λ a d. refl;
  read_lcr = λ a d. refl;
  status_busy = λ d ne. absurd (ne refl);
  status_idle = λ d z. omega arith;
  status_empty = λ d ne. refl;
  byte = λ a d. ground arith;
  write_lcr = λ v d lt. refl;
  write_other = λ v a d ne.
      let n1 : (a == 0x3fb) ≡ false = ground arith in
      elim (Bool-cases (a == 0x3f8)) [
        | inl y ↦ rw (n1, y) (lcr_of-write_data v d)
        | inr n ↦ rw (n1, n) refl
      ];
  transmit = λ v d lt h z. whole v d lt h;
  divisor = λ v d h. let n : (bit_and (d.1) 0x80 == 0) ≡ false = ground arith in rw n refl;
  other = λ v a d ne.
      let n1 : (a == 0x3f8) ≡ false = ground arith in
      elim (Bool-cases (a == 0x3fb)) [ inl y ↦ rw y refl | inr n ↦ rw (n, n1) refl ];
}
