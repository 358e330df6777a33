-- ===== src/Printf/Numbers.antt =====
-- `print_unsigned` and `print_int` against the value of the digits that they send.
use asor.Base.{
  ℕ, zero, suc, ◌+◌, ◌-◌, ◌/◌, ◌^◌, ◌≤◌, ◌<◌, ◌≡◌, ap, ◌∙◌, ◌≢◌, inl, inr, true, false, not, ◌&&◌,
  some, List, [], ◌∷◌, length, leb, ◌==◌, if◌then◌else◌, Bool-cases, arith,
}
use asor.CString.{Bytes, store_byte}
use asor.Monitor.Numbers.{value, IsCanonical, digit_char, IsDigit, IsDigits}
use asor.Printf.{
  PStream, StrProps, positive, addchar, digit_loop, swap_loop, print_buf, alternate_hex,
  print_unsigned, print_int,
}
use asor.Printf.Stream.{add_all, justify, print_str-add_all}
use asor.Printf.Digits.{
  down, length-down, down-store_byte, Digits, IsDigits-down, digit_loop_lem, turned-IsString,
}

pub print_buf-add_all :
    (fuel p : ℕ) (buf : Bytes) (props : StrProps) (ps : PStream)
    → p < fuel
    → p < 2 ^ 31
    → props.npad < 2 ^ 32
    → ((a : ℕ) → a < p → buf a ≢ 0)
    → print_buf fuel p buf props ps ≡ some (add_all (justify props.npad props.pad (down p buf)) ps)
unfolding print_buf
print_buf-add_all fuel p buf props ps lt small hw nz =
    print_str-add_all (down p buf) fuel 0 (store_byte p 0 (swap_loop (p / 2) 0 p buf)) props ps
      (omega (arith, length-down p buf)) (omega (arith, length-down p buf)) hw
      (turned-IsString p buf nz)

IsDigit-zero : (base : ℕ) → 8 ≤ base → IsDigit base b'0'
unfolding digit_char
IsDigit-zero base lo = (λ i. b'0', omega arith)

IsCanonical-down : (q : ℕ) (buf : Bytes) → 0 < q → buf (q - 1) ≢ b'0' → IsCanonical (down q buf)
IsCanonical-down zero buf h top = absurd (omega arith)
IsCanonical-down (suc zero) buf h top = tt
IsCanonical-down (suc (suc q)) buf h top =
    let e : suc (suc q) - 1 ≡ suc q = omega arith in rw e at top

down_push : (q v : ℕ) (buf : Bytes) → down (q + 1) (store_byte q v buf) ≡ v ∷ down q buf
down_push q v buf =
    let e : q + 1 ≡ suc q = omega arith in
    let self : (q == q) ≡ true = ground arith in
    rw (e, self, down-store_byte q q v buf (omega arith))

-- The field of a number with the digits `s`.
abbrev pub narrowed : StrProps → ℕ
narrowed props =
    if positive props.npad then (if leb 2 props.npad then props.npad - 2 else 0) else props.npad

abbrev pub unsigned_text : ℕ → ℕ → StrProps → List ℕ → List ℕ
unsigned_text n base props s =
    if not (n == 0) && (props.alternate && base == 16)
    then (if props.pad == b'0'
        then b'0' ∷ b'x' ∷ justify (narrowed props) props.pad s
        else justify props.npad props.pad (b'0' ∷ b'x' ∷ s))
    else justify props.npad props.pad s

abbrev pub PrintsUnsigned : ℕ → ℕ → ℕ → Bytes → StrProps → PStream → Type 0
PrintsUnsigned fuel n base buf props ps =
    (s : List ℕ) × (value base 0 s ≡ n)
    × IsDigits base s
    × IsCanonical s
    × (length s < 66)
    × (print_unsigned fuel n base buf props ps ≡ some (add_all (unsigned_text n base props s) ps))

with_prefix :
    (fuel q base : ℕ) (buf : Bytes) (props : StrProps) (ps : PStream)
    → (q == 0) ≡ false
    → 70 < fuel
    → q < 65
    → props.npad < 2 ^ 32
    → ((a : ℕ) → a < q → buf a ≢ 0)
    → (let (p2, (buf2, (props', ps'))) = alternate_hex base q buf props ps in
        print_buf fuel p2 buf2 props' ps')
      ≡ some (
          add_all
            (if props.alternate && base == 16
              then (if props.pad == b'0'
                  then b'0' ∷ b'x' ∷ justify (narrowed props) props.pad (down q buf)
                  else justify props.npad props.pad (b'0' ∷ b'x' ∷ down q buf))
              else justify props.npad props.pad (down q buf))
            ps)
unfolding alternate_hex add_all
with_prefix fuel q base buf props ps nq hf bound hw nz =
    elim (Bool-cases (props.alternate && base == 16)) [
      | inr simple ↦
          rw (nq, simple) (print_buf-add_all fuel q buf props ps (omega arith) (omega arith) hw nz)
      | inl hex ↦ elim (Bool-cases (props.pad == b'0')) [
        | inl zeros ↦
            rw (nq, hex, zeros)
              (print_buf-add_all fuel q buf (record props { npad = narrowed props })
                (addchar b'x' (addchar b'0' ps)) (omega arith) (omega arith) (ground arith) nz)
        | inr spaces ↦
            let buf2 = store_byte (q + 1) b'0' (store_byte q b'x' buf) in
            rw (nq, hex, spaces)
              (print_buf-add_all fuel (q + 2) buf2 props ps (omega arith) (omega arith) hw
                  (λ a lt. prefixed a lt)
                ∙ ap (λ (t : List ℕ). some (add_all (justify props.npad props.pad t) ps)) text)
      ]
    ]
  where
    prefixed : (a : ℕ) → a < q + 2 → store_byte (q + 1) b'0' (store_byte q b'x' buf) a ≢ 0
    prefixed a lt = elim (Bool-cases (a == q + 1)) [
      | inl top ↦ rw top (ground arith)
      | inr below ↦ rw below (elim (Bool-cases (a == q)) [
        | inl letter ↦ rw letter (ground arith)
        | inr digit ↦ rw digit (nz a (ground arith))
      ])
    ]

    text : down (q + 2) (store_byte (q + 1) b'0' (store_byte q b'x' buf)) ≡ b'0' ∷ b'x' ∷ down q buf
    text =
        let e : q + 2 ≡ q + 1 + 1 = omega arith in
        rw (e, down_push (q + 1) b'0' (store_byte q b'x' buf), down_push q b'x' buf)

-- `print_unsigned` of a 64-bit number in a base from 8 to 16, whatever its array holds at first,
-- sends the number in characters 0 to 9 and a to f that are digits of the base, without a leading
-- zero, in their field; in base 16 and when asked
-- for, `0x` stands in front of a number that is not 0, and in front of the zeros that pad it.
pub print_unsigned_lem :
    (fuel n base : ℕ) (buf : Bytes) (props : StrProps) (ps : PStream)
    → 8 ≤ base
    → base ≤ 16
    → n < 2 ^ 64
    → 70 < fuel
    → props.npad < 2 ^ 32
    → PrintsUnsigned fuel n base buf props ps
unfolding print_unsigned alternate_hex
print_unsigned_lem fuel n base buf props ps lo hi hn hf hw =
    let (q, buf1, run, bound, D) = digit_loop_lem 64 n base 0 buf (omega arith) hi hn in
    elim (Bool-cases (n == 0)) [
      | inl is_zero ↦
          let z : n ≡ 0 = ground arith in
          let eq : q ≡ 0 = D.none_for_zero z in
          (
            b'0' ∷ [],
            omega arith,
            (IsDigit-zero base (omega arith), tt),
            tt,
            omega arith,
            rw (run, eq, is_zero)
                (print_buf-add_all fuel 1 (store_byte 0 b'0' buf1) props ps (omega arith)
                  (omega arith) hw (λ a lt. ground arith)),
          )
      | inr some_digits ↦
          let top = D.top (ground arith) in
          let nq : (q == 0) ≡ false = ground arith in
          (
            down q buf1,
            D.number,
            IsDigits-down q base buf1 (λ a lt. (D.chars a (omega arith) lt).1),
            IsCanonical-down q buf1 (omega arith) top.1,
            omega (arith, length-down q buf1),
            rw (run, some_digits)
                (with_prefix fuel q base buf1 props ps nq hf bound hw
                  (λ a lt. (D.chars a (omega arith) lt).0)),
          )
    ]

sign_chars : (q a : ℕ) (buf : Bytes) → (a < q → buf a ≢ 0) → a < q + 1 → store_byte q b'-' buf a ≢ 0
sign_chars q a buf nz lt = elim (Bool-cases (a == q)) [
  | inl sign ↦ rw sign (ground arith)
  | inr digit ↦ rw digit (nz (ground arith))
]

-- A number that is negative has its sign in front of its digits.
abbrev pub signed_text : ℕ → List ℕ → List ℕ
signed_text n s = if leb (2 ^ 63) n then b'-' ∷ s else s

abbrev pub magnitude : ℕ → ℕ
magnitude n = if leb (2 ^ 63) n then 2 ^ 64 - n else n

abbrev pub PrintsInt : ℕ → ℕ → ℕ → Bytes → StrProps → PStream → Type 0
PrintsInt fuel n base buf props ps =
    (s : List ℕ) × (value base 0 s ≡ magnitude n)
    × IsDigits base s
    × IsCanonical s
    × (length s < 66)
    × (print_int fuel n base buf props ps
        ≡ some (add_all (justify props.npad props.pad (signed_text n s)) ps))

print_int-down :
    (fuel n base q : ℕ) (buf buf1 : Bytes) (props : StrProps) (ps : PStream)
    → 8 ≤ base
    → digit_loop 65 (magnitude n) base 0 buf ≡ some (q, buf1)
    → q < 65
    → Digits (magnitude n) base 0 buf q buf1
    → n < 2 ^ 64
    → n ≢ 2 ^ 63
    → 70 < fuel
    → props.npad < 2 ^ 32
    → PrintsInt fuel n base buf props ps
unfolding print_int
print_int-down fuel n base q buf buf1 props ps lo run bound D hn ne hf hw =
    let m = magnitude n in
    let fault : (m == 2 ^ 63) ≡ false = ground arith in
    elim (Bool-cases (leb (2 ^ 63) n)) [
      | inl minus ↦
          let nz : m ≢ 0 = ground arith in
          let top = D.top nz in
          let at : (q + 1 == 0) ≡ false = ground arith in
          (
            down q buf1,
            D.number,
            IsDigits-down q base buf1 (λ a lt. (D.chars a (omega arith) lt).1),
            IsCanonical-down q buf1 (omega (arith, top.0)) top.1,
            omega (arith, length-down q buf1),
            rw (fault, run, minus, at)
                (print_buf-add_all fuel (q + 1) (store_byte q b'-' buf1) props ps (omega arith)
                    (omega arith) hw
                    (λ a lt. sign_chars q a buf1 (λ lt'. (D.chars a (omega arith) lt').0) lt)
                  ∙ ap (λ (t : List ℕ). some (add_all (justify props.npad props.pad t) ps))
                      (down_push q b'-' buf1)),
          )
      | inr plus ↦ elim (Bool-cases (m == 0)) [
        | inl is_zero ↦
            let z : m ≡ 0 = ground arith in
            let eq : q ≡ 0 = D.none_for_zero z in
            (
              b'0' ∷ [],
              rw z (omega arith),
              (IsDigit-zero base (omega arith), tt),
              tt,
              omega arith,
              rw (fault, run, plus, eq)
                  (print_buf-add_all fuel 1 (store_byte 0 b'0' buf1) props ps (omega arith)
                    (omega arith) hw (λ a lt. ground arith)),
            )
        | inr some_digits ↦
            let top = D.top (ground arith) in
            let at : (q == 0) ≡ false = ground (arith, top.0) in
            (
              down q buf1,
              D.number,
              IsDigits-down q base buf1 (λ a lt. (D.chars a (omega arith) lt).1),
              IsCanonical-down q buf1 (omega (arith, top.0)) top.1,
              omega (arith, length-down q buf1),
              rw (fault, run, plus, at)
                  (print_buf-add_all fuel q buf1 props ps (omega arith) (omega arith) hw
                    (λ a lt. (D.chars a (omega arith) lt).0)),
            )
      ]
    ]

-- `print_int` of a 64-bit number in two's complement other than the least, in a base from 8 to 16,
-- sends a minus sign for a negative number and its magnitude in characters 0 to 9 and a to f that
-- are digits of the base, without a leading zero, in their field; the characters that pad it come before the sign, zeros too.
pub print_int_lem :
    (fuel n base : ℕ) (buf : Bytes) (props : StrProps) (ps : PStream)
    → 8 ≤ base
    → base ≤ 16
    → n < 2 ^ 64
    → n ≢ 2 ^ 63
    → 70 < fuel
    → props.npad < 2 ^ 32
    → PrintsInt fuel n base buf props ps
print_int_lem fuel n base buf props ps lo hi hn ne hf hw =
    let hm : magnitude n < 2 ^ 64 = ground arith in
    let (q, buf1, run, bound, D) = digit_loop_lem 64 (magnitude n) base 0 buf (omega arith) hi hm in
    print_int-down fuel n base q buf buf1 props ps lo run bound D hn ne hf hw
