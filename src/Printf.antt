-- ===== src/Printf.antt =====
-- lib/printf.c: formatted output. `out` is the memory that is written to, and `mem` the memory that
-- the format, the strings and the digits are read from; `fuel` bounds each loop over a string. An
-- `int` is a 32-bit word in two's complement, and the arguments are a list of 64-bit words; `none`
-- is a missing argument, a read outside an array, or fuel that ran out. The arrays for the digits of a
-- number, of 26 and 27 bytes, have room for every number in base 8 and above.
pub mod Stream
pub mod Digits
pub mod Numbers
pub mod Number
pub mod Rendering
pub mod Convert
pub mod Format
pub mod Binary
pub mod Buffer
pub mod Console
mod Tests
use asor.Base.{
  ℕ, zero, suc, ◌+◌, ◌-◌, ◌*◌, ◌/◌, ◌%◌, ◌^◌, Bool, true, false, not, ◌&&◌, ◌||◌, Option, none,
  some, List, [], ◌∷◌, leb, ltb, ◌==◌, if◌then◌else◌, ◌>>=◌, bit_and,
}
use asor.CString.{Bytes, store_byte}
use asor.CString.Strings.{strlen, atol}

-- `pstream_t`, with the memory behind `buffer`.
pub record PStream : Type 0 where
  pub out : Bytes
  pub buffer : ℕ
  pub remain : ℕ
  pub added : ℕ

pub record StrProps : Type 0 where
  pub pad : ℕ
  pub npad : ℕ
  pub alternate : Bool

-- n > 0 and n < 0 of an `int`
abbrev pub positive : ℕ → Bool
positive n = ltb 0 n && ltb n (2 ^ 31)

abbrev pub negative : ℕ → Bool
negative n = leb (2 ^ 31) n

abbrev pub sub32 : ℕ → ℕ → ℕ
sub32 a b = (a + 2 ^ 32 - b % 2 ^ 32) % 2 ^ 32

pub addchar : ℕ → PStream → PStream
addchar c p =
    let p' = if p.remain == 0 then p else (record p {
      out = store_byte p.buffer (c % 2 ^ 8) p.out;
      buffer = p.buffer + 1;
      remain = p.remain - 1;
    }) in
    record p' { added = (p'.added + 1) % 2 ^ 32 }

-- The loops over npad, a round for each step to 0.
pub fill : ℕ → ℕ → PStream → PStream
fill zero c p = p
fill (suc rounds) c p = fill rounds c (addchar c p)

-- while (*s) addchar(p, *s++);
pub put_string : ℕ → ℕ → Bytes → PStream → Option PStream
put_string zero s mem p = none
put_string (suc fuel) s mem p =
    let rest = put_string fuel (s + 1) mem (addchar (mem s) p) in
    if mem s == 0 then some p else rest

-- The number of rounds of while (npad > 0) --npad and of while (npad < 0) ++npad.
abbrev pub rounds_down : ℕ → ℕ
rounds_down npad = if positive npad then npad else 0

abbrev pub rounds_up : ℕ → ℕ
rounds_up npad = if negative npad then 2 ^ 32 - npad else 0

pub print_str : ℕ → ℕ → Bytes → StrProps → PStream → Option PStream
print_str fuel s mem props p = do
  len ← strlen fuel s mem
  let npad = if positive props.npad then sub32 props.npad len else props.npad
  let npad' = if positive npad then 0 else npad
  p' ← put_string fuel s mem (fill (rounds_down npad) props.pad p)
  some (if negative npad' then fill (rounds_up ((npad' + len) % 2 ^ 32)) b' ' p' else p')

-- digits[i] of "0123456789abcdef"
abbrev pub digit : ℕ → ℕ
digit i = if ltb i 10 then b'0' + i else b'a' + (i - 10)

-- while (n) { *p++ = digits[n % base]; n /= base; }
pub digit_loop : ℕ → ℕ → ℕ → ℕ → Bytes → Option (ℕ × Bytes)
digit_loop zero n base p buf = none
digit_loop (suc fuel) n base p buf =
    let rest = digit_loop fuel (n / base) base (p + 1) (store_byte p (digit (n % base)) buf) in
    if n == 0 then some (p, buf) else rest

-- for (i = i; rounds are left; ++i) { tmp = buf[i]; buf[i] = p[-1-i]; p[-1-i] = tmp; }, where the
-- array starts at 0
pub swap_loop : ℕ → ℕ → ℕ → Bytes → Bytes
swap_loop zero i p buf = buf
swap_loop (suc rounds) i p buf =
    let tmp = buf i in
    swap_loop rounds (i + 1) p (store_byte (p - 1 - i) tmp (store_byte i (buf (p - 1 - i)) buf))

-- The reversal, the NUL and the output of the array that `print_int` and `print_unsigned` end with.
pub print_buf : ℕ → ℕ → Bytes → StrProps → PStream → Option PStream
print_buf fuel p buf props ps =
    print_str fuel 0 (store_byte p 0 (swap_loop (p / 2) 0 p buf)) props ps

-- `n` is a `long long`. The least one is its own negative, and its digits are then read in front of
-- the table. `buf` is what the array holds at first.
pub print_int : ℕ → ℕ → ℕ → Bytes → StrProps → PStream → Option PStream
print_int fuel n base buf props ps =
    let s = leb (2 ^ 63) n in
    let n' = if s then 2 ^ 64 - n else n in
    if n' == 2 ^ 63 then none else (do
      (p, buf1) ← digit_loop 65 n' base 0 buf
      let buf2 = if s then store_byte p b'-' buf1 else buf1
      let p2 = if s then p + 1 else p
      print_buf fuel (if p2 == 0 then 1 else p2) (if p2 == 0 then store_byte 0 b'0' buf2 else buf2)
          props ps)

-- `0x` in front of hexadecimal digits: into the stream when zeros pad, else into the array.
pub alternate_hex : ℕ → ℕ → Bytes → StrProps → PStream → ℕ × (Bytes × (StrProps × PStream))
alternate_hex base p buf props ps =
    if p == 0
    then (1, (store_byte 0 b'0' buf, (props, ps)))
    else if props.alternate && base == 16
    then (if props.pad == b'0'
        then (
          p,
          (
            buf,
            (
              record props {
                npad =
                    if positive props.npad
                    then (if leb 2 props.npad then props.npad - 2 else 0)
                    else props.npad;
              },
              addchar b'x' (addchar b'0' ps),
            ),
          ),
        )
        else (p + 2, (store_byte (p + 1) b'0' (store_byte p b'x' buf), (props, ps))))
    else (p, (buf, (props, ps)))

pub print_unsigned : ℕ → ℕ → ℕ → Bytes → StrProps → PStream → Option PStream
print_unsigned fuel n base buf props ps = do
  (p, buf1) ← digit_loop 65 n base 0 buf
  let (p2, (buf2, (props', ps'))) = alternate_hex base p buf1 props ps
  print_buf fuel p2 buf2 props' ps'

-- while (*f >= '0' && *f <= '9') ++f, ++len;
pub skip_digits : ℕ → ℕ → Bytes → Option ℕ
skip_digits zero f mem = none
skip_digits (suc fuel) f mem =
    let rest = skip_digits fuel (f + 1) mem in
    if leb b'0' (mem f) && leb (mem f) b'9' then rest else some f

-- The results are the number and `*fmt`.
pub fmtnum : ℕ → ℕ → Bytes → Option (ℕ × ℕ)
fmtnum fuel fmt mem = do
  f ← skip_digits fuel (if mem fmt == b'-' then fmt + 1 else fmt) mem
  num ← atol fuel fmt mem
  some (num % 2 ^ 32, f)

-- va_arg
abbrev pub va_arg : List ℕ → Option (ℕ × List ℕ)
va_arg [] = none
va_arg (v ∷ va) = some (v, va)

-- The value of an argument of `int` or of `long`, for %d and for %u and %x.
abbrev pub signed_arg : ℕ → ℕ → ℕ
signed_arg nlong v =
    if nlong == 0
    then (if ltb (v % 2 ^ 32) (2 ^ 31) then v % 2 ^ 32 else v % 2 ^ 32 + (2 ^ 64 - 2 ^ 32))
    else v

abbrev pub unsigned_arg : ℕ → ℕ → ℕ
unsigned_arg nlong v = if nlong == 0 then v % 2 ^ 32 else v

-- The directives that end with an output: the character `f` of the switch of `vsnprintf`.
pub convert : ℕ → ℕ → ℕ → StrProps → Bytes → List ℕ → Bytes → PStream → Option (List ℕ × PStream)
convert fuel f nlong props buf va mem ps =
    if f == b'%'
    then some (va, addchar b'%' ps)
    else if f == b'c'
    then (do (v, va') ← va_arg va; some (va', addchar v ps))
    else if f == b'd'
    then (do
      (v, va') ← va_arg va
      ps' ← print_int fuel (signed_arg nlong v) 10 buf props ps
      some (va', ps'))
    else if f == b'u'
    then (do
      (v, va') ← va_arg va
      ps' ← print_unsigned fuel (unsigned_arg nlong v) 10 buf props ps
      some (va', ps'))
    else if f == b'x'
    then (do
      (v, va') ← va_arg va
      ps' ← print_unsigned fuel (unsigned_arg nlong v) 16 buf props ps
      some (va', ps'))
    else if f == b'p'
    then (do
      (v, va') ← va_arg va
      ps' ← print_unsigned fuel v 16 buf (record props { alternate = true }) ps
      some (va', ps'))
    else if f == b's'
    then (do (v, va') ← va_arg va; ps' ← print_str fuel v mem props ps; some (va', ps'))
    else some (va, addchar f ps)

-- From `morefmt` on: the format behind the directive, the arguments left, and the stream. `rounds`
-- is fuel for the jumps to `morefmt`.
pub directive :
    ℕ → ℕ → ℕ → ℕ → StrProps → Bytes → List ℕ → Bytes → PStream → Option (ℕ × (List ℕ × PStream))
directive zero fuel fmt nlong props buf va mem ps = none
directive (suc rounds) fuel fmt nlong props buf va mem ps =
    let f = mem fmt in
    let next = λ (fmt' nlong' : ℕ) (props' : StrProps).
      directive rounds fuel fmt' nlong' props' buf va mem ps in
    if f == 0
    then some (fmt, (va, ps))
    else if f == b'#'
    then next (fmt + 1) nlong (record props { alternate = true })
    else if f == b'0'
    then (do
      (num, fmt') ← fmtnum fuel (fmt + 1) mem
      next fmt' nlong (record props { pad = b'0'; npad = num }))
    else if leb b'1' f && leb f b'9' || f == b'-'
    then (do (num, fmt') ← fmtnum fuel fmt mem; next fmt' nlong (record props { npad = num }))
    else if f == b'l'
    then next (fmt + 1) (nlong + 1) props
    else if f == b't' || f == b'z'
    then next (fmt + 1) 1 props
    else (do (va', ps') ← convert fuel f nlong props buf va mem ps; some (fmt + 1, (va', ps')))

abbrev pub plain : StrProps
plain = record { pad = b' '; npad = 0; alternate = false }

-- while (*fmt) of `vsnprintf`, a round for a unit of the first fuel
pub format_loop : ℕ → ℕ → ℕ → Bytes → List ℕ → Bytes → PStream → Option PStream
format_loop zero fuel fmt buf va mem ps = none
format_loop (suc rounds) fuel fmt buf va mem ps =
    let text = format_loop rounds fuel (fmt + 1) buf va mem (addchar (mem fmt) ps) in
    let special =
      (directive fuel fuel (fmt + 1) 0 plain buf va mem ps >>= λ r.
      format_loop rounds fuel (r.0) buf (r.1.0) mem (r.1.1)) in
    if mem fmt == 0 then some ps else if not (mem fmt == b'%') then text else special

-- The results are the returned value and the memory of the buffer.
pub vsnprintf : ℕ → ℕ → ℕ → ℕ → Bytes → List ℕ → Bytes → Bytes → Option (ℕ × Bytes)
vsnprintf fuel dest size fmt buf va mem out = do
  ps ←
      format_loop fuel fuel fmt buf va mem
        (record { out = out; buffer = dest; remain = (size + 2 ^ 32 - 1) % 2 ^ 32; added = 0 })
  some (ps.added, store_byte ps.buffer 0 ps.out)

-- BINSTR_SZ is the room of `binstr`; the loop writes the digit of bit 63 - i, and a quote behind
-- every fourth but the last. The results are `c` and the array.
pub binstr_loop : ℕ → ℕ → ℕ → ℕ → Bytes → ℕ × Bytes
binstr_loop zero i x c out = (c, out)
binstr_loop (suc rounds) i x c out =
    let out1 = store_byte c (if bit_and x (2 ^ (64 - i - 1)) == 0 then b'0' else b'1') out in
    if i + 1 == 64
    then (c + 1, store_byte (c + 1) 0 out1)
    else if (i + 1) % 4 == 0
    then binstr_loop rounds (i + 1) x (c + 2) (store_byte (c + 1) b'\'' out1)
    else binstr_loop rounds (i + 1) x (c + 1) out1

pub binstr : ℕ → ℕ → Bytes → Option Bytes
binstr x out mem =
    let (c, mem') = binstr_loop 64 0 x out mem in if c + 1 - out == 80 then some mem' else none
