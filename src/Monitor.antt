-- ===== src/Monitor.antt =====
-- driver/monitor.c and include/monitor.h: the VGA text console. The framebuffer at 0xB8000 is a
-- function from the index of a 16-bit cell, and what the driver writes to the VGA ports is a log,
-- the newest write first. A `char` is a byte; the source compares it as a signed number.
mod Tests
pub mod Terminal
pub mod Screen
pub mod Put
pub mod Numbers
pub mod Digits
pub mod Decimal
pub mod Cursor
use asor.Base.{
  ℕ, zero, suc, ◌+◌, ◌-◌, ◌*◌, ◌/◌, ◌%◌, ◌^◌, bit_and, bit_or, Bool, true, false, not, ◌&&◌, Option,
  none, some, List, [], ◌∷◌, ltb, leb, ◌==◌, if◌then◌else◌, ◌>>=◌, length, get_elem?, set,
}

-- `mcolor_t`
pub data MColor : Type 0 where
  black dark_blue dark_green dark_cyan dark_red dark_magenta dark_yellow light_grey : MColor
  dark_grey light_blue light_green light_cyan light_red light_magenta light_yellow white : MColor

unfoldable pub color_code : MColor → ℕ
color_code black = 0
color_code dark_blue = 1
color_code dark_green = 2
color_code dark_cyan = 3
color_code dark_red = 4
color_code dark_magenta = 5
color_code dark_yellow = 6
color_code light_grey = 7
color_code dark_grey = 8
color_code light_blue = 9
color_code light_green = 10
color_code light_cyan = 11
color_code light_red = 12
color_code light_magenta = 13
color_code light_yellow = 14
color_code white = 15

pub record Monitor : Type 0 where
  pub video_memory : ℕ → ℕ
  pub cursor_x : ℕ
  pub cursor_y : ℕ
  -- (value, port) of each `outb`
  pub ports : List (ℕ × ℕ)

abbrev pub outb : ℕ → ℕ → Monitor → Monitor
outb value port m = record m { ports = (value % 2 ^ 8, port) ∷ m.ports }

abbrev pub store_cell : ℕ → ℕ → (ℕ → ℕ) → ℕ → ℕ
store_cell i v vm j = if i == j then v % 2 ^ 16 else vm j

pub cursor_location : Monitor → ℕ
cursor_location m = (m.cursor_y * 80 + m.cursor_x) % 2 ^ 16

pub move_cursor : Monitor → Monitor
move_cursor m =
    let loc = cursor_location m in
    outb loc 0x3D5 (outb 15 0x3D4 (outb (loc / 2 ^ 8) 0x3D5 (outb 14 0x3D4 m)))

-- 0x20 | (attribute_byte << 8) with the attribute byte (0 << 4) | (15 & 0x0F)
abbrev pub blank : ℕ
blank = bit_or 0x20 (bit_or (0 * 2 ^ 4) (bit_and 15 0x0F) * 2 ^ 8)

-- for (i = i; rounds are left; i++) video_memory[i] = video_memory[i + 80]
pub copy_up : ℕ → ℕ → (ℕ → ℕ) → ℕ → ℕ
copy_up zero i vm = vm
copy_up (suc rounds) i vm = copy_up rounds (i + 1) (store_cell i (vm (i + 80)) vm)

-- for (i = i; rounds are left; i++) video_memory[i] = blank
pub fill_blank : ℕ → ℕ → (ℕ → ℕ) → ℕ → ℕ
fill_blank zero i vm = vm
fill_blank (suc rounds) i vm = fill_blank rounds (i + 1) (store_cell i blank vm)

pub scroll : Monitor → Monitor
scroll m =
    if leb 25 m.cursor_y
    then (record m {
      video_memory = fill_blank 80 (24 * 80) (copy_up (24 * 80) 0 m.video_memory);
      cursor_y = 24;
    })
    else m

pub attribute_byte : MColor → MColor → ℕ
attribute_byte bc fc = bit_or (color_code bc * 2 ^ 4) (bit_and (color_code fc) 0x0F) % 2 ^ 8

-- The chain of cases of `monitor_put` on the character.
pub put_char : ℕ → ℕ → Monitor → Monitor
put_char c attribute m =
    if c == 0x08 && not (m.cursor_x == 0)
    then record m { cursor_x = m.cursor_x - 1 }
    else if c == 0x09
    then record m { cursor_x = bit_and (m.cursor_x + 8) (2 ^ 32 - 8) % 2 ^ 8 }
    else if c == b'\r'
    then record m { cursor_x = 0 }
    else if c == b'\n'
    then record m { cursor_x = 0; cursor_y = (m.cursor_y + 1) % 2 ^ 8 }
    else if leb 0x20 c && ltb c 0x80
    then (record m {
      video_memory = store_cell (m.cursor_y * 80 + m.cursor_x) (bit_or c attribute) m.video_memory;
      cursor_x = (m.cursor_x + 1) % 2 ^ 8;
    })
    else m

pub wrap_line : Monitor → Monitor
wrap_line m =
    if leb 80 m.cursor_x then record m { cursor_x = 0; cursor_y = (m.cursor_y + 1) % 2 ^ 8 } else m

pub put : ℕ → MColor → MColor → Monitor → Monitor
put c bc fc m = move_cursor (scroll (wrap_line (put_char c (attribute_byte bc fc * 2 ^ 8) m)))

pub clear : Monitor → Monitor
clear m =
    move_cursor (record m {
      video_memory = fill_blank (80 * 25) 0 m.video_memory;
      cursor_x = 0;
      cursor_y = 0;
    })

-- The list is the memory from `str` on; `none` is a read past its end.
unfoldable pub write_color : List ℕ → MColor → MColor → Monitor → Option Monitor
write_color [] bc fc m = none
write_color (c ∷ s) bc fc m = if c == 0 then some m else write_color s bc fc (put c bc fc m)

pub write : List ℕ → Monitor → Option Monitor
write s m = write_color s black white m

abbrev pub hex_char : ℕ → ℕ
hex_char tmp = if leb 0xA tmp then tmp - 0xA + b'a' else tmp + b'0'

-- for (i = 4 * rounds; i > 0; i -= 4)
pub hex_loop : ℕ → ℕ → Bool → MColor → MColor → Monitor → Monitor
hex_loop zero n no_zeroes bc fc m = m
hex_loop (suc r) n no_zeroes bc fc m =
    let tmp = bit_and (n / 2 ^ (4 * suc r)) 0xF in
    let skip = tmp == 0 && no_zeroes in
    hex_loop r n (if skip then no_zeroes else false) bc fc
      (if skip then m else put (hex_char tmp) bc fc m)

pub write_hex : ℕ → MColor → MColor → Monitor → Option Monitor
write_hex n bc fc m = do
  m' ← write_color (b'0' ∷ b'x' ∷ 0 ∷ []) bc fc m
  some (put (hex_char (bit_and n 0xF)) bc fc (hex_loop 7 n true bc fc m'))

-- `c[i] = v` in an array; `none` is a write outside it.
pub store : List ℕ → ℕ → ℕ → Option (List ℕ)
store c i v = if ltb i (length c) then some (set c i v) else none

-- while (acc > 0) { c[i] = '0' + acc % 10; acc /= 10; i++; }
pub dec_loop : ℕ → ℕ → ℕ → List ℕ → Option (ℕ × List ℕ)
dec_loop zero acc i c = none
dec_loop (suc fuel) acc i c =
    let rest = (store c i (b'0' + acc % 10) >>= λ c'. dec_loop fuel (acc / 10) (i + 1) c') in
    if acc == 0 then some (i, c) else rest

-- while (i >= 0) c2[i--] = c[j++], where the first argument is i + 1
pub copy_back : ℕ → ℕ → List ℕ → List ℕ → Option (List ℕ)
copy_back zero j c c2 = some c2
copy_back (suc i) j c c2 = do v ← get_elem? c j; c2' ← store c2 i v; copy_back i (j + 1) c c2'

-- `c` and `c2` are what the two arrays on the stack hold at first.
pub write_dec : ℕ → List ℕ → List ℕ → MColor → MColor → Monitor → Option Monitor
write_dec n c c2 bc fc m = if n == 0 then some (put b'0' bc fc m) else do
  (i, c') ← dec_loop 11 n 0 c
  c'' ← store c' i 0
  c2' ← store c2 i 0
  c2'' ← copy_back i 0 c'' c2'
  write_color c2'' bc fc m
