-- ===== src/Monitor/Put.antt =====
-- One character of the console against the terminal, and strings.
use asor.Base.{
  ℕ, ◌+◌, ◌-◌, ◌*◌, ◌/◌, ◌%◌, ◌^◌, ◌≤◌, ◌<◌, ◌≡◌, refl, sym, ◌≢◌, inl, inr, ◌∙◌, bit_and, bit_or,
  true, false, ◌&&◌, some, List, [], ◌∷◌, ◌++◌, ltb, leb, ◌==◌, if◌then◌else◌, Bool-cases, arith,
  NonZero,
}
use asor.Base.Bits.{bit_and_ones, bit_and_shifted, bit_or_sum, bit_or_comm}
use asor.Monitor.{
  MColor, color_code, Monitor, move_cursor, scroll, attribute_byte, put_char, wrap_line, put,
  write_color,
}
use asor.Monitor.Terminal.{Terminal, go_to, place, feed, feed_all}
use asor.Monitor.Screen.{Cells, Shows, scroll_below, scroll-line_feed}

tab_stop : (x : ℕ) → x < 80 → bit_and (x + 8) (2 ^ 32 - 8) % 2 ^ 8 ≡ x / 8 * 8 + 8
tab_stop x h = omega (arith, bit_and_shifted 3 (x + 8) (2 ^ 29 - 1), bit_and_ones 29 ((x + 8) / 8))

pub color_code-lt : (c : MColor) → color_code c < 16
unfolding color_code
color_code-lt MColor.black = omega arith
color_code-lt _ = omega arith

pub attribute_byte-lt : (bc fc : MColor) → attribute_byte bc fc < 2 ^ 8
unfolding attribute_byte
attribute_byte-lt bc fc = omega arith

-- The cell that a printable character leaves.
cell_value : (c a : ℕ) → c < 128 → a < 2 ^ 8 → bit_or c (a * 2 ^ 8) % 2 ^ 16 ≡ c + 256 * a
cell_value c a hc ha = omega (arith, bit_or_comm c (a * 2 ^ 8), bit_or_sum 8 a c (omega arith))

Shows-move_cursor : (m : Monitor) (t : Terminal) → Shows m t → Shows (move_cursor m) t
unfolding move_cursor
Shows-move_cursor m t s = record {
  frame = record { wide = s.frame.wide; cells = s.frame.cells };
  row = s.row;
  col = s.col;
  row_in = s.row_in;
  col_in = s.col_in;
}

Shows-go_to :
    (m : Monitor) (t : Terminal)
    → Cells m t
    → m.cursor_x ≤ 80
    → m.cursor_y ≡ t.row
    → t.row < 25
    → Shows (scroll (wrap_line m)) (go_to m.cursor_x t)
unfolding wrap_line go_to
Shows-go_to m t c hx hy hr = elim (Bool-cases (leb 80 m.cursor_x)) [
  | inl past ↦
      let e : ltb m.cursor_x 80 ≡ false = ground arith in
      rw (past, e)
        (scroll-line_feed (record m { cursor_x = 0; cursor_y = (m.cursor_y + 1) % 2 ^ 8 }) t
          (record { wide = c.wide; cells = c.cells }) refl (omega arith) hr)
  | inr within ↦
      let e : ltb m.cursor_x 80 ≡ true = ground arith in
      rw (within, e, scroll_below m (omega arith))
        (record {
          frame = record { wide = c.wide; cells = c.cells };
          row = hy;
          col = refl;
          row_in = hr;
          col_in = ground arith;
        })
]

-- The terminal with a printable character placed, before the cursor moves.
placed : ℕ → ℕ → Terminal → Terminal
placed a c t = if leb 32 c && ltb c 128 then place (c + 256 * a) t else t

Cells-put_char :
    (a c : ℕ) (m : Monitor) (t : Terminal)
    → a < 2 ^ 8
    → Shows m t
    → Cells (put_char c (a * 2 ^ 8) m) (placed a c t)
unfolding put_char placed place
Cells-put_char a c m t ha s = record {
  wide = λ i. ground (arith, s.frame.wide i);
  cells = λ r k hr hk. ground (arith, s.frame.cells r k, cell_value c a);
}

put_char_cursor :
    (a c : ℕ) (m : Monitor) (t : Terminal)
    → Shows m t
    → c ≢ b'\n'
    → ((put_char c (a * 2 ^ 8) m).cursor_x ≤ 80) × ((put_char c (a * 2 ^ 8) m).cursor_y ≡ t.row)
unfolding put_char
put_char_cursor a c m t s h = ground (arith, tab_stop m.cursor_x)

feed-go_to :
    (a c : ℕ) (m : Monitor) (t : Terminal)
    → Shows m t
    → c ≢ b'\n'
    → feed a c t ≡ go_to (put_char c (a * 2 ^ 8) m).cursor_x (placed a c t)
unfolding put_char feed placed go_to place
feed-go_to a c m t s h = ground (arith, tab_stop m.cursor_x)

placed_row : (a c : ℕ) (t : Terminal) → (placed a c t).row ≡ t.row
unfolding placed place
placed_row a c t = ground arith

put_char_feeds :
    (a c : ℕ) (m : Monitor) (t : Terminal)
    → a < 2 ^ 8
    → Shows m t
    → c ≢ b'\n'
    → Shows (scroll (wrap_line (put_char c (a * 2 ^ 8) m))) (feed a c t)
put_char_feeds a c m t ha s h =
    let cursor = put_char_cursor a c m t s h in
    rw (feed-go_to a c m t s h) (
      Shows-go_to (put_char c (a * 2 ^ 8) m) (placed a c t) (Cells-put_char a c m t ha s) cursor.0
        (cursor.1 ∙ sym (placed_row a c t)) (omega (arith, placed_row a c t, s.row_in)))

newline_feeds :
    (a attribute : ℕ) (m : Monitor) (t : Terminal)
    → Shows m t
    → Shows (scroll (wrap_line (put_char b'\n' attribute m))) (feed a b'\n' t)
unfolding put_char wrap_line feed
newline_feeds a attribute m t s =
    scroll-line_feed (record m { cursor_x = 0; cursor_y = (m.cursor_y + 1) % 2 ^ 8 }) t
      (record { wide = s.frame.wide; cells = s.frame.cells }) refl (ground arith) s.row_in

-- If the console shows a terminal, then after `monitor_put` of any character in any colours it
-- shows the terminal to which that character was fed with the attribute byte of the colours: the
-- 25 rows of 80 cells agree and so does the cursor, which is on the screen again. This covers
-- printable characters, backspace, tab, carriage return, newline, the wrap at column 80 and the
-- scroll at row 25.
pub put_refines :
    (c : ℕ) (bc fc : MColor) (m : Monitor) (t : Terminal)
    → Shows m t
    → Shows (put c bc fc m) (feed (attribute_byte bc fc) c t)
unfolding put
put_refines c bc fc m t s =
    let a = attribute_byte bc fc in
    Shows-move_cursor (scroll (wrap_line (put_char c (a * 2 ^ 8) m))) (feed a c t)
      (elim (Bool-cases (c == b'\n')) [
        | inl e ↦ let n : c ≡ b'\n' = ground arith in rw n (newline_feeds a (a * 2 ^ 8) m t s)
        | inr e ↦ put_char_feeds a c m t (attribute_byte-lt bc fc) s (ground arith)
      ])

-- `monitor_write_color` of a string `s` that a NUL ends, whatever lies behind it, does not read
-- past the NUL, and feeds its characters to the terminal in order.
pub write_color_refines :
    (s rest : List ℕ) (bc fc : MColor) (m : Monitor) (t : Terminal)
    → Shows m t
    → NonZero s
    → (m' : Monitor) × (write_color (s ++ (0 ∷ rest)) bc fc m ≡ some m')
      × Shows m' (feed_all (attribute_byte bc fc) s t)
unfolding write_color feed_all
write_color_refines [] rest bc fc m t h ok = (m, refl, h)
write_color_refines (c ∷ s) rest bc fc m t h ok =
    let (m', e, h') =
      write_color_refines s rest bc fc (put c bc fc m) (feed (attribute_byte bc fc) c t)
        (put_refines c bc fc m t h) ok.1 in
    (m', ground arith, h')
