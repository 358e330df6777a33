-- ===== src/Monitor/Cursor.antt =====
-- `monitor_clear`, the hardware cursor, and the part of memory that the console touches.
use asor.Base.{ℕ, ◌+◌, ◌*◌, ◌/◌, ◌%◌, ◌^◌, ◌≤◌, ◌<◌, ◌≡◌, refl, ap, ◌∙◌, List, ◌∷◌, arith}
use asor.Monitor.{
  MColor, Monitor, cursor_location, move_cursor, copy_up, scroll, attribute_byte, put_char,
  wrap_line, put, clear,
}
use asor.Monitor.Terminal.{Terminal, feed, empty_cell}
use asor.Monitor.Screen.{Shows, copy_up_lem, fill_blank_lem}
use asor.Monitor.Put.{put_refines}

abbrev pub empty_terminal : Terminal
empty_terminal = record { cell = λ r k. empty_cell; row = 0; col = 0 }

-- Whatever the cursor was, `monitor_clear` leaves a framebuffer of 16-bit cells showing an empty
-- screen with the cursor in the top left corner.
pub clear_lem :
    (m : Monitor) → ((i : ℕ) → m.video_memory i < 2 ^ 16) → Shows (clear m) empty_terminal
unfolding clear move_cursor
clear_lem m w = record {
  frame = record {
    wide = λ i. ground (arith, fill_blank_lem 2000 0 m.video_memory i, w i);
    cells = λ r k hr hk. ground (arith, fill_blank_lem 2000 0 m.video_memory (r * 80 + k));
  };
  row = refl;
  col = refl;
  row_in = omega arith;
  col_in = omega arith;
}

-- The two bytes of the cursor's place on the screen, as the driver sends them, newest first.
abbrev pub location_writes : Terminal → List (ℕ × ℕ) → List (ℕ × ℕ)
location_writes t before =
    ((t.row * 80 + t.col) % 256, 0x3D5)
    ∷ ((15, 0x3D4) ∷ (((t.row * 80 + t.col) / 256, 0x3D5) ∷ ((14, 0x3D4) ∷ before)))

ports-move_cursor :
    (m : Monitor) (t : Terminal)
    → m.cursor_y ≡ t.row
    → m.cursor_x ≡ t.col
    → t.row < 25
    → t.col < 80
    → (move_cursor m).ports ≡ location_writes t m.ports
unfolding move_cursor cursor_location
ports-move_cursor m t hy hx hr hk = ground arith

ports-settle :
    (c attribute : ℕ) (m : Monitor) → (scroll (wrap_line (put_char c attribute m))).ports ≡ m.ports
unfolding scroll wrap_line put_char
ports-settle c attribute m = ground arith

-- A console that shows a terminal tells the VGA board, on `monitor_put`, the place of the cursor
-- after the character: the high byte of row * 80 + column to register 14, the low byte to 15.
pub put-ports :
    (c : ℕ) (bc fc : MColor) (m : Monitor) (t : Terminal)
    → Shows m t
    → (put c bc fc m).ports ≡ location_writes (feed (attribute_byte bc fc) c t) m.ports
unfolding put move_cursor
put-ports c bc fc m t s =
    let a = attribute_byte bc fc in
    let s' = put_refines c bc fc m t s in
    let m' = scroll (wrap_line (put_char c (a * 2 ^ 8) m)) in
    ports-move_cursor m' (feed a c t) s'.row s'.col s'.row_in s'.col_in
    ∙ ap (location_writes (feed a c t)) (ports-settle c (a * 2 ^ 8) m)

scroll_frame : (m : Monitor) (i : ℕ) → 25 * 80 ≤ i → (scroll m).video_memory i ≡ m.video_memory i
unfolding scroll
scroll_frame m i h = ground (
  arith,
  fill_blank_lem 80 1920 (copy_up 1920 0 m.video_memory) i,
  copy_up_lem 1920 0 m.video_memory i,
)

put_char_frame :
    (c attribute : ℕ) (m : Monitor) (i : ℕ)
    → m.cursor_x < 80
    → m.cursor_y < 25
    → 25 * 80 ≤ i
    → (wrap_line (put_char c attribute m)).video_memory i ≡ m.video_memory i
unfolding wrap_line put_char
put_char_frame c attribute m i hx hy hi = ground arith

-- From a cursor inside the 80 columns and 25 rows, no character makes the console write a cell past
-- the 25 rows of the screen.
pub put_frame :
    (c : ℕ) (bc fc : MColor) (m : Monitor) (i : ℕ)
    → m.cursor_x < 80
    → m.cursor_y < 25
    → 25 * 80 ≤ i
    → (put c bc fc m).video_memory i ≡ m.video_memory i
unfolding put move_cursor
put_frame c bc fc m i hx hy hi =
    let a = attribute_byte bc fc * 2 ^ 8 in
    scroll_frame (wrap_line (put_char c a m)) i hi ∙ put_char_frame c a m i hx hy hi
