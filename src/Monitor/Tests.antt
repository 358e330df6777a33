-- ===== src/Monitor/Tests.antt =====
-- Runs of driver/monitor.c.
use asor.Base.{ℕ, ◌≡◌, ◌≢◌, refl, none, some, List, [], ◌∷◌, ◌++◌, replicate, NonZero, arith}
use asor.Monitor.{
  black, white, Monitor, attribute_byte, put, clear, write_color, write_hex, write_dec,
}
use asor.Monitor.Terminal.{feed, feed_all}
use asor.Monitor.Screen.{Shows}
use asor.Monitor.Put.{put_refines, write_color_refines}
use asor.Monitor.Numbers.{value, IsDigits, IsCanonical, write_hex_lem}
use asor.Monitor.Decimal.{write_dec_lem}
use asor.Monitor.Cursor.{empty_terminal, clear_lem, put_frame}

-- What the memory holds at first.
abbrev start : Monitor
start = record { video_memory = λ i. 0; cursor_x = 7; cursor_y = 3; ports = [] }

abbrev console : Monitor
console = clear start

Shows-empty : Shows (clear start) empty_terminal
Shows-empty = clear_lem start λ i. omega arith

put_example :
    Shows (put b'A' black white console) (feed (attribute_byte black white) b'A' empty_terminal)
put_example = put_refines b'A' black white console empty_terminal Shows-empty

write_color_example :
    (m' : Monitor) × (write_color ((b'O' ∷ b'k' ∷ []) ++ (0 ∷ b'!' ∷ [])) black white console
      ≡ some m')
    × Shows m' (feed_all (attribute_byte black white) (b'O' ∷ b'k' ∷ []) empty_terminal)
write_color_example =
    write_color_refines (b'O' ∷ b'k' ∷ []) (b'!' ∷ []) black white console empty_terminal
      Shows-empty (ground arith, (ground arith, tt))

write_hex_example :
    (s : List ℕ) × (write_hex 48879 black white console
      ≡ write_color (b'0' ∷ b'x' ∷ (s ++ (0 ∷ []))) black white console)
    × (value 16 0 s ≡ 48879)
    × IsDigits 16 s
    × IsCanonical s
    × NonZero s
write_hex_example = write_hex_lem 48879 black white console (omega arith)

write_dec_example :
    (s : List ℕ) × (write_dec 4294967295 (replicate 32 1) (replicate 32 2) black white console
      ≡ write_color (s ++ (0 ∷ [])) black white console)
    × (value 10 0 s ≡ 4294967295)
    × IsDigits 10 s
    × IsCanonical s
    × NonZero s
    × (write_dec 4294967295 (replicate 32 1) (replicate 32 2) black white console ≢ none)
write_dec_example =
    write_dec_lem 4294967295 (replicate 32 1) (replicate 32 2) black white console (omega arith)
      refl refl

put_frame_example : (put b'A' black white start).video_memory 2000 ≡ start.video_memory 2000
put_frame_example = put_frame b'A' black white start 2000 (omega arith) (omega arith) (omega arith)
