-- ===== src/Monitor/Terminal.antt =====
-- What the console promises: a terminal of 25 rows of 80 cells with a cursor. It knows nothing of
-- indices into the framebuffer, wrap-around or the VGA ports.
use asor.Base.{ℕ, ◌+◌, ◌-◌, ◌*◌, ◌/◌, ◌&&◌, List, [], ◌∷◌, ltb, leb, ◌==◌, if◌then◌else◌}

pub record Terminal : Type 0 where
  -- row, then column
  pub cell : ℕ → ℕ → ℕ
  pub row : ℕ
  pub col : ℕ

-- A white space on black.
abbrev pub empty_cell : ℕ
empty_cell = 0x0f20

-- To the start of the next row; below the last row all rows move up and the last becomes empty.
unfoldable pub line_feed : Terminal → Terminal
line_feed t = if ltb (t.row + 1) 25 then record t { row = t.row + 1; col = 0 } else (record {
  cell = λ r k. if ltb r 24 then t.cell (r + 1) k else empty_cell;
  row = 24;
  col = 0;
})

unfoldable pub go_to : ℕ → Terminal → Terminal
go_to k t = if ltb k 80 then record t { col = k } else line_feed t

unfoldable pub place : ℕ → Terminal → Terminal
place v t = record t { cell = λ r k. if r == t.row && k == t.col then v else t.cell r k }

-- A character with the attribute byte `a`.
unfoldable pub feed : ℕ → ℕ → Terminal → Terminal
feed a c t =
    if c == 8
    then record t { col = t.col - 1 }
    else if c == 9
    then go_to (t.col / 8 * 8 + 8) t
    else if c == b'\r'
    then record t { col = 0 }
    else if c == b'\n'
    then line_feed t
    else if leb 32 c && ltb c 128
    then go_to (t.col + 1) (place (c + 256 * a) t)
    else t

unfoldable pub feed_all : ℕ → List ℕ → Terminal → Terminal
feed_all a [] t = t
feed_all a (c ∷ s) t = feed_all a s (feed a c t)
