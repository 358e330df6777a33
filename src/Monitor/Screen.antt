-- ===== src/Monitor/Screen.antt =====
-- The framebuffer of the console shows the terminal that the characters describe: scrolling, one
-- character, and a whole string.
use asor.Base.{
  ℕ, zero, suc, ◌+◌, ◌*◌, ◌%◌, ◌^◌, ◌<◌, ◌≡◌, ap, inl, inr, ◌∙◌, ◌&&◌, ltb, leb, if◌then◌else◌,
  Bool-cases, arith,
}
use asor.Monitor.{Monitor, store_cell, copy_up, fill_blank, blank, scroll}
use asor.Monitor.Terminal.{Terminal, line_feed, empty_cell}

pub copy_up_lem :
    (n i : ℕ) (vm : ℕ → ℕ) (j : ℕ)
    → copy_up n i vm j ≡ (if leb i j && ltb j (i + n) then vm (j + 80) % 2 ^ 16 else vm j)
unfolding copy_up
copy_up_lem zero i vm j = ground arith
copy_up_lem (suc n) i vm j = copy_up_lem n (i + 1) (store_cell i (vm (i + 80)) vm) j ∙ ground arith

pub fill_blank_lem :
    (n i : ℕ) (vm : ℕ → ℕ) (j : ℕ)
    → fill_blank n i vm j ≡ (if leb i j && ltb j (i + n) then blank else vm j)
unfolding fill_blank
fill_blank_lem zero i vm j = ground arith
fill_blank_lem (suc n) i vm j = fill_blank_lem n (i + 1) (store_cell i blank vm) j ∙ ground arith

-- The framebuffer, of 16-bit cells, holds the cells of the terminal.
pub record Cells (m : Monitor) (t : Terminal) : Type 0 where
  pub wide : (i : ℕ) → m.video_memory i < 2 ^ 16
  pub cells : (r k : ℕ) → r < 25 → k < 80 → m.video_memory (r * 80 + k) ≡ t.cell r k

-- The console shows the terminal, with the cursor on the screen.
pub record Shows (m : Monitor) (t : Terminal) : Type 0 where
  pub frame : Cells m t
  pub row : m.cursor_y ≡ t.row
  pub col : m.cursor_x ≡ t.col
  pub row_in : t.row < 25
  pub col_in : t.col < 80

-- The framebuffer after the two loops of `scroll`.
scrolled :
    (vm : ℕ → ℕ) (r k : ℕ)
    → ((i : ℕ) → vm i < 2 ^ 16)
    → r < 25
    → k < 80
    → fill_blank 80 (24 * 80) (copy_up (24 * 80) 0 vm) (r * 80 + k)
      ≡ (if ltb r 24 then vm ((r + 1) * 80 + k) else empty_cell)
scrolled vm r k w hr hk = ground (
  arith,
  fill_blank_lem 80 1920 (copy_up 1920 0 vm) (r * 80 + k),
  copy_up_lem 1920 0 vm (r * 80 + k),
  next,
  w ((r + 1) * 80 + k),
)
  where
    next : vm (r * 80 + k + 80) ≡ vm ((r + 1) * 80 + k)
    next = ap vm (omega arith)

scrolled_wide :
    (vm : ℕ → ℕ) (i : ℕ)
    → ((j : ℕ) → vm j < 2 ^ 16)
    → fill_blank 80 (24 * 80) (copy_up (24 * 80) 0 vm) i < 2 ^ 16
scrolled_wide vm i w =
    ground (arith, fill_blank_lem 80 1920 (copy_up 1920 0 vm) i, copy_up_lem 1920 0 vm i, w i)

pub scroll_below : (m : Monitor) → m.cursor_y < 25 → scroll m ≡ m
unfolding scroll
scroll_below m h = ground arith

pub scroll-line_feed :
    (m : Monitor) (t : Terminal)
    → Cells m t
    → m.cursor_x ≡ 0
    → m.cursor_y ≡ t.row + 1
    → t.row < 25
    → Shows (scroll m) (line_feed t)
unfolding scroll line_feed
scroll-line_feed m t c hx hy hr = elim (Bool-cases (leb 25 m.cursor_y)) [
  | inl up ↦ record {
    frame = record {
      wide = λ i. ground (arith, scrolled_wide m.video_memory i c.wide);
      cells = λ r k hr' hk'.
          ground (arith, scrolled m.video_memory r k c.wide hr' hk', c.cells (r + 1) k);
    };
    row = ground arith;
    col = ground arith;
    row_in = ground arith;
    col_in = ground arith;
  }
  | inr stay ↦ record {
    frame = record {
      wide = λ i. ground (arith, c.wide i);
      cells = λ r k hr' hk'. ground (arith, c.cells r k);
    };
    row = ground arith;
    col = ground arith;
    row_in = ground arith;
    col_in = ground arith;
  }
]
