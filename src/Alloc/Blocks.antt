-- ===== src/Alloc/Blocks.antt =====
-- A block that `memalign` gives out lies inside what it asked for, and `free` finds that again.
use native.Mathlib.Nat.{one-le-pow}
use asor.Base.{ℕ, ◌+◌, ◌-◌, ◌%◌, ◌^◌, ◌≤◌, ◌<◌, ◌≡◌, inl, inr, max, leb, Bool-cases, arith}
use asor.Base.Align.{align_up, align_up-bounds}
use asor.Memory.{Memory, write_word}
use asor.Alloc.{block_begin, block_size, word_align, padded, total_size, finish, memalign}

-- The block that `memalign` gives out, behind the one at `p` that it got.
pub record IsBlock (p alignment size total : ℕ) (r : ℕ × Memory) : Type 0 where
  aligned : r.0 % word_align alignment ≡ 0
  above : p + 16 ≤ r.0
  inside : r.0 + size ≤ p + total
  begin : block_begin r.0 r.1 ≡ p
  whole : block_size r.0 r.1 ≡ total

-- The two words in front of a block.
metadata :
    (p mem size : ℕ) (words : Memory)
    → p + 16 ≤ mem
    → (block_begin mem (write_word (mem - 8) size (write_word (mem - 16) (mem - p) words)) ≡ p)
      × (block_size mem (write_word (mem - 8) size (write_word (mem - 16) (mem - p) words)) ≡ size)
unfolding block_begin block_size
metadata p mem size words h = (ground arith, ground arith)

-- Whether the alignment is at most a word's or not, the block fits.
fits :
    (p alignment size mem total : ℕ)
    → p % 8 ≡ 0
    → mem < p + 16 + word_align alignment
    → p + 16 ≤ mem
    → mem % word_align alignment ≡ 0
    → padded alignment size + 16 ≤ total
    → size + alignment < 2 ^ 64
    → mem + size ≤ p + total
fits p alignment size mem total hp up lo al ht hs = elim (Bool-cases (leb alignment 8)) [
  | inl small ↦
      let u : mem < p + 16 + 8 = rw small at up in
      let a : mem % 8 ≡ 0 = rw small at al in
      let t : size + 16 ≤ total = rw small at ht in omega arith
  | inr large ↦
      let u : mem < p + 16 + alignment = rw large at up in
      let t : (size + alignment - 1) % 2 ^ 64 + 16 ≤ total = rw large at ht in
      let b : 8 < alignment = ground arith in omega arith
]

finish_lem :
    (p k j alignment size : ℕ) (words : Memory)
    → word_align alignment ≡ 2 ^ k
    → k < 64
    → j < 64
    → padded alignment size + 16 + 2 ^ j ≤ 2 ^ 64
    → size + alignment < 2 ^ 64
    → p % 8 ≡ 0
    → p + 16 + 2 ^ k ≤ 2 ^ 64
    → IsBlock p alignment size
        (total_size (2 ^ j) alignment size)
        (finish p alignment (total_size (2 ^ j) alignment size) words)
unfolding finish total_size
finish_lem p k j alignment size words ha hk hj hs hs' hp hp' =
    let w = word_align alignment in
    let pos = one-le-pow k 2 (omega arith) in
    let pos' = one-le-pow j 2 (omega arith) in
    let e : (p + 16) % 2 ^ 64 ≡ p + 16 = omega (arith, pos) in
    let e' : (padded alignment size + 16) % 2 ^ 64 ≡ padded alignment size + 16 =
      omega (arith, pos') in
    let (lo, up, al) = align_up-bounds k (p + 16) hk hp' in
    let (lo', up', al') = align_up-bounds j (padded alignment size + 16) hj hs in
    let (begin, whole) =
      metadata p (align_up (p + 16) (2 ^ k)) (align_up (padded alignment size + 16) (2 ^ j)) words
        lo in
    rw (e, e', ha)
      (record {
        aligned = rw ha al;
        above = lo;
        inside = fits p alignment size _ _ hp (rw ha up) lo (rw ha al) lo' hs';
        begin = begin;
        whole = whole;
      })

-- When the allocator below returns a block at an address that is a multiple of 8 and nothing passes
-- 2^64, then for alignments that are powers of two `memalign` gives out an aligned address, with
-- two words of metadata in front of it and `size` bytes inside the block that it got, and `free`
-- finds the start and the size of that block again.
pub memalign_lem :
    (ops_memalign : ℕ → ℕ → Memory → ℕ × Memory) (k j alignment size : ℕ) (words : Memory)
    → word_align alignment ≡ 2 ^ k
    → k < 64
    → j < 64
    → padded alignment size + 16 + 2 ^ j ≤ 2 ^ 64
    → size + alignment < 2 ^ 64
    → (ops_memalign
          (max (word_align alignment) (2 ^ j))
          (total_size (2 ^ j) alignment size)
          words).0
        % 8
      ≡ 0
    → (ops_memalign
          (max (word_align alignment) (2 ^ j))
          (total_size (2 ^ j) alignment size)
          words).0
        + 16
        + 2 ^ k
      ≤ 2 ^ 64
    → IsBlock
        ((ops_memalign
          (max (word_align alignment) (2 ^ j))
          (total_size (2 ^ j) alignment size)
          words).0)
        alignment
        size
        (total_size (2 ^ j) alignment size)
        (memalign ops_memalign (2 ^ j) alignment size words)
unfolding memalign finish
memalign_lem ops_memalign k j alignment size words ha hk hj hs hs' hp hp' =
    let got =
      ops_memalign (max (word_align alignment) (2 ^ j)) (total_size (2 ^ j) alignment size) words in
    finish_lem got.0 k j alignment size got.1 ha hk hj hs hs' hp hp'
