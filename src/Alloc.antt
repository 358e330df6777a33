-- ===== src/Alloc.antt =====
-- lib/alloc.c: memory blocks with their metadata, on top of the operations of another allocator.
-- `memalign` of these operations is a parameter, with `align_min`; both are there.
mod Tests
pub mod Blocks
use asor.Base.{ℕ, ◌+◌, ◌-◌, ◌%◌, ◌^◌, max, leb, if◌then◌else◌}
use asor.Base.Align.{align_up}
use asor.Memory.{Memory, write_word}

abbrev pub metadata_extra : ℕ
metadata_extra = 16

pub block_begin : ℕ → Memory → ℕ
block_begin mem words = mem - words (mem - 16)

pub block_size : ℕ → Memory → ℕ
block_size mem words = words (mem - 8)

-- The alignment and the size of the request, as the first test changes them.
abbrev pub word_align : ℕ → ℕ
word_align alignment = if leb alignment 8 then 8 else alignment

abbrev pub padded : ℕ → ℕ → ℕ
padded alignment size = if leb alignment 8 then size else (size + alignment - 1) % 2 ^ 64

-- The size that is asked for.
pub total_size : ℕ → ℕ → ℕ → ℕ
total_size align_min alignment size =
    align_up ((padded alignment size + metadata_extra) % 2 ^ 64) align_min

-- The metadata of the block at `p`, and what is given out.
pub finish : ℕ → ℕ → ℕ → Memory → ℕ × Memory
finish p alignment size words =
    let mem = align_up ((p + metadata_extra) % 2 ^ 64) (word_align alignment) in
    (mem, write_word (mem - 8) size (write_word (mem - 16) (mem - p) words))

pub memalign : (ℕ → ℕ → Memory → ℕ × Memory) → ℕ → ℕ → ℕ → Memory → ℕ × Memory
memalign ops_memalign align_min alignment size words =
    let blkalign = max (word_align alignment) align_min in
    let (p, words') = ops_memalign blkalign (total_size align_min alignment size) words in
    finish p alignment (total_size align_min alignment size) words'

pub malloc : (ℕ → ℕ → Memory → ℕ × Memory) → ℕ → ℕ → Memory → ℕ × Memory
malloc ops_memalign align_min size words = memalign ops_memalign align_min 8 size words
