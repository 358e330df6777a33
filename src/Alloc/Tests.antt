-- ===== src/Alloc/Tests.antt =====
-- Runs of lib/alloc.c.
use asor.Base.{ℕ, ◌^◌, refl, arith}
use asor.Memory.{Memory}
use asor.Alloc.{total_size, memalign}
use asor.Alloc.Blocks.{IsBlock, memalign_lem}

-- An allocator that always has the block at 0x10008.
abbrev one_block : ℕ → ℕ → Memory → ℕ × Memory
one_block blkalign size words = (65544, words)

abbrev nothing : Memory
nothing a = 0

memalign_example :
    IsBlock 65544 64 100 (total_size (2 ^ 5) 64 100) (memalign one_block (2 ^ 5) 64 100 nothing)
memalign_example =
    memalign_lem one_block 6 5 64 100 nothing refl (omega arith) (omega arith) (omega arith)
      (omega arith) refl (omega arith)
