-- ===== src/Memory.antt =====
-- The machine's memory as the page allocator and the paging code use it: 64-bit words at addresses
-- that are multiples of 8. `virt_to_phys` and `phys_to_virt` (lib/x86/asm/io.h) are the identity.
use asor.Base.{ℕ, ◌+◌, ◌^◌, ◌&&◌, ltb, leb, ◌==◌, if◌then◌else◌}

abbrev pub Memory : Type 0
Memory = ℕ → ℕ

abbrev pub page_size : ℕ
page_size = 2 ^ 12

abbrev pub virt_to_phys : ℕ → ℕ
virt_to_phys virt = virt

abbrev pub phys_to_virt : ℕ → ℕ
phys_to_virt phys = phys

-- *a = v
abbrev pub write_word : ℕ → ℕ → Memory → Memory
write_word a v mem b = if a == b then v else mem b

-- memset(p, 0, PAGE_SIZE)
abbrev pub zero_page : ℕ → Memory → Memory
zero_page p mem b = if leb p b && ltb b (p + page_size) then 0 else mem b
