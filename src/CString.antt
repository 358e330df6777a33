-- ===== src/CString.antt =====
-- lib/string.c: the functions on blocks of bytes. The memory is a function from addresses to bytes,
-- and a block does not reach past the end of the address space.
mod Tests
pub mod Blocks
pub mod Strings
use asor.Base.{ℕ, zero, suc, ◌+◌, ◌-◌, ◌%◌, ◌^◌, Bool, not, leb, ◌==◌, if◌then◌else◌}

abbrev pub Bytes : Type 0
Bytes = ℕ → ℕ

-- *p = c
abbrev pub store_byte : ℕ → ℕ → Bytes → Bytes
store_byte p c mem a = if a == p then c else mem a

-- for (i = i; rounds are left; ++i) a[i] = c;
pub memset_loop : ℕ → ℕ → ℕ → ℕ → Bytes → Bytes
memset_loop zero i s c mem = mem
memset_loop (suc rounds) i s c mem = memset_loop rounds (i + 1) s c (store_byte (s + i) c mem)

-- The value of `c` as a `char`.
pub memset : ℕ → ℕ → ℕ → Bytes → Bytes
memset s c n mem = memset_loop n 0 s (c % 2 ^ 8) mem

-- for (i = i; rounds are left; ++i) a[i] = b[i];
pub memcpy_loop : ℕ → ℕ → ℕ → ℕ → Bytes → Bytes
memcpy_loop zero i dest src mem = mem
memcpy_loop (suc rounds) i dest src mem =
    memcpy_loop rounds (i + 1) dest src (store_byte (dest + i) (mem (src + i)) mem)

pub memcpy : ℕ → ℕ → ℕ → Bytes → Bytes
memcpy dest src n mem = memcpy_loop n 0 dest src mem

-- while (n--) *d++ = *s++;
unfoldable pub copy_up : ℕ → ℕ → ℕ → Bytes → Bytes
copy_up zero d s mem = mem
copy_up (suc n) d s mem = copy_up n (d + 1) (s + 1) (store_byte d (mem s) mem)

-- while (n--) *--d = *--s;
pub copy_down : ℕ → ℕ → ℕ → Bytes → Bytes
copy_down zero d s mem = mem
copy_down (suc n) d s mem = copy_down n (d - 1) (s - 1) (store_byte (d - 1) (mem (s - 1)) mem)

pub memmove : ℕ → ℕ → ℕ → Bytes → Bytes
memmove dest src n mem =
    if leb dest src then copy_up n dest src mem else copy_down n (dest + n) (src + n) mem

-- The result is an `int` in two's complement.
unfoldable pub memcmp : ℕ → ℕ → ℕ → Bytes → ℕ
memcmp zero s1 s2 mem = 0
memcmp (suc n) s1 s2 mem =
    let ret = (mem s1 + 2 ^ 32 - mem s2) % 2 ^ 32 in
    let rest = memcmp n (s1 + 1) (s2 + 1) mem in if not (ret == 0) then ret else rest
