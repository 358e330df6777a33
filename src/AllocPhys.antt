-- ===== src/AllocPhys.antt =====
-- lib/alloc_phys.c: the allocator of physical memory by the byte, and its log of regions. A failed
-- assertion, or a write behind the log's end, is `none`. The spin lock and the messages are left
-- out. On a 64-bit machine `safe` changes nothing.
mod Tests
pub mod Regions
use asor.Base.{
  ℕ, ◌+◌, ◌-◌, ◌%◌, ◌^◌, bit_and, Bool, true, false, not, ◌&&◌, ◌||◌, Option, none, some, ltb, ◌==◌,
  if◌then◌else◌, ◌>>=◌,
}
use asor.Base.Align.{align_up}
use asor.Memory.{phys_to_virt}

abbrev pub nr_regions_max : ℕ
nr_regions_max = 256

abbrev pub invalid_phys_addr : ℕ
invalid_phys_addr = 2 ^ 64 - 1

pub record PhysAllocRegion : Type 0 where
  pub base : ℕ
  pub size : ℕ

pub record Phys : Type 0 where
  pub base : ℕ
  pub top : ℕ
  pub regions : ℕ → PhysAllocRegion
  pub nr_regions : ℕ
  pub align_min : ℕ
  pub warned : Bool

-- regions[nr_regions] = { base, size }; ++nr_regions
pub log_region : ℕ → ℕ → Phys → Phys
log_region base size s = record s {
  regions = λ i. if i == s.nr_regions then record { base = base; size = size } else s.regions i;
  nr_regions = s.nr_regions + 1;
}

pub phys_alloc_init : ℕ → ℕ → Phys → Phys
phys_alloc_init base_addr size s = record s {
  base = base_addr;
  top = (base_addr + size) % 2 ^ 64;
  nr_regions = 0;
}

is_power : ℕ → Bool
is_power align = not (align == 0) && bit_and align (align - 1) == 0

pub phys_alloc_set_minimum_alignment : ℕ → Phys → Option Phys
phys_alloc_set_minimum_alignment align s =
    if is_power align then some (record s { align_min = align }) else none

pub phys_alloc_aligned_safe : ℕ → ℕ → Phys → Option (ℕ × Phys)
phys_alloc_aligned_safe size_orig align s =
    let addr = align_up s.base align in
    let size = (size_orig + (addr + 2 ^ 64 - s.base) % 2 ^ 64) % 2 ^ 64 in
    let s' = record s { base = (s.base + size) % 2 ^ 64 } in
    if not (ltb s.base s.top)
    then none
    else if ltb (s.top - s.base) size
    then some (invalid_phys_addr, s)
    else if ltb s.nr_regions nr_regions_max
    then some (addr, log_region addr size_orig s')
    else some (addr, record s' { warned = true })

-- The results are *p_base, *p_top and the state.
pub phys_alloc_get_unused : Phys → Option (ℕ × (ℕ × Phys))
phys_alloc_get_unused s =
    if s.base == s.top
    then some (s.base, (s.top, s))
    else if ltb s.nr_regions nr_regions_max
    then some (
      s.base,
      (s.top, record (log_region s.base ((s.top + 2 ^ 64 - s.base) % 2 ^ 64) s) { base = s.top }),
    )
    else none

pub early_memalign : ℕ → ℕ → Phys → Option (ℕ × Phys)
early_memalign alignment size s = if not (is_power alignment) then none else (do
  (addr, s') ← phys_alloc_aligned_safe size alignment s
  if addr == invalid_phys_addr then some (0, s') else some (phys_to_virt addr, s'))
