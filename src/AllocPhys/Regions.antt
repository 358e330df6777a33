-- ===== src/AllocPhys/Regions.antt =====
-- The regions that are handed out are apart, aligned and inside the memory.
use asor.Base.{
  ℕ, ◌+◌, ◌-◌, ◌%◌, ◌^◌, ◌≤◌, ◌<◌, ◌≡◌, refl, ◌⊎◌, inl, inr, true, false, none, some, ltb, ◌==◌,
  if◌then◌else◌, Bool-cases, arith,
}
use asor.Base.Align.{align_up, align_up-bounds}
use asor.AllocPhys.{
  Phys, PhysAllocRegion, log_region, phys_alloc_aligned_safe, phys_alloc_get_unused, nr_regions_max,
  invalid_phys_addr,
}

-- The log of a well-formed state: its regions lie one behind the other, below `base`.
pub record IsLog (s : Phys) : Type 0 where
  pub room : s.nr_regions ≤ nr_regions_max
  pub order : s.base ≤ s.top
  pub top : s.top < 2 ^ 64
  pub below : (i : ℕ) → i < s.nr_regions → (s.regions i).base + (s.regions i).size ≤ s.base
  pub apart :
      (i j : ℕ)
      → i < j
      → j < s.nr_regions
      → (s.regions i).base + (s.regions i).size ≤ (s.regions j).base

-- What is left of a region that is logged.
log_region-IsLog :
    (base size stop : ℕ) (s : Phys)
    → IsLog s
    → s.nr_regions < nr_regions_max
    → s.base ≤ base
    → base + size ≤ stop
    → stop ≤ s.top
    → IsLog (record (log_region base size s) { base = stop })
unfolding log_region
log_region-IsLog base size stop s h n lo hi le = record {
  room = omega (arith, n);
  order = le;
  top = h.top;
  below = λ i lt. below_all i lt;
  apart = λ i j lt lt'. apart_all i j lt lt';
}
  where
    region : ℕ → PhysAllocRegion
    region i = if i == s.nr_regions then record { base = base; size = size } else s.regions i

    below_all : (i : ℕ) → i < s.nr_regions + 1 → (region i).base + (region i).size ≤ stop
    below_all i lt = elim (Bool-cases (i == s.nr_regions)) [
      | inl new ↦ rw new hi
      | inr old ↦ rw old (omega (arith, h.below i (ground arith), lo, hi))
    ]

    apart_all :
        (i j : ℕ)
        → i < j
        → j < s.nr_regions + 1
        → (region i).base + (region i).size ≤ (region j).base
    apart_all i j lt lt' =
        let old_i : (i == s.nr_regions) ≡ false = ground arith in
        elim (Bool-cases (j == s.nr_regions)) [
          | inl new ↦ rw (old_i, new) (omega (arith, h.below i (omega arith), lo))
          | inr old ↦ rw (old_i, old) (h.apart i j lt (ground arith))
        ]

-- What an allocation of `size` bytes does: it hands out memory, or there is none.
abbrev pub Allocates : ℕ → ℕ → Phys → Type 0
Allocates size align s =
    (addr : ℕ) × (s' : Phys) × (phys_alloc_aligned_safe size align s ≡ some (addr, s'))
    × (((addr ≡ invalid_phys_addr) × (s' ≡ s) × (s.top < align_up s.base align + size))
        ⊎ ((s.base ≤ addr)
            × (addr < s.base + align)
            × (addr % align ≡ 0)
            × (addr + size ≤ s.top)
            × (s'.base ≡ addr + size)
            × IsLog s'))

unlogged-IsLog :
    (stop : ℕ) (s : Phys)
    → IsLog s
    → s.base ≤ stop
    → stop ≤ s.top
    → IsLog (record s { base = stop; warned = true })
unlogged-IsLog stop s h lo le = record {
  room = h.room;
  order = le;
  top = h.top;
  below = λ i lt. omega (arith, h.below i lt);
  apart = h.apart;
}

ltb-true : (a b : ℕ) → ltb a b ≡ true → a < b
ltb-true a b h = ground arith

size_eq :
    (size addr base : ℕ)
    → base ≤ addr
    → addr + size < 2 ^ 64
    → (size + (addr + 2 ^ 64 - base) % 2 ^ 64) % 2 ^ 64 ≡ addr - base + size
size_eq size addr base lo h = omega arith

full_eq :
    (size addr base top : ℕ)
    → base ≤ addr
    → base < top
    → (ltb (top - base) (addr - base + size) ≡ true)
    → top < addr + size
full_eq size addr base top lo lt h = ground arith

fits_eq :
    (size addr base top : ℕ)
    → base ≤ addr
    → base < top
    → (ltb (top - base) (addr - base + size) ≡ false)
    → addr + size ≤ top
fits_eq size addr base top lo lt h = ground arith

-- In a well-formed state with free memory, an allocation of any size with a power of two as
-- alignment returns, when neither the rounded base nor the end of the block passes 2^64: it hands
-- out an aligned block behind all logged regions and inside the memory, at the first address that
-- fits, and the log stays well formed; or it says that there is none and changes nothing, exactly
-- because the block would pass the top.
pub phys_alloc_aligned_safe_lem :
    (size k : ℕ) (s : Phys)
    → IsLog s
    → s.base < s.top
    → k < 64
    → s.base + 2 ^ k ≤ 2 ^ 64
    → s.base + 2 ^ k + size ≤ 2 ^ 64
    → Allocates size (2 ^ k) s
unfolding phys_alloc_aligned_safe log_region
phys_alloc_aligned_safe_lem size k s h free hk hb hs =
    let (lo, up, al) = align_up-bounds k s.base hk hb in
    let addr = align_up s.base (2 ^ k) in
    let e = size_eq size addr s.base lo (omega arith) in
    let f : ltb s.base s.top ≡ true = ground arith in
    elim (Bool-cases (ltb (s.top - s.base) (addr - s.base + size))) [
      | inl full ↦ (
        invalid_phys_addr,
        s,
        rw (f, e, full),
        inl (refl, refl, full_eq size addr s.base s.top lo free full),
      )
      | inr fits ↦
          let le = fits_eq size addr s.base s.top lo free fits in
          let e' : (s.base + (addr - s.base + size)) % 2 ^ 64 ≡ addr + size =
            omega (arith, h.top) in
          elim (Bool-cases (ltb s.nr_regions nr_regions_max)) [
            | inl room ↦ (
              addr,
              log_region addr size (record s { base = addr + size }),
              rw (f, e, fits, room, e'),
              inr (
                lo,
                up,
                al,
                le,
                refl,
                log_region-IsLog addr size (addr + size) s h (ltb-true _ _ room) lo (omega arith)
                    le,
              ),
            )
            | inr no_room ↦ (
              addr,
              record s { base = addr + size; warned = true },
              rw (f, e, fits, no_room, e'),
              inr (lo, up, al, le, refl, unlogged-IsLog (addr + size) s h (omega arith) le),
            )
          ]
    ]

-- In a well-formed state `phys_alloc_get_unused` reports what is left, [base, top), takes all of it
-- and keeps the log well formed. When nothing is left, nothing changes; otherwise the new last entry
-- of the log is what was left, its base and its size. Only with memory left and a full log of 256
-- regions is there no result: the entry would lie behind the end of the log.
pub phys_alloc_get_unused_lem :
    (s : Phys)
    → IsLog s
    → ((s' : Phys) × (phys_alloc_get_unused s ≡ some (s.base, (s.top, s')))
        × (s'.base ≡ s.top)
        × (s'.top ≡ s.top)
        × IsLog s'
        × (((s.base ≡ s.top) × (s' ≡ s))
            ⊎ ((s.base < s.top)
                × (s'.regions s.nr_regions ≡ record { base = s.base; size = s.top - s.base })
                × (s'.nr_regions ≡ s.nr_regions + 1))))
      ⊎ ((phys_alloc_get_unused s ≡ none) × (s.base < s.top) × (s.nr_regions ≡ nr_regions_max))
unfolding phys_alloc_get_unused log_region
phys_alloc_get_unused_lem s h = elim (Bool-cases (s.base == s.top)) [
  | inl empty ↦ inl (s, rw empty, ground arith, refl, h, inl (ground arith, refl))
  | inr rest ↦ elim (Bool-cases (ltb s.nr_regions nr_regions_max)) [
    | inl room ↦
        let e = left_eq s.base s.top h.order h.top in
        inl (
          record (log_region s.base (s.top - s.base) s) { base = s.top },
          rw (rest, room, e),
          refl,
          refl,
          log_region-IsLog s.base (s.top - s.base) s.top s h (ltb-true _ _ room) (omega arith)
              (omega (arith, h.order)) (omega arith),
          inr (apart_lt s.base s.top h.order rest, last_logged s.base (s.top - s.base) s, refl),
        )
    | inr full ↦
        inr (rw (rest, full), apart_lt s.base s.top h.order rest, full_log s.nr_regions h.room full)
  ]
]
  where
    left_eq : (a b : ℕ) → a ≤ b → b < 2 ^ 64 → (b + 2 ^ 64 - a) % 2 ^ 64 ≡ b - a
    left_eq a b le lt = ground arith

    last_logged :
        (b z : ℕ) (s : Phys)
        → (log_region b z s).regions s.nr_regions ≡ record { base = b; size = z }
    last_logged b z s =
        let self : (s.nr_regions == s.nr_regions) ≡ true = ground arith in rw self refl

    apart_lt : (a b : ℕ) → a ≤ b → (a == b) ≡ false → a < b
    apart_lt a b le ne = ground arith

    full_log : (n : ℕ) → n ≤ nr_regions_max → ltb n nr_regions_max ≡ false → n ≡ nr_regions_max
    full_log n le f = ground arith
