-- ===== src/AllocPhys/Tests.antt =====
-- Runs of lib/alloc_phys.c.
use asor.Base.{◌^◌, ◌<◌, ◌≡◌, ◌⊎◌, false, none, some, arith, ◌-◌, ◌+◌}
use asor.AllocPhys.{Phys, phys_alloc_get_unused, nr_regions_max}
use asor.AllocPhys.Regions.{
  IsLog, Allocates, phys_alloc_aligned_safe_lem, phys_alloc_get_unused_lem,
}

-- The memory from 1 MB and 12 bytes to 4 MB, of which nothing is used.
abbrev fresh : Phys
fresh = record {
  base = 1048588;
  top = 4194304;
  regions = λ i. record { base = 0; size = 0 };
  nr_regions = 0;
  align_min = 32;
  warned = false;
}

fresh-IsLog : IsLog fresh
fresh-IsLog = record {
  room = omega arith;
  order = omega arith;
  top = omega arith;
  below = λ i lt. omega arith;
  apart = λ i j lt lt'. omega arith;
}

phys_alloc_example : Allocates 100 (2 ^ 12) fresh
phys_alloc_example =
    phys_alloc_aligned_safe_lem 100 12 fresh fresh-IsLog (omega arith) (omega arith) (omega arith)
      (omega arith)

phys_alloc_get_unused_example :
    ((s' : Phys) × (phys_alloc_get_unused fresh ≡ some (fresh.base, (fresh.top, s')))
      × (s'.base ≡ fresh.top)
      × (s'.top ≡ fresh.top)
      × IsLog s'
      × (((fresh.base ≡ fresh.top) × (s' ≡ fresh))
          ⊎ ((fresh.base < fresh.top)
              × (s'.regions fresh.nr_regions
                  ≡ record { base = fresh.base; size = fresh.top - fresh.base })
              × (s'.nr_regions ≡ fresh.nr_regions + 1))))
    ⊎ ((phys_alloc_get_unused fresh ≡ none)
        × (fresh.base < fresh.top)
        × (fresh.nr_regions ≡ nr_regions_max))
phys_alloc_get_unused_example = phys_alloc_get_unused_lem fresh fresh-IsLog
