-- ===== src/VmAlloc/Tests.antt =====
-- Runs of lib/vmalloc.c.
use asor.Base.{
  ℕ, suc, ◌+◌, ◌-◌, ◌*◌, ◌^◌, ◌≤◌, ◌≡◌, refl, false, none, some, List, [], length, ltb, leb, ◌&&◌,
  if◌then◌else◌, arith,
}
use asor.Memory.{page_size, zero_page}
use asor.PageAlloc.{Pages}
use asor.AllocPhys.{Phys}
use asor.AllocPhys.Regions.{IsLog}
use asor.Ept.Access.{access, rights}
use asor.Ept.Walk.{translate}
use asor.Ept.Tables.{Owner}
use asor.Ept.Identity.{ident}
use asor.Paging.Range.{directory_room}
use asor.SetupEpt.Root.{root_at, root-IsMapped, root-AllAllow, root_owner_at, translate-root}
use asor.SetupEpt.Line.{linked, free_run, free_run-Spare, length-free_run, linked-IsFree}
use asor.Paging.Setup.{Running, mapped_end, root-Fresh}
use asor.VmAlloc.{Vm, early_alloc_ops, vmalloc_ops, setup_vm, vmap}
use asor.VmAlloc.Setup.{HasPages, setup_vm_lem}
use asor.VmAlloc.Frames.{frame, vmap_lem}

-- 64 MB of memory, of which the program takes the first 2 MB and some bytes.
abbrev phys : Phys
phys = record {
  base = 2 ^ 21 + 100;
  top = 2 ^ 26;
  regions = λ i. record { base = 0; size = 0 };
  nr_regions = 0;
  align_min = 32;
  warned = false;
}

abbrev boot : Vm
boot = record {
  phys = phys;
  mmu = record {
    pages = record { mem = λ a. 0; freelist = 0 };
    cr0 = 0x11;
    cr3 = 0;
    cr4 = 0x20;
    printed = [];
  };
  vfree_top = 0;
  page_root = 0;
  alloc_ops = early_alloc_ops;
}

phys-IsLog : IsLog phys
phys-IsLog = record {
  room = omega arith;
  order = omega arith;
  top = omega arith;
  below = λ i lt. absurd (omega arith);
  apart = λ i j lt h. absurd (omega arith);
}

phys-HasPages : HasPages phys.base phys.top (2 ^ 21 + 4096) 15870
phys-HasPages = record {
  aligned = refl;
  lo = omega arith;
  first = omega arith;
  hi = omega arith;
  last = omega arith;
  null = omega arith;
  top_fits = omega arith;
}

setup_vm_example :
    (vm' : Vm) × (owner : Owner) × (xs : List ℕ) × (setup_vm (2 ^ 21) boot ≡ some vm')
    × (vm'.phys.base ≡ 2 ^ 26)
    × IsLog vm'.phys
    × (vm'.alloc_ops ≡ vmalloc_ops)
    × (vm'.page_root ≡ 2 ^ 21 + 4096)
    × Running
        (2 ^ 21 + 4096)
        (mapped_end (2 ^ 21 + 4096 + suc 15870 * page_size))
        boot.mmu
        vm'.mmu
        owner
        xs
    × (15870 ≤ length xs + directory_room (mapped_end (2 ^ 21 + 4096 + suc 15870 * page_size)))
    × (translate 3 vm'.mmu.pages.mem (2 ^ 21 + 4096) 0xb8000 ≡ (
        if ltb 0xb8000 (mapped_end (2 ^ 21 + 4096 + suc 15870 * page_size))
        then some (ident 7 0xb8000)
        else none))
    × (access 3 vm'.mmu.pages.mem (2 ^ 21 + 4096) 0xb8000
        ≡ (if ltb 0xb8000 (mapped_end (2 ^ 21 + 4096 + suc 15870 * page_size)) then 7 else 0))
setup_vm_example =
    setup_vm_lem (2 ^ 21) (2 ^ 21 + 4096) 15870 0xb8000 boot refl phys-IsLog (omega arith) refl
      phys-HasPages (omega arith) (omega arith) (omega arith)

-- An empty root at 4096 with free pages behind it.
abbrev few : Pages
few = record { mem = linked (4096 * 8); freelist = 4096 }

abbrev mapped : Vm
mapped = record boot {
  mmu = record boot.mmu {
    pages = record { mem = zero_page 4096 few.mem; freelist = few.mem 4096 };
  };
  page_root = 4096;
  alloc_ops = vmalloc_ops;
}

-- Two frames at the end of the address space.
vmap_example :
    (vm' : Vm) × (vmap 0xfee00010 5000 mapped ≡ (2 ^ 64 - 2 * 4096, vm'))
    × (vm'.vfree_top ≡ 2 ^ 64 - 2 * 4096)
    × (translate 3 vm'.mmu.pages.mem 4096 (2 ^ 48 - 4096) ≡ (
        if leb (2 ^ 48 - 2 * 4096) (2 ^ 48 - 4096)
          && ltb (2 ^ 48 - 4096) (2 ^ 48 - 2 * 4096 + 2 * page_size)
        then some (frame 0xfee00000 (2 ^ 48 - 2 * 4096) (2 ^ 48 - 4096))
        else translate 3 mapped.mmu.pages.mem 4096 (2 ^ 48 - 4096)))
    × (access 3 vm'.mmu.pages.mem 4096 (2 ^ 48 - 4096)
        ≡ rights (translate 3 vm'.mmu.pages.mem 4096 (2 ^ 48 - 4096)))
vmap_example =
    vmap_lem 0xfee00010 5000 2 (2 ^ 48 - 2 * 4096) (2 ^ 48 - 4096) mapped (root_at 4096)
      (free_run 8192 7) (omega arith) (omega arith) (omega arith) refl refl (omega arith)
      (omega arith) (omega (arith, length-free_run 7 8192))
      (root-IsMapped few 4096 (free_run 8192 7) (linked-IsFree 7 4096 (4096 * 8) (omega arith) refl)
        (refl, refl, omega arith, free_run-Spare 7 8192 refl (omega arith)))
      ((root-Fresh 4096 few).plain) (root-AllAllow 7 4096 few.mem) (root_owner_at 4096)
      (λ a lo hi. translate-root 4096 a few.mem) (omega arith)
