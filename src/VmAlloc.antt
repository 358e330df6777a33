-- ===== src/VmAlloc.antt =====
-- lib/vmalloc.c: the allocator of virtual addresses, with the physical memory and the page tables
-- below it. Virtual addresses are given out downwards from `vfree_top`. The spin lock is left out,
-- since one processor runs the code; a failed assertion is `none`.
pub mod Setup
pub mod Frames
mod Tests
use asor.Base.{
  ℕ, zero, suc, ◌+◌, ◌-◌, ◌*◌, ◌/◌, ◌%◌, ◌^◌, bit_and, Bool, true, false, not, ◌&&◌, Option, none,
  some, leb, ◌==◌, if◌then◌else◌, ◌>>=◌,
}
use asor.Memory.{page_size, virt_to_phys, phys_to_virt}
use asor.PageAlloc.{Pages, page_alloc_initialized, free_pages, alloc_page, free_page}
use asor.AllocPhys.{Phys, phys_alloc_get_unused}
use asor.Paging.{Mmu, inv64, install_page, setup_mmu, virt_to_pte_phys}

-- What `alloc_ops` points to.
pub data AllocOps : Type 0 where
  early_alloc_ops page_alloc_ops vmalloc_ops : AllocOps

pub record Vm : Type 0 where
  pub phys : Phys
  pub mmu : Mmu
  pub vfree_top : ℕ
  pub page_root : ℕ
  pub alloc_ops : AllocOps

pub alloc_vpages : ℕ → Vm → ℕ × Vm
alloc_vpages nr vm =
    let top = (vm.vfree_top + 2 ^ 64 - page_size * nr % 2 ^ 64) % 2 ^ 64 in
    (top, record vm { vfree_top = top })

unfoldable pub alloc_vpage : Vm → ℕ × Vm
alloc_vpage = alloc_vpages 1

unfoldable pub init_alloc_vpage : ℕ → Vm → Vm
init_alloc_vpage top vm = record vm { vfree_top = top }

-- x & ~(PAGE_SIZE - 1)
abbrev pub page_floor : ℕ → ℕ
page_floor x = bit_and x (inv64 (page_size - 1))

-- The number of pages of a size, which is an `unsigned`.
abbrev pub page_count : ℕ → ℕ
page_count size = page_floor ((size + (page_size - 1)) % 2 ^ 64) / page_size % 2 ^ 32

abbrev with_pages : Pages → Vm → Vm
with_pages pages vm = record vm { mmu = record vm.mmu { pages = pages } }

-- while (pages--) { install_page(page_root, phys, p); phys += PAGE_SIZE; p += PAGE_SIZE; }
pub map_frames : ℕ → ℕ → ℕ → ℕ → Pages → Pages
map_frames zero page_root phys p s = s
map_frames (suc pages) page_root phys p s =
    map_frames pages page_root ((phys + page_size) % 2 ^ 64) ((p + page_size) % 2 ^ 64)
      (install_page page_root phys p s).1

pub vmap : ℕ → ℕ → Vm → ℕ × Vm
vmap phys size vm =
    let (mem, vm1) = alloc_vpages (page_count size) vm in
    (
      mem,
      with_pages (map_frames (page_count size) vm1.page_root (page_floor phys) mem vm1.mmu.pages)
          vm1,
    )

-- while (pages--) { pa = virt_to_phys(alloc_page()); install_page(page_root, pa, p); p += PAGE_SIZE; }
unfoldable pub alloc_frames : ℕ → ℕ → ℕ → Pages → Pages
alloc_frames zero page_root p s = s
alloc_frames (suc pages) page_root p s =
    let (page, s1) = alloc_page s in
    alloc_frames pages page_root ((p + page_size) % 2 ^ 64)
      (install_page page_root (virt_to_phys page) p s1).1

unfoldable pub vm_memalign : ℕ → ℕ → Vm → Option (ℕ × Vm)
vm_memalign alignment size vm =
    if not (leb alignment page_size)
    then none
    else (let (mem, vm1) = alloc_vpages (page_count size) vm in
        some (mem, with_pages (alloc_frames (page_count size) vm1.page_root mem vm1.mmu.pages) vm1))

-- while (size) { ... } on fuel.
unfoldable pub free_frames : ℕ → ℕ → ℕ → ℕ → Pages → Option Pages
free_frames zero page_root mem size s = none
free_frames (suc fuel) page_root mem size s =
    let freed = (do
      pa ← virt_to_pte_phys page_root mem s.mem
      free_frames fuel page_root ((mem + page_size) % 2 ^ 64) ((size + 2 ^ 64 - page_size) % 2 ^ 64)
          (free_page (phys_to_virt pa) s)) in
    if size == 0 then some s else freed

unfoldable pub vm_free : ℕ → ℕ → ℕ → Vm → Option Vm
vm_free fuel mem size vm = do
  s ← free_frames fuel vm.page_root mem size vm.mmu.pages
  some (with_pages s vm)

-- The whole pages between `base` and `top` go to the page allocator; the first result is `top`.
pub give_pages : ℕ → ℕ → Pages → Option (ℕ × Pages)
give_pages base top s =
    let base' = page_floor ((base + (page_size - 1)) % 2 ^ 64) in
    let top' = page_floor top in
    do s1 ← free_pages (phys_to_virt base') ((top' + 2 ^ 64 - base') % 2 ^ 64) s; some (top', s1)

abbrev pub is_vmalloc : AllocOps → Bool
is_vmalloc vmalloc_ops = true
is_vmalloc early_alloc_ops = false
is_vmalloc page_alloc_ops = false

-- `fuel` is for the loops of `setup_mmu`.
pub setup_vm : ℕ → Vm → Option Vm
setup_vm fuel vm =
    let set_up = (do
      (base, (top, phys)) ← phys_alloc_get_unused vm.phys
      (top', pages) ←
          if base == top && not (page_alloc_initialized vm.mmu.pages)
          then none
          else if not (page_alloc_initialized vm.mmu.pages)
          then give_pages base top vm.mmu.pages
          else some (top, vm.mmu.pages)
      (root, mmu) ← setup_mmu fuel top' (record vm.mmu { pages = pages })
      some (record vm { phys = phys; mmu = mmu; page_root = root; alloc_ops = vmalloc_ops })) in
    if is_vmalloc vm.alloc_ops then some vm else set_up
