-- ===== src/VmAlloc/Setup.antt =====
-- `setup_vm`: the memory that is left goes to the page allocator, and paging is switched on.
use asor.Base.{
  ℕ, zero, suc, ◌+◌, ◌-◌, ◌*◌, ◌/◌, ◌%◌, ◌^◌, ◌≤◌, ◌<◌, ◌≡◌, ◌≢◌, refl, ◌∙◌, inl, inr, true, false,
  none, some, List, [], ◌++◌, length, ltb, ◌==◌, if◌then◌else◌, arith,
}
use asor.Base.Bits.{bit_and_ones, bit_and_shifted}
use asor.Memory.{page_size}
use asor.PageAlloc.{Pages, page_alloc_initialized, free_pages}
use asor.PageAlloc.Chain.{IsFree}
use asor.PageAlloc.Range.{page_run, free_pages_lem}
use asor.AllocPhys.{Phys, nr_regions_max, phys_alloc_get_unused}
use asor.AllocPhys.Regions.{IsLog, phys_alloc_get_unused_lem}
use asor.Ept.Walk.{translate}
use asor.Ept.Tables.{Owner, Spare}
use asor.Ept.Identity.{ident}
use asor.Ept.Access.{access}
use asor.Paging.Range.{directory_room}
use asor.SetupEpt.Root.{unowned}
use asor.Paging.{Mmu, setup_mmu}
use asor.Paging.Setup.{Running, mapped_end, setup_mmu_lem}
use asor.VmAlloc.{Vm, vmalloc_ops, is_vmalloc, page_floor, give_pages, setup_vm}

pub page_floor_lem : (x : ℕ) → x < 2 ^ 64 → page_floor x ≡ x / 2 ^ 12 * 2 ^ 12
page_floor_lem x h = omega (arith, bit_and_shifted 12 x (2 ^ 52 - 1), bit_and_ones 52 (x / 2 ^ 12))

length-page_run : (n page : ℕ) → length (page_run page n ++ []) ≡ n
length-page_run zero page = refl
length-page_run (suc n) page = omega (arith, length-page_run n (page + page_size))

Spare-page_run :
    (n page : ℕ)
    → page % 2 ^ 12 ≡ 0
    → page + n * page_size ≤ 2 ^ 52
    → Spare unowned (page_run page n ++ [])
Spare-page_run zero page al le = tt
Spare-page_run (suc n) page al le =
    (refl, al, omega arith, Spare-page_run n (page + page_size) (omega arith) (omega arith))

-- The `suc n` whole pages of the memory from `base` to `top` are those from `page` on.
pub record HasPages (base top page n : ℕ) : Type 0 where
  pub aligned : page % 2 ^ 12 ≡ 0
  pub lo : base ≤ page
  pub first : page < base + 2 ^ 12
  pub hi : page + suc n * page_size ≤ top
  pub last : top < page + suc n * page_size + 2 ^ 12
  pub null : page ≢ 0
  pub top_fits : top < 2 ^ 48

give_pages_run :
    (base top page end size : ℕ) (s s' : Pages)
    → page_floor ((base + (page_size - 1)) % 2 ^ 64) ≡ page
    → page_floor top ≡ end
    → (end + 2 ^ 64 - page) % 2 ^ 64 ≡ size
    → free_pages page size s ≡ some s'
    → give_pages base top s ≡ some (end, s')
unfolding give_pages
give_pages_run base top page end size s s' lo hi whole run = rw (lo, hi, whole, run) refl

give_pages_lem :
    (base top page n : ℕ) (s : Pages)
    → HasPages base top page n
    → s.freelist ≡ 0
    → (s' : Pages) × (give_pages base top s ≡ some (page + suc n * page_size, s'))
      × IsFree s' (page_run page (suc n) ++ [])
give_pages_lem base top page n s h empty =
    let lo : page_floor ((base + (page_size - 1)) % 2 ^ 64) ≡ page =
      page_floor_lem ((base + (page_size - 1)) % 2 ^ 64) (omega arith)
      ∙ omega (arith, h.aligned, h.lo, h.first, h.hi, h.top_fits) in
    let hi : page_floor top ≡ page + suc n * page_size =
      page_floor_lem top (omega (arith, h.top_fits))
      ∙ omega (arith, h.aligned, h.hi, h.last, h.top_fits) in
    let size : (page + suc n * page_size + 2 ^ 64 - page) % 2 ^ 64 ≡ suc n * page_size =
      omega (arith, h.hi, h.top_fits) in
    let (s', run, free, same) =
      free_pages_lem n page 0 s [] h.aligned h.null (omega (arith, h.hi, h.top_fits)) tt
        (record { chain = empty; distinct = tt }) (omega (arith, h.null)) in
    (
      s',
      give_pages_run base top page (page + suc n * page_size) (suc n * page_size) s s' lo hi size
          run,
      free,
    )

setup_vm_run :
    (fuel page n : ℕ) (vm : Vm) (phys : Phys) (s : Pages) (mmu : Mmu)
    → is_vmalloc vm.alloc_ops ≡ false
    → vm.mmu.pages.freelist ≡ 0
    → vm.phys.base < vm.phys.top
    → phys_alloc_get_unused vm.phys ≡ some (vm.phys.base, (vm.phys.top, phys))
    → give_pages vm.phys.base vm.phys.top vm.mmu.pages ≡ some (page + suc n * page_size, s)
    → setup_mmu fuel (page + suc n * page_size) (record vm.mmu { pages = s }) ≡ some (page, mmu)
    → setup_vm fuel vm
      ≡ some (record vm { phys = phys; mmu = mmu; page_root = page; alloc_ops = vmalloc_ops })
unfolding setup_vm page_alloc_initialized
setup_vm_run fuel page n vm phys s mmu fresh empty left taken given on =
    let e1 : (vm.phys.base == vm.phys.top) ≡ false = ground arith in
    let e2 : (vm.mmu.pages.freelist == 0) ≡ true = ground arith in
    rw (fresh, taken, e1, e2, given, on) refl

-- `setup_vm` at the start, when no page is free and the log of regions is well formed and has room:
-- with at least one whole page and three for each gigabyte to be mapped, and six, in the memory that
-- is left, which is not page 0 and ends below 2^48, and enough fuel, it succeeds. All that memory is
-- taken from the physical allocator; its first page is the root of the page tables, which is in CR3;
-- the memory up to its last whole page, but at least 4 GB, is mapped to itself, with all
-- permissions in the entries on the way, and nothing else below 2^48. Of the other pages, the tables
-- take at most three for each gigabyte to be mapped, and six; the rest is free.
pub setup_vm_lem :
    (fuel page n ga : ℕ) (vm : Vm)
    → is_vmalloc vm.alloc_ops ≡ false
    → IsLog vm.phys
    → vm.phys.nr_regions < nr_regions_max
    → vm.mmu.pages.freelist ≡ 0
    → HasPages vm.phys.base vm.phys.top page n
    → directory_room (mapped_end (page + suc n * page_size)) ≤ n
    → mapped_end (page + suc n * page_size) / 2 ^ 12 < fuel
    → ga < 2 ^ 48
    → (vm' : Vm) × (owner : Owner) × (xs : List ℕ) × (setup_vm fuel vm ≡ some vm')
      × (vm'.phys.base ≡ vm.phys.top)
      × IsLog vm'.phys
      × (vm'.alloc_ops ≡ vmalloc_ops)
      × (vm'.page_root ≡ page)
      × Running page (mapped_end (page + suc n * page_size)) vm.mmu vm'.mmu owner xs
      × (n ≤ length xs + directory_room (mapped_end (page + suc n * page_size)))
      × (translate 3 vm'.mmu.pages.mem page ga
          ≡ (if ltb ga (mapped_end (page + suc n * page_size)) then some (ident 7 ga) else none))
      × (access 3 vm'.mmu.pages.mem page ga
          ≡ (if ltb ga (mapped_end (page + suc n * page_size)) then 7 else 0))
setup_vm_lem fuel page n ga vm fresh log room empty h tables hf hga =
    let left : vm.phys.base < vm.phys.top = omega (arith, h.lo, h.hi) in
    let (s, given, free) = give_pages_lem vm.phys.base vm.phys.top page n vm.mmu.pages h empty in
    let xs = page_run (page + page_size) n ++ [] in
    let m : Mmu = record vm.mmu { pages = s } in
    let (mmu, owner, xs', on, running, used, map, allowed) =
      setup_mmu_lem fuel (page + suc n * page_size) page ga m xs free
        (Spare-page_run (suc n) page h.aligned (omega (arith, h.hi, h.top_fits)))
        (omega (arith, h.aligned)) (omega (arith, h.hi, h.top_fits)) hf
        (omega (arith, length-page_run n (page + page_size))) hga in
    elim (phys_alloc_get_unused_lem vm.phys log) [
      | inr (fails, some_left, full) ↦ absurd (omega arith)
      | inl (phys, taken, base, top, log', logged) ↦ (
        record vm { phys = phys; mmu = mmu; page_root = page; alloc_ops = vmalloc_ops },
        owner,
        xs',
        setup_vm_run fuel page n vm phys s mmu fresh empty left taken given on,
        base,
        log',
        refl,
        refl,
        same_Running page (mapped_end (page + suc n * page_size)) vm.mmu mmu s owner xs' running,
        omega (arith, used, length-page_run n (page + page_size)),
        map,
        allowed,
      )
    ]
  where
    same_Running :
        (q end : ℕ) (m m' : Mmu) (s : Pages) (owner : Owner) (xs : List ℕ)
        → Running q end (record m { pages = s }) m' owner xs
        → Running q end m m' owner xs
    same_Running q end m m' s owner xs r = record {
      mapped = r.mapped;
      root = r.root;
      fresh = r.fresh;
      cr3 = r.cr3;
      cr0 = r.cr0;
      cr4 = r.cr4;
      printed = r.printed;
    }
