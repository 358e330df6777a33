-- ===== src/Paging.antt =====
-- lib/x86/vm.c: the page tables of the hypervisor itself, on x86_64: four levels of tables of 512
-- entries, as in x86/ept.c. The address of an entry is what the code has as a pointer to it; 0 is
-- NULL. A failed assertion is `none`. Flushing the TLB changes nothing here.
pub mod Directory
pub mod Install
pub mod Range
pub mod Setup
pub mod Search
pub mod Split
mod Tests
use asor.Base.{
  ℕ, zero, suc, ◌+◌, ◌-◌, ◌*◌, ◌/◌, ◌%◌, ◌^◌, bit_and, bit_or, Bool, true, false, not, ◌&&◌, ◌||◌,
  Option, none, some, List, [], ◌∷◌, ltb, leb, ◌==◌, if◌then◌else◌, ◌>>=◌,
}
use asor.Memory.{Memory, page_size, virt_to_phys, phys_to_virt, write_word, zero_page}
use asor.PageAlloc.{Pages, alloc_page}

abbrev pub pt_present_mask : ℕ
pt_present_mask = 1

abbrev pub pt_writable_mask : ℕ
pt_writable_mask = 2

abbrev pub pt_user_mask : ℕ
pt_user_mask = 4

abbrev pub pt_page_size_mask : ℕ
pt_page_size_mask = 2 ^ 7

-- GENMASK_ULL(51, 12)
abbrev pub pt_addr_mask : ℕ
pt_addr_mask = (2 ^ 40 - 1) * 2 ^ 12

-- ~x of a 64-bit word
abbrev pub inv64 : ℕ → ℕ
inv64 x = 2 ^ 64 - 1 - x

abbrev pub large_page_size : ℕ
large_page_size = 512 * page_size

abbrev pub pgdir_bits : ℕ → ℕ
pgdir_bits lvl = (lvl - 1) * 9 + 12

-- &pt[PGDIR_OFFSET(va, lvl)]
abbrev pub pte_addr : ℕ → ℕ → ℕ → ℕ
pte_addr pt lvl va = pt + 8 * bit_and (va / 2 ^ pgdir_bits lvl) 511

-- One round of the loop of `install_pte`, before it goes down. The first result is what is left of
-- `pt_page`.
pub make_directory : ℕ → ℕ → Pages → ℕ × Pages
make_directory slot pt_page s =
    if bit_and (s.mem slot) pt_present_mask == 0
    then (let (new_pt, s1) = if pt_page == 0 then alloc_page s else (pt_page, s) in
        let entry =
          bit_or (bit_or (bit_or (virt_to_phys new_pt) pt_present_mask) pt_writable_mask)
            pt_user_mask in
        (0, record s1 { mem = write_word slot entry (zero_page new_pt s1.mem) }))
    else (pt_page, s)

-- for (level = level; rounds are left; --level), and what follows. The first result is the address
-- of the entry.
unfoldable pub install_pte_loop : ℕ → ℕ → ℕ → ℕ → ℕ → ℕ → Pages → ℕ × Pages
install_pte_loop zero level pt virt pte pt_page s =
    (pte_addr pt level virt, record s { mem = write_word (pte_addr pt level virt) pte s.mem })
install_pte_loop (suc rounds) level pt virt pte pt_page s =
    let (pt_page', s') = make_directory (pte_addr pt level virt) pt_page s in
    install_pte_loop rounds (level - 1)
      (phys_to_virt (bit_and (s'.mem (pte_addr pt level virt)) pt_addr_mask)) virt pte pt_page' s'

unfoldable pub install_pte : ℕ → ℕ → ℕ → ℕ → ℕ → Pages → ℕ × Pages
install_pte cr3 pte_level virt pte pt_page s =
    install_pte_loop (4 - pte_level) 4 cr3 virt pte pt_page s

pub record PteSearch : Type 0 where
  pub level : ℕ
  pub pte : ℕ

-- The loop of `find_pte_level` from a level on.
pub find_loop : ℕ → ℕ → ℕ → ℕ → Memory → Option PteSearch
find_loop zero lowest_level pt virt mem = none
find_loop (suc l) lowest_level pt virt mem =
    let level = suc l in
    let r : PteSearch = record { level = level; pte = pte_addr pt level virt } in
    let pte = mem r.pte in
    let below = find_loop l lowest_level (phys_to_virt (bit_and pte pt_addr_mask)) virt mem in
    if bit_and pte pt_present_mask == 0
    then some r
    else if (level == 2 || level == 3) && not (bit_and pte pt_page_size_mask == 0)
    then some r
    else if level == lowest_level
    then some r
    else below

pub find_pte_level : ℕ → ℕ → ℕ → Memory → Option PteSearch
find_pte_level cr3 virt lowest_level mem =
    if not (leb 1 lowest_level && leb lowest_level 4)
    then none
    else find_loop 4 lowest_level cr3 virt mem

pub found_huge_pte : PteSearch → Memory → Bool
found_huge_pte search mem =
    (search.level == 2 || search.level == 3)
    && not (bit_and (mem search.pte) pt_present_mask == 0)
    && not (bit_and (mem search.pte) pt_page_size_mask == 0)

pub found_leaf_pte : PteSearch → Memory → Bool
found_leaf_pte search mem = search.level == 1 || found_huge_pte search mem

pub get_pte : ℕ → ℕ → Memory → Option ℕ
get_pte cr3 virt mem = do
  search ← find_pte_level cr3 virt 1 mem
  some (if found_leaf_pte search mem then search.pte else 0)

unfoldable pub get_pte_level : ℕ → ℕ → ℕ → Memory → Option ℕ
get_pte_level cr3 virt pte_level mem = do
  search ← find_pte_level cr3 virt pte_level mem
  some (if search.level == pte_level then search.pte else 0)

pub install_large_page : ℕ → ℕ → ℕ → Pages → ℕ × Pages
install_large_page cr3 phys virt =
    install_pte cr3 2 virt
      (bit_or (bit_or (bit_or (bit_or phys pt_present_mask) pt_writable_mask) pt_user_mask)
        pt_page_size_mask)
      0

unfoldable pub install_page : ℕ → ℕ → ℕ → Pages → ℕ × Pages
install_page cr3 phys virt =
    install_pte cr3 1 virt
      (bit_or (bit_or (bit_or phys pt_present_mask) pt_writable_mask) pt_user_mask) 0

-- while (phys + PAGE_SIZE <= max), on fuel.
pub install_pages_loop : ℕ → ℕ → ℕ → ℕ → ℕ → Pages → Option Pages
install_pages_loop zero cr3 max phys virt s = none
install_pages_loop (suc fuel) cr3 max phys virt s =
    let rest =
      install_pages_loop fuel cr3 max ((phys + page_size) % 2 ^ 64) ((virt + page_size) % 2 ^ 64)
        (install_page cr3 phys virt s).1 in
    if leb ((phys + page_size) % 2 ^ 64) max then rest else some s

pub install_pages : ℕ → ℕ → ℕ → ℕ → ℕ → Pages → Option Pages
install_pages fuel cr3 phys len virt s =
    if not (phys % page_size == 0)
    then none
    else if not (virt % page_size == 0)
    then none
    else if not (len % page_size == 0)
    then none
    else install_pages_loop fuel cr3 ((len + phys) % 2 ^ 64) phys virt s

-- for (curr = curr; curr < max; curr += PAGE_SIZE), on fuel.
unfoldable pub any_present_loop : ℕ → ℕ → ℕ → ℕ → Memory → Option Bool
any_present_loop zero cr3 max curr mem = none
any_present_loop (suc fuel) cr3 max curr mem =
    let rest = any_present_loop fuel cr3 max ((curr + page_size) % 2 ^ 64) mem in
    let found = (do
      ptep ← get_pte cr3 curr mem
      if not (ptep == 0) && not (bit_and (mem ptep) pt_present_mask == 0)
          then some true
          else rest) in
    if ltb curr max then found else some false

unfoldable pub any_present_pages : ℕ → ℕ → ℕ → ℕ → Memory → Option Bool
any_present_pages fuel cr3 virt len mem = any_present_loop fuel cr3 ((virt + len) % 2 ^ 64) virt mem

-- while (phys + LARGE_PAGE_SIZE <= max), on fuel; the first result is `phys`.
pub large_pages_loop : ℕ → ℕ → ℕ → ℕ → Pages → Option (ℕ × Pages)
large_pages_loop zero cr3 max phys s = none
large_pages_loop (suc fuel) cr3 max phys s =
    let rest =
      large_pages_loop fuel cr3 max ((phys + large_page_size) % 2 ^ 64)
        (install_large_page cr3 phys phys s).1 in
    if leb ((phys + large_page_size) % 2 ^ 64) max then rest else some (phys, s)

pub setup_mmu_range : ℕ → ℕ → ℕ → ℕ → Pages → Option Pages
setup_mmu_range fuel cr3 start len s = do
  let max = (len + start) % 2 ^ 64
  (phys, s1) ← large_pages_loop fuel cr3 max start s
  install_pages fuel cr3 phys ((max + 2 ^ 64 - phys) % 2 ^ 64) phys s1

-- What `setup_mmu` prints.
pub data Message : Type 0 where
  paging_enabled : Message
  cr0_is cr3_is cr4_is : ℕ → Message

pub record Mmu : Type 0 where
  pub pages : Pages
  pub cr0 : ℕ
  pub cr3 : ℕ
  pub cr4 : ℕ
  -- the newest first
  pub printed : List Message

unfoldable pub cr0_pg_pe_wp : ℕ
cr0_pg_pe_wp = bit_or (bit_or (2 ^ 31) 1) (2 ^ 16)

-- The writes of the registers and the output of `setup_mmu`.
pub enable_paging : ℕ → Mmu → Mmu
enable_paging cr3 m =
    let m1 = record m { cr3 = virt_to_phys cr3; cr0 = cr0_pg_pe_wp } in
    record m1 {
      printed = cr4_is m1.cr4 ∷ cr3_is m1.cr3 ∷ cr0_is m1.cr0 ∷ paging_enabled ∷ m1.printed;
    }

pub setup_mmu : ℕ → ℕ → Mmu → Option (ℕ × Mmu)
setup_mmu fuel end_of_memory m = do
  let (cr3, s) = alloc_page m.pages
  let s1 = record s { mem = zero_page cr3 s.mem }
  s2 ← setup_mmu_range fuel cr3 0 (if ltb end_of_memory (2 ^ 32) then 2 ^ 32 else end_of_memory) s1
  some (cr3, enable_paging cr3 (record m { pages = s2 }))

-- Reading through NULL is `none`.
pub virt_to_pte_phys : ℕ → ℕ → Memory → Option ℕ
virt_to_pte_phys cr3 virt mem = do
  ptep ← get_pte cr3 virt mem
  if ptep == 0
      then none
      else some ((bit_and (mem ptep) pt_addr_mask + bit_and virt (page_size - 1)) % 2 ^ 64)

-- for (i = i; rounds are left; i++) { new_pt[i] = prototype | pa; pa += step; }
pub fill_table : ℕ → ℕ → ℕ → ℕ → ℕ → ℕ → Memory → Memory
fill_table zero i new_pt prototype pa step mem = mem
fill_table (suc rounds) i new_pt prototype pa step mem =
    fill_table rounds (i + 1) new_pt prototype ((pa + step) % 2 ^ 64) step
      (write_word (new_pt + 8 * i) (bit_or prototype pa) mem)

pub split_large_page : ℕ → ℕ → Pages → Option Pages
split_large_page ptep level s =
    let pte = s.mem ptep in
    if bit_and pte pt_present_mask == 0
    then none
    else if bit_and pte pt_page_size_mask == 0
    then none
    else if not (level == 2 || level == 3)
    then none
    else (let (new_pt, s1) = alloc_page s in
        let prototype = bit_and pte (inv64 pt_addr_mask) in
        let prototype' =
          if level == 2 then bit_and prototype (inv64 pt_page_size_mask) else prototype in
        let mem =
          fill_table 512 0 new_pt prototype' (bit_and pte pt_addr_mask) (2 ^ pgdir_bits (level - 1))
            s1.mem in
        let table =
          bit_or (bit_and (bit_and pte (inv64 pt_page_size_mask)) (inv64 pt_addr_mask))
            (virt_to_phys new_pt) in
        if new_pt == 0 then none else some (record s1 { mem = write_word ptep table mem }))

-- A level of `force_4k_page`.
unfoldable pub force_level : ℕ → ℕ → ℕ → Pages → Option Pages
force_level cr3 addr level s = do
  ptep ← get_pte_level cr3 addr level s.mem
  let pte = s.mem ptep
  if ptep == 0
      then none
      else if bit_and pte pt_present_mask == 0
      then none
      else if bit_and pte pt_page_size_mask == 0
      then some s
      else split_large_page ptep level s

-- `cr3` is what the register of this name holds.
unfoldable pub force_4k_page : ℕ → ℕ → Pages → Option Pages
force_4k_page cr3 addr s = do s1 ← force_level cr3 addr 3 s; force_level cr3 addr 2 s1
