-- ===== src/Ept.antt =====
-- x86/ept.c: the extended page tables, four levels of tables of 512 entries, which map guest
-- physical addresses to host physical ones. A table is a page of memory; the entry `i` of the table
-- at `pt` is the word at `pt + 8 * i`. A failed assertion is `none`.
mod Tests
pub mod Walk
pub mod Access
pub mod Tables
pub mod Grow
pub mod Entries
pub mod Split
pub mod Parts
pub mod Descend
pub mod Round
pub mod Final
pub mod Level
pub mod Reach
pub mod Loop
pub mod Install
pub mod Identity
pub mod Cost
pub mod Rounds
pub mod Range
pub mod Phases
pub mod Setup
use asor.Base.{
  ℕ, zero, suc, ◌+◌, ◌-◌, ◌*◌, ◌/◌, ◌%◌, ◌^◌, bit_and, bit_or, Bool, true, false, not, ◌&&◌, ◌||◌,
  Option, none, some, ltb, leb, ◌==◌, if◌then◌else◌, ◌>>=◌,
}
use asor.Memory.{Memory, page_size, virt_to_phys, phys_to_virt, write_word, zero_page}
use asor.PageAlloc.{Pages, alloc_page}

abbrev pub ept_ra : ℕ
ept_ra = 1

abbrev pub ept_wa : ℕ
ept_wa = 2

abbrev pub ept_ea : ℕ
ept_ea = 4

abbrev pub ept_present : ℕ
ept_present = bit_or (bit_or ept_ra ept_wa) ept_ea

abbrev pub ept_large_page : ℕ
ept_large_page = 2 ^ 7

-- ~x of a 64-bit word
abbrev pub inv64 : ℕ → ℕ
inv64 x = 2 ^ 64 - 1 - x

-- GENMASK_ULL(51, 12)
abbrev pub ept_addr_mask : ℕ
ept_addr_mask = (2 ^ 40 - 1) * 2 ^ 12

abbrev pub level_shift : ℕ → ℕ
level_shift level = (level - 1) * 9 + 12

-- The address of the entry for `guest_addr` in the table `pt` of a level.
abbrev pub entry_addr : ℕ → ℕ → ℕ → ℕ
entry_addr pt level guest_addr = pt + 8 * bit_and (guest_addr / 2 ^ level_shift level) 511

-- for (i = i; rounds are left; i++) { new_pt[i] = prototype | gpa; gpa += step; }
unfoldable pub fill_split : ℕ → ℕ → ℕ → ℕ → ℕ → ℕ → Memory → Memory
fill_split zero i new_pt prototype gpa step mem = mem
fill_split (suc rounds) i new_pt prototype gpa step mem =
    fill_split rounds (i + 1) new_pt prototype ((gpa + step) % 2 ^ 64) step
      (write_word (new_pt + 8 * i) (bit_or prototype gpa) mem)

-- The bits of a large entry that its parts inherit.
unfoldable pub split_prototype : ℕ → ℕ → ℕ
split_prototype level pte =
    let prototype = bit_and pte (inv64 ept_addr_mask) in
    if level == 2 then bit_and prototype (inv64 ept_large_page) else prototype

unfoldable pub split_large_ept_entry : ℕ → ℕ → Pages → Option Pages
split_large_ept_entry ptep level s =
    let pte = s.mem ptep in
    if bit_and pte ept_present == 0
    then none
    else if bit_and pte ept_large_page == 0
    then none
    else if not (level == 2 || level == 3)
    then none
    else (let (new_pt, s1) = alloc_page s in
        let mem =
          fill_split 512 0 new_pt (split_prototype level pte) (bit_and pte ept_addr_mask)
            (2 ^ level_shift (level - 1)) (zero_page new_pt s1.mem) in
        let table =
          bit_or (bit_and (bit_and pte (inv64 ept_large_page)) (inv64 ept_addr_mask))
            (virt_to_phys new_pt) in
        if new_pt == 0 then none else some (record s1 { mem = write_word ptep table mem }))

-- One round of the loop of `install_ept_entry`, before it goes down: the entry at `slot` leads to
-- a table afterwards. The first result is what is left of `pt_page`.
pub make_table : ℕ → ℕ → ℕ → Pages → Option (ℕ × Pages)
make_table slot level pt_page s =
    let e = s.mem slot in
    if bit_and e ept_present == 0
    then (let (new_pt, s1) = if pt_page == 0 then alloc_page s else (pt_page, s) in
        let entry = bit_or (bit_or (bit_or (virt_to_phys new_pt) ept_ra) ept_wa) ept_ea in
        some (0, record s1 { mem = write_word slot entry (zero_page new_pt s1.mem) }))
    else if not (bit_and e ept_large_page == 0)
    then (do s1 ← split_large_ept_entry slot level s; some (pt_page, s1))
    else some (pt_page, s)

-- for (level = level; rounds are left; --level), and the write of the entry behind the loop.
pub install_loop : ℕ → ℕ → ℕ → ℕ → ℕ → ℕ → Pages → Option Pages
install_loop zero level pt guest_addr pte pt_page s =
    some (record s { mem = write_word (entry_addr pt level guest_addr) pte s.mem })
install_loop (suc rounds) level pt guest_addr pte pt_page s = do
  (pt_page', s') ← make_table (entry_addr pt level guest_addr) level pt_page s
  install_loop rounds (level - 1)
      (phys_to_virt (bit_and (s'.mem (entry_addr pt level guest_addr)) ept_addr_mask)) guest_addr
      pte pt_page' s'

pub install_ept_entry : ℕ → ℕ → ℕ → ℕ → ℕ → Pages → Option Pages
install_ept_entry pml4 pte_level guest_addr pte pt_page s =
    if not (ltb guest_addr (2 ^ 48))
    then none
    else install_loop (4 - pte_level) 4 pml4 guest_addr pte pt_page s

-- (phys & PAGE_MASK) | perm
pub install_ept : ℕ → ℕ → ℕ → ℕ → Pages → Option Pages
install_ept pml4 phys guest_addr perm =
    install_ept_entry pml4 1 guest_addr (bit_or (bit_and phys (inv64 (page_size - 1))) perm) 0

pub install_1g_ept : ℕ → ℕ → ℕ → ℕ → Pages → Option Pages
install_1g_ept pml4 phys guest_addr perm =
    install_ept_entry pml4 3 guest_addr
      (bit_or (bit_or (bit_and phys (inv64 (page_size - 1))) perm) ept_large_page) 0

pub install_2m_ept : ℕ → ℕ → ℕ → ℕ → Pages → Option Pages
install_2m_ept pml4 phys guest_addr perm =
    install_ept_entry pml4 2 guest_addr
      (bit_or (bit_or (bit_and phys (inv64 (page_size - 1))) perm) ept_large_page) 0

-- while (phys + size <= max) { install(pml4, phys, phys, perm); phys += size; } on fuel. The
-- results are `phys` and the memory; the outer `none` means that the fuel ran out or that an
-- assertion failed.
unfoldable pub map_while : ℕ → (ℕ → Pages → Option Pages) → ℕ → ℕ → ℕ → Pages → Option (ℕ × Pages)
map_while zero install size max phys s = none
map_while (suc fuel) install size max phys s =
    let rest =
      (install phys s >>= λ s'. map_while fuel install size max ((phys + size) % 2 ^ 64) s') in
    if leb ((phys + size) % 2 ^ 64) max then rest else some (phys, s)

abbrev pub page_size_2m : ℕ
page_size_2m = 512 * page_size

abbrev pub page_size_1g : ℕ
page_size_1g = 512 * page_size_2m

pub setup_ept_range : ℕ → ℕ → ℕ → ℕ → Bool → Bool → ℕ → Pages → Option (ℕ × Pages)
setup_ept_range fuel pml4 start len map_1g map_2m perm s = do
  let max = (len + start) % 2 ^ 64
  (phys1, s1) ←
      if map_1g
      then map_while fuel (λ p. install_1g_ept pml4 p p perm) page_size_1g max start s
      else some (start, s)
  (phys2, s2) ←
      if map_2m
      then map_while fuel (λ p. install_2m_ept pml4 p p perm) page_size_2m max phys1 s1
      else some (phys1, s1)
  map_while fuel (λ p. install_ept pml4 p p perm) page_size max phys2 s2
