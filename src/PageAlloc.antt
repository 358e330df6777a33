-- ===== src/PageAlloc.antt =====
-- lib/alloc_page.c: the allocator of pages. Free pages form a list that is linked through their
-- first words. The spin lock is left out, since one processor runs the code; a failed assertion is
-- `none`.
mod Tests
pub mod Chain
pub mod Range
use asor.Base.{
  ℕ, zero, suc, ◌+◌, ◌-◌, ◌*◌, ◌/◌, ◌%◌, ◌^◌, bit_and, Bool, true, false, not, ◌&&◌, ◌||◌, Option,
  none, some, ltb, leb, ◌==◌, if◌then◌else◌, ◌>>=◌,
}
use asor.Memory.{Memory, page_size, virt_to_phys, write_word}

pub record Pages : Type 0 where
  pub mem : Memory
  -- 0 is NULL
  pub freelist : ℕ

unfoldable pub page_alloc_initialized : Pages → Bool
page_alloc_initialized s = not (s.freelist == 0)

-- while (mem + PAGE_SIZE != end) { *(void **)mem = mem + PAGE_SIZE; mem += PAGE_SIZE; } and the
-- write of the old list behind it; each round takes one unit of fuel.
pub link_pages : ℕ → ℕ → ℕ → ℕ → Memory → Option Memory
link_pages zero page end old_freelist mem = none
link_pages (suc fuel) page end old_freelist mem =
    let next = (page + page_size) % 2 ^ 64 in
    let rest = link_pages fuel next end old_freelist (write_word page next mem) in
    if next == end then some (write_word page old_freelist mem) else rest

pub free_pages : ℕ → ℕ → Pages → Option Pages
free_pages page size s =
    if not (page % page_size == 0)
    then none
    else if not (size % page_size == 0)
    then none
    else if not
        (size == 0 || (page == (2 ^ 64 - size) % 2 ^ 64 || ltb page ((page + size) % 2 ^ 64)))
    then none
    else if size == 0
    then some (record s { freelist = 0 })
    else do
      mem ← link_pages (size / page_size) page ((page + size) % 2 ^ 64) s.freelist s.mem
      some (record { mem = mem; freelist = page })

unfoldable pub alloc_page : Pages → ℕ × Pages
alloc_page s =
    if s.freelist == 0 then (0, s) else (s.freelist, record s { freelist = s.mem s.freelist })

pub free_page : ℕ → Pages → Pages
free_page page s = record { mem = write_word page s.freelist s.mem; freelist = page }

-- The variables of the loop of `alloc_pages`.
pub record Search : Type 0 where
  pub curr : ℕ
  pub next : ℕ
  pub run : ℕ
  pub run_start : ℕ
  pub run_prev : ℕ
  pub run_next_pa : ℕ

-- What one round does to the run of pages, before the test for a full run.
pub extend_run : ℕ → ℕ → ℕ → Search → Search
extend_run order prev pa r =
    if r.run == 0
    then (if bit_and pa ((2 ^ order * page_size + 2 ^ 64 - 1) % 2 ^ 64) == 0
        then (record r {
          run = 1;
          run_start = r.curr;
          run_prev = prev;
          run_next_pa = (pa + page_size) % 2 ^ 64;
        })
        else r)
    else if pa == r.run_next_pa
    then record r { run = r.run + 1; run_next_pa = (r.run_next_pa + page_size) % 2 ^ 64 }
    else record r { run = 0 }

-- The loop over the free list, one page for a unit of fuel.
pub search_run : ℕ → ℕ → Search → Pages → Option (ℕ × Pages)
search_run zero order r s = none
search_run (suc fuel) order r s =
    if r.next == 0
    then some (0, s)
    else (let r' =
          extend_run order r.curr (virt_to_phys r.next)
            (record r { curr = r.next; next = s.mem r.next }) in
        let found =
          if not (r'.run_prev == 0)
          then record s { mem = write_word r'.run_prev r'.next s.mem }
          else record s { freelist = r'.next } in
        let rest = search_run fuel order r' s in
        if r'.run == 2 ^ order then some (r'.run_start, found) else rest)

pub alloc_pages : ℕ → ℕ → Pages → Option (ℕ × Pages)
alloc_pages fuel order s =
    if not (ltb order 64)
    then none
    else search_run fuel order
        (record {
          curr = 0;
          next = s.freelist;
          run = 0;
          run_start = 0;
          run_prev = 0;
          run_next_pa = 0;
        })
        s
