-- ===== src/PageAlloc/Tests.antt =====
-- Runs of lib/alloc_page.c.
use asor.Base.{◌*◌, ◌≡◌, refl, some, [], ◌∷◌, ◌++◌, arith, suc}
use asor.Memory.{page_size}
use asor.PageAlloc.{Pages, free_pages}
use asor.PageAlloc.Chain.{IsFree}
use asor.PageAlloc.Range.{page_run, free_pages_lem}

-- One free page at 0x2000.
abbrev one_page : Pages
one_page = record { mem = λ a. 0; freelist = 8192 }

one_page-IsFree : IsFree one_page (8192 ∷ [])
one_page-IsFree = record { chain = (refl, ground arith, refl); distinct = (tt, tt) }

free_pages_example :
    (s' : Pages) × (free_pages 16384 (suc 1 * page_size) one_page ≡ some s')
    × IsFree s' (page_run 16384 (suc 1) ++ (8192 ∷ []))
    × (s'.mem 8192 ≡ one_page.mem 8192)
free_pages_example =
    free_pages_lem 1 16384 8192 one_page (8192 ∷ []) (omega arith) (ground arith) (omega arith)
      (ground arith, tt) one_page-IsFree (omega arith)
