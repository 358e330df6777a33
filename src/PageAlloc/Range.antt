-- ===== src/PageAlloc/Range.antt =====
-- `free_pages`: a whole range of pages goes to the front of the free list, in order.
use asor.Base.{
  ℕ, zero, suc, ◌+◌, ◌-◌, ◌*◌, ◌/◌, ◌%◌, ◌^◌, ◌≤◌, ◌<◌, ◌≡◌, refl, ap, ◌≢◌, ◌⊎◌, ◌∙◌, true, false,
  ◌||◌, some, List, [], ◌∷◌, ◌++◌, ltb, ◌==◌, arith,
}
use asor.Memory.{Memory, page_size, write_word}
use asor.PageAlloc.{Pages, link_pages, free_pages}
use asor.PageAlloc.Chain.{Chain, NotIn, Distinct, IsFree, Chain-frame, SameAt-write_word}

-- The `n` pages from `page` on.
abbrev pub page_run : ℕ → ℕ → List ℕ
page_run page zero = []
page_run page (suc n) = page ∷ page_run (page + page_size) n

abbrev pub Outside : ℕ → ℕ → List ℕ → Type 0
Outside lo hi [] = Unit {0}
Outside lo hi (x ∷ xs) = ((x < lo) ⊎ (hi ≤ x)) × Outside lo hi xs

pub NotIn-Outside : (a lo hi : ℕ) (xs : List ℕ) → Outside lo hi xs → lo ≤ a → a < hi → NotIn a xs
NotIn-Outside a lo hi [] o p q = tt
NotIn-Outside a lo hi (x ∷ xs) o p q = (ground (arith, o.0), NotIn-Outside a lo hi xs o.1 p q)

Outside-narrow : (lo lo' hi : ℕ) (xs : List ℕ) → Outside lo hi xs → lo ≤ lo' → Outside lo' hi xs
Outside-narrow lo lo' hi [] o h = tt
Outside-narrow lo lo' hi (x ∷ xs) o h = (ground (arith, o.0), Outside-narrow lo lo' hi xs o.1 h)

NotIn-page_run :
    (a page n : ℕ) (xs : List ℕ) → a < page → NotIn a xs → NotIn a (page_run page n ++ xs)
NotIn-page_run a page zero xs h new = new
NotIn-page_run a page (suc n) xs h new =
    (omega arith, NotIn-page_run a (page + page_size) n xs (omega arith) new)

pub Distinct-page_run :
    (page n hi : ℕ) (xs : List ℕ)
    → page + n * page_size ≡ hi
    → Outside page hi xs
    → Distinct xs
    → Distinct (page_run page n ++ xs)
Distinct-page_run page zero hi xs e o d = d
Distinct-page_run page (suc n) hi xs e o d = (
  NotIn-page_run page (page + page_size) n xs (omega arith)
      (NotIn-Outside page page hi xs o (omega arith) (omega arith)),
  Distinct-page_run (page + page_size) n hi xs (omega arith)
      (Outside-narrow page (page + page_size) hi xs o (omega arith)) d,
)

link_last :
    (fuel page end old : ℕ) (mem : Memory)
    → (page + page_size) % 2 ^ 64 ≡ end
    → link_pages (suc fuel) page end old mem ≡ some (write_word page old mem)
unfolding link_pages
link_last fuel page end old mem e = ground arith

link_next :
    (fuel page end old : ℕ) (mem : Memory)
    → page + page_size < 2 ^ 64
    → page + page_size ≢ end
    → link_pages (suc fuel) page end old mem
      ≡ link_pages fuel (page + page_size) end old (write_word page (page + page_size) mem)
unfolding link_pages
link_next fuel page end old mem fit ne =
    let e : (page + page_size) % 2 ^ 64 ≡ page + page_size = omega arith in
    let test : (page + page_size == end) ≡ false = ground arith in rw (e, test)

-- What the loop leaves in memory.
record Linked (page n : ℕ) (xs : List ℕ) (mem mem' : Memory) : Type 0 where
  chain : Chain mem' page (page_run page n ++ xs)
  below : (a : ℕ) → a < page → mem' a ≡ mem a

link_pages_lem :
    (n fuel page old hi : ℕ) (xs : List ℕ) (mem : Memory)
    → n < fuel
    → page ≢ 0
    → page + suc n * page_size ≡ hi
    → hi ≤ 2 ^ 64
    → Outside page hi xs
    → Chain mem old xs
    → (mem' : Memory) × (link_pages fuel page (hi % 2 ^ 64) old mem ≡ some mem')
      × Linked page (suc n) xs mem mem'
link_pages_lem n zero page old hi xs mem h nz e fit o c = absurd (omega arith)
link_pages_lem zero (suc fuel) page old hi xs mem h nz e fit o c = (
  write_word page old mem,
  link_last fuel page (hi % 2 ^ 64) old mem (ap (λ (t : ℕ). t % 2 ^ 64) (omega arith)),
  record {
    chain =
        let self : write_word page old mem page ≡ old = ground arith in
        (
          refl,
          nz,
          rw self (
              Chain-frame mem (write_word page old mem) old xs
                (SameAt-write_word page old mem xs
                  (NotIn-Outside page page hi xs o (omega arith) (omega arith)))
                c),
        );
    below = λ a lt. ground arith;
  },
)
link_pages_lem (suc n) (suc fuel) page old hi xs mem h nz e fit o c =
    let next = page + page_size in
    let mem1 = write_word page next mem in
    let (mem', run, l) =
      link_pages_lem n fuel next old hi xs mem1 (omega arith) (omega arith) (omega arith) fit
        (Outside-narrow page next hi xs o (omega arith))
        (Chain-frame mem mem1 old xs
          (SameAt-write_word page next mem xs
            (NotIn-Outside page page hi xs o (omega arith) (omega arith)))
          c) in
    let link : mem' page ≡ next = l.below page (omega arith) ∙ ground arith in
    (
      mem',
      link_next fuel page (hi % 2 ^ 64) old mem (omega arith) (omega arith) ∙ run,
      record {
        chain = (refl, nz, rw link l.chain);
        below = λ a lt. l.below a (omega arith) ∙ ground arith;
      },
    )

-- The assertions pass.
free_pages_run :
    (n page : ℕ) (s : Pages) (mem' : Memory)
    → page % page_size ≡ 0
    → page ≢ 0
    → page + suc n * page_size ≤ 2 ^ 64
    → link_pages (suc n) page ((page + suc n * page_size) % 2 ^ 64) s.freelist s.mem ≡ some mem'
    → free_pages page (suc n * page_size) s ≡ some (record { mem = mem'; freelist = page })
unfolding free_pages
free_pages_run n page s mem' al nz fit run =
    let size = suc n * page_size in
    let whole : size / page_size ≡ suc n = omega arith in
    let sized : (size % page_size == 0) ≡ true = ground arith in
    let some_pages : (size == 0) ≡ false = ground arith in
    let aligned : (page % page_size == 0) ≡ true = ground arith in
    let fits : (page == (2 ^ 64 - size) % 2 ^ 64 || ltb page ((page + size) % 2 ^ 64)) ≡ true =
      ground arith in
    rw (aligned, sized, some_pages, fits, whole, run)

-- `free_pages` of `suc n` pages that start at an aligned address, are not NULL, end at most at the
-- top of the address space and do not meet the free list succeeds, and puts them at the front of
-- the free list in ascending order. Memory below the range is unchanged.
pub free_pages_lem :
    (n page below : ℕ) (s : Pages) (xs : List ℕ)
    → page % page_size ≡ 0
    → page ≢ 0
    → page + suc n * page_size ≤ 2 ^ 64
    → Outside page (page + suc n * page_size) xs
    → IsFree s xs
    → below < page
    → (s' : Pages) × (free_pages page (suc n * page_size) s ≡ some s')
      × IsFree s' (page_run page (suc n) ++ xs)
      × (s'.mem below ≡ s.mem below)
free_pages_lem n page below s xs al nz fit o f lt =
    let (mem', run, l) =
      link_pages_lem n (suc n) page s.freelist (page + suc n * page_size) xs s.mem (omega arith) nz
        refl fit o f.chain in
    (
      record { mem = mem'; freelist = page },
      free_pages_run n page s mem' al nz fit run,
      record {
        chain = l.chain;
        distinct = Distinct-page_run page (suc n) (page + suc n * page_size) xs refl o f.distinct;
      },
      l.below below lt,
    )
