-- ===== src/PageAlloc/Chain.antt =====
-- What the free list promises: a chain of distinct pages, from which `alloc_page` takes the first
-- and to which `free_page` and `free_pages` add at the front.
use asor.Base.{ℕ, ◌≡◌, refl, sym, ◌≢◌, ◌∙◌, false, List, [], ◌∷◌, ◌==◌, arith}
use asor.Memory.{Memory, write_word}
use asor.PageAlloc.{Pages, alloc_page, free_page}

-- From `p` the links lead through the pages `xs` to NULL.
abbrev pub Chain : Memory → ℕ → List ℕ → Type 0
Chain mem p [] = p ≡ 0
Chain mem p (x ∷ xs) = (p ≡ x) × (x ≢ 0) × Chain mem (mem x) xs

abbrev pub NotIn : ℕ → List ℕ → Type 0
NotIn a [] = Unit {0}
NotIn a (x ∷ xs) = (a ≢ x) × NotIn a xs

abbrev pub Distinct : List ℕ → Type 0
Distinct [] = Unit {0}
Distinct (x ∷ xs) = NotIn x xs × Distinct xs

pub record IsFree (s : Pages) (xs : List ℕ) : Type 0 where
  pub chain : Chain s.mem s.freelist xs
  pub distinct : Distinct xs

abbrev pub SameAt : Memory → Memory → List ℕ → Type 0
SameAt mem mem' [] = Unit {0}
SameAt mem mem' (x ∷ xs) = (mem' x ≡ mem x) × SameAt mem mem' xs

-- A change of memory that spares the pages of a chain keeps it.
pub Chain-frame :
    (mem mem' : Memory) (p : ℕ) (xs : List ℕ)
    → SameAt mem mem' xs
    → Chain mem p xs
    → Chain mem' p xs
Chain-frame mem mem' p [] same c = c
Chain-frame mem mem' p (x ∷ xs) same c =
    (c.0, c.1, rw same.0 (Chain-frame mem mem' (mem x) xs same.1 c.2))

pub SameAt-write_word :
    (a v : ℕ) (mem : Memory) (xs : List ℕ) → NotIn a xs → SameAt mem (write_word a v mem) xs
SameAt-write_word a v mem [] h = tt
SameAt-write_word a v mem (x ∷ xs) h = (ground arith, SameAt-write_word a v mem xs h.1)

pub Chain-head : {s : Pages} (xs : List ℕ) → IsFree s xs → s.freelist ≡ 0 → xs ≡ []
Chain-head [] f e = refl
Chain-head (x ∷ xs) f e = absurd (f.chain.1 (sym f.chain.0 ∙ e))

-- `alloc_page` gives out the first page of the free list, and NULL exactly when there is none.
abbrev pub Allocated : List ℕ → Pages → ℕ × Pages → Type 0
Allocated [] s r = (r.0 ≡ 0) × (r.1 ≡ s)
Allocated (x ∷ xs) s r = (r.0 ≡ x) × (x ≢ 0) × IsFree r.1 xs × (r.1.mem ≡ s.mem)

-- With the pages `xs` on the free list, `alloc_page` returns NULL and changes nothing if `xs` is
-- empty; otherwise it returns the first of them, which is not NULL, leaves the others on the
-- list, and writes no memory.
pub alloc_page_lem : (s : Pages) (xs : List ℕ) → IsFree s xs → Allocated xs s (alloc_page s)
unfolding alloc_page
alloc_page_lem s [] f = rw f.chain (refl, refl)
alloc_page_lem s (x ∷ xs) f =
    let test : (s.freelist == 0) ≡ false = ground (arith, f.chain.0, f.chain.1) in
    rw test (
      f.chain.0,
      f.chain.1,
      record { chain = rw f.chain.0 f.chain.2; distinct = f.distinct.1 },
      refl,
    )

-- The same for a free list that is not empty, with the state written out.
pub alloc_page_first :
    (s : Pages) (x : ℕ) (xs : List ℕ)
    → IsFree s (x ∷ xs)
    → (alloc_page s ≡ (x, record { mem = s.mem; freelist = s.mem x }))
      × (x ≢ 0)
      × IsFree (record { mem = s.mem; freelist = s.mem x }) xs
unfolding alloc_page
alloc_page_first s x xs f =
    let test : (s.freelist == 0) ≡ false = ground (arith, f.chain.0, f.chain.1) in
    (rw (test, f.chain.0), f.chain.1, record { chain = f.chain.2; distinct = f.distinct.1 })

-- `free_page` of a page that is not NULL and not on the free list puts it at the front.
pub free_page_lem :
    (page : ℕ) (s : Pages) (xs : List ℕ)
    → IsFree s xs
    → page ≢ 0
    → NotIn page xs
    → IsFree (free_page page s) (page ∷ xs)
unfolding free_page
free_page_lem page s xs f nz new = record {
  chain =
      let self : write_word page s.freelist s.mem page ≡ s.freelist = ground arith in
      (
        refl,
        nz,
        rw self (
            Chain-frame s.mem (write_word page s.freelist s.mem) s.freelist xs
              (SameAt-write_word page s.freelist s.mem xs new) f.chain),
      );
  distinct = (new, f.distinct);
}
