-- ===== src/SetupEpt/Line.antt =====
-- Free pages in a row, for runs that need many: the list of them does not compute.
use asor.Base.{
  ℕ, zero, suc, ◌+◌, ◌*◌, ◌%◌, ◌^◌, ◌≤◌, ◌≡◌, ◌≢◌, refl, subst, true, false, List, [], ◌∷◌,
  append-nil, length, ◌==◌, if◌then◌else◌, arith,
}
use asor.Memory.{Memory, page_size}
use asor.PageAlloc.Chain.{Chain, Distinct, IsFree}
use asor.PageAlloc.Range.{page_run, Distinct-page_run}
use asor.Ept.Tables.{Spare}
use asor.SetupEpt.Root.{unowned}

-- The free pages are those from 4096 up to `last`.
abbrev pub linked : ℕ → Memory
linked last a = if a == last then 0 else a + page_size

linked-Chain :
    (n page last : ℕ)
    → page ≢ 0
    → page + n * page_size ≡ last
    → Chain (linked last) page (page_run page (suc n))
linked-Chain zero page last nz e =
    let on : (page == last) ≡ true = ground arith in (refl, nz, rw on refl)
linked-Chain (suc n) page last nz e =
    let off : (page == last) ≡ false = ground arith in
    (refl, nz, rw off (linked-Chain n (page + page_size) last (omega arith) (omega arith)))

-- The free pages behind the first, as a list that does not compute.
pub free_run : ℕ → ℕ → List ℕ
free_run page n = page_run page n

pub free_run-Spare :
    (n page : ℕ)
    → page % 2 ^ 12 ≡ 0
    → page + n * page_size ≤ 2 ^ 52
    → Spare unowned (free_run page n)
unfolding free_run
free_run-Spare zero page al le = tt
free_run-Spare (suc n) page al le =
    (refl, al, omega arith, free_run-Spare n (page + page_size) (omega arith) (omega arith))

pub length-free_run : (n page : ℕ) → length (free_run page n) ≡ n
unfolding free_run
length-free_run zero page = refl
length-free_run (suc n) page = omega (arith, length-free_run n (page + page_size))

pub linked-IsFree :
    (n page last : ℕ)
    → page ≢ 0
    → page + n * page_size ≡ last
    → IsFree (record { mem = linked last; freelist = page }) (page ∷ free_run (page + page_size) n)
unfolding free_run
linked-IsFree n page last nz e = record {
  chain = linked-Chain n page last nz e;
  distinct =
      subst (λ l. Distinct l) (append-nil (page_run page (suc n)))
        (Distinct-page_run page (suc n) (page + suc n * page_size) [] refl tt tt);
}

-- The same with five pages in front.
pub linked-IsFree_five :
    (n page last : ℕ)
    → page ≢ 0
    → page + (4 + n) * page_size ≡ last
    → IsFree
        (record { mem = linked last; freelist = page })
        (page
          ∷ (page + page_size)
          ∷ (page + page_size + page_size)
          ∷ (page + page_size + page_size + page_size)
          ∷ (page + page_size + page_size + page_size + page_size)
          ∷ free_run (page + page_size + page_size + page_size + page_size + page_size) n)
unfolding free_run
linked-IsFree_five n page last nz e =
    linked-IsFree (suc (suc (suc (suc n)))) page last nz (omega arith)
