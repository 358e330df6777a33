-- ===== src/SetupEpt/Root.antt =====
-- A free page that is cleared is a root table that maps nothing.
use asor.Base.{
  ℕ, ◌+◌, ◌*◌, ◌%◌, ◌^◌, ◌<◌, ◌≡◌, refl, ap, subst, sym, ◌∙◌, inl, inr, true, false, Option, none,
  some, List, [], ◌∷◌, ◌==◌, if◌then◌else◌, Bool-cases, arith,
}
use asor.Memory.{Memory, zero_page}
use asor.PageAlloc.{Pages}
use asor.PageAlloc.Chain.{IsFree, NotIn, SameAt, Chain-frame, alloc_page_first}
use asor.Ept.Walk.{present, slot, translate}
use asor.Ept.Access.{AllAllow}
use asor.Ept.Tables.{Owner, IsTable, Spare, IsMapped}

-- No page is a table.
abbrev pub unowned : Owner
unowned p = none

abbrev pub root_at : ℕ → Owner
root_at q p = if p == q then some (3, 0) else none

some_pair :
    (x l y pre : ℕ) → ◌≡◌ {A = Option (ℕ × ℕ)} (some (x, y)) (some (l, pre)) → (x ≡ l) × (y ≡ pre)
some_pair x l y pre e = (cc, cc)

pub root_owner : (q p l pre : ℕ) → root_at q p ≡ some (l, pre) → (p ≡ q) × (3 ≡ l) × (0 ≡ pre)
root_owner q p l pre h = elim (Bool-cases (p == q)) [
  | inl hit ↦ let (e, e') = some_pair 3 l 0 pre (rw hit at h) in (ground arith, e, e')
  | inr off ↦ absurd (none_some (rw off at h))
]
  where
    none_some : ◌≡◌ {A = Option (ℕ × ℕ)} none (some (l, pre)) → ⊥
    none_some e = cc

pub cleared : (q i : ℕ) (mem : Memory) → i < 512 → zero_page q mem (q + 8 * i) ≡ 0
cleared q i mem h = ground arith

cleared_absent :
    (q i : ℕ) (mem : Memory) → i < 512 → present (zero_page q mem (q + 8 * i)) ≡ true → ⊥
cleared_absent q i mem h there =
    let bad : false ≡ true = sym (ap present (cleared q i mem h)) ∙ there in ground arith

root-IsTable :
    (q : ℕ) (mem : Memory)
    → q % 2 ^ 12 ≡ 0
    → q < 2 ^ 52
    → IsTable (zero_page q mem) (root_at q) q 3 0
root-IsTable q mem al lo = record {
  aligned = al;
  low = lo;
  level = omega arith;
  child = λ i k h e there small. absurd (cleared_absent q i mem h there);
  big = λ i h there large. absurd (cleared_absent q i mem h there);
}

-- Other pages keep their words, and stay spare.
others_kept :
    (q : ℕ) (mem : Memory) (xs : List ℕ)
    → q % 2 ^ 12 ≡ 0
    → NotIn q xs
    → Spare unowned xs
    → SameAt mem (zero_page q mem) xs × Spare (root_at q) xs
others_kept q mem [] al ne sp = (tt, tt)
others_kept q mem (x ∷ xs) al (ne, nes) (un, alx, lo, sp) =
    let (same, spare) = others_kept q mem xs al nes sp in
    let off : (x == q) ≡ false = ground arith in
    ((ground arith, same), (rw off refl, alx, lo, spare))

-- With `q` at the head of the free list.
pub root-IsMapped :
    (s : Pages) (q : ℕ) (xs : List ℕ)
    → IsFree s (q ∷ xs)
    → Spare unowned (q ∷ xs)
    → IsMapped (record { mem = zero_page q s.mem; freelist = s.mem q }) (root_at q) xs
root-IsMapped s q xs f (un, al, lo, sp) =
    let (run, nz, rest) = alloc_page_first s q xs f in
    let (same, spare) = others_kept q s.mem xs al f.distinct.0 sp in
    record {
      tables = λ p l pre h.
          let (ep, el, epre) = root_owner q p l pre h in
          rw (ep, sym el, sym epre) (root-IsTable q s.mem al lo);
      free = record {
        chain = Chain-frame s.mem (zero_page q s.mem) (s.mem q) xs same rest.chain;
        distinct = f.distinct.1;
      };
      spare = spare;
    }

pub root-AllAllow : (perm q : ℕ) (mem : Memory) → AllAllow perm (zero_page q mem) (root_at q)
root-AllAllow perm q mem p l pre i o nz hi pr =
    let (e, el, epre) = root_owner q p l pre o in
    absurd (
      cleared_absent q i mem hi
        (subst (λ (t : ℕ). present (zero_page q mem (t + 8 * i)) ≡ true) e pr))

pub root_owner_at : (q : ℕ) → root_at q q ≡ some (3, 0)
root_owner_at q = let on : (q == q) ≡ true = ground arith in rw on refl

pub translate-root : (q ga : ℕ) (mem : Memory) → translate 3 (zero_page q mem) q ga ≡ none
unfolding translate
translate-root q ga mem =
    let absent : zero_page q mem (slot 3 q ga) ≡ 0 = cleared q _ mem (omega arith) in rw absent refl
