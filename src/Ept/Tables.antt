-- ===== src/Ept/Tables.antt =====
-- Well-formed tables. A ghost map says for each page of memory whether it is a table, of which
-- level, and for which range of guest addresses: its prefix, the address divided by the span of the
-- level above. So no table is reached by two ways, and no free page is a table.
use asor.Base.{
  ℕ, zero, suc, ◌+◌, ◌*◌, ◌/◌, ◌%◌, ◌^◌, ◌≤◌, ◌<◌, ◌≡◌, refl, ap, sym, ◌≢◌, ◌∙◌, ◌⊎◌, inl, inr,
  true, false, Option, none, some, List, [], ◌∷◌, Bool-cases, arith,
}
use asor.Memory.{Memory}
use asor.PageAlloc.{Pages}
use asor.PageAlloc.Chain.{IsFree}
use asor.Ept.Walk.{span, present, large, addr, slot, translate, div-span-suc}

abbrev pub Owner : Type 0
Owner = ℕ → Option (ℕ × ℕ)

pub record IsTable (mem : Memory) (owner : Owner) (p l pre : ℕ) : Type 0 where
  pub aligned : p % 2 ^ 12 ≡ 0
  pub low : p < 2 ^ 52
  pub level : l < 4
  pub child :
      (i k : ℕ)
      → i < 512
      → l ≡ suc k
      → present (mem (p + 8 * i)) ≡ true
      → large (mem (p + 8 * i)) ≡ false
      → owner (addr (mem (p + 8 * i))) ≡ some (k, pre * 512 + i)
  pub big :
      (i : ℕ)
      → i < 512
      → present (mem (p + 8 * i)) ≡ true
      → large (mem (p + 8 * i)) ≡ true
      → (l ≢ 3) × (addr (mem (p + 8 * i)) % span l ≡ 0)

abbrev pub Spare : Owner → List ℕ → Type 0
Spare owner [] = Unit {0}
Spare owner (x ∷ xs) = (owner x ≡ none) × (x % 2 ^ 12 ≡ 0) × (x < 2 ^ 52) × Spare owner xs

abbrev pub Tables : Memory → Owner → Type 0
Tables mem owner = (p l pre : ℕ) → owner p ≡ some (l, pre) → IsTable mem owner p l pre

-- The tables, and the pages `xs` that are free to become tables.
pub record IsMapped (s : Pages) (owner : Owner) (xs : List ℕ) : Type 0 where
  pub tables : Tables s.mem owner
  pub free : IsFree s xs
  pub spare : Spare owner xs

-- Of the entries of tables, at most those on the way of `ga` at `l` and below differ.
abbrev pub OnPath : Owner → ℕ → ℕ → Memory → Memory → Type 0
OnPath owner l ga mem mem' =
    (p m pre i : ℕ)
    → owner p ≡ some (m, pre)
    → i < 512
    → (mem' (p + 8 * i) ≡ mem (p + 8 * i)) ⊎ ((m ≤ l) × (pre * 512 + i ≡ ga / span m))

pub path_index :
    (l pre ga : ℕ) → pre ≡ ga / span (suc l) → pre * 512 + ga / span l % 512 ≡ ga / span l
path_index l pre ga e = omega (arith, e, div-span-suc l ga)

pub same_above : (l a b : ℕ) → a / span l ≡ b / span l → a / span (suc l) ≡ b / span (suc l)
same_above l a b e = div-span-suc l a ∙ ap (λ (t : ℕ). t / 512) e ∙ sym (div-span-suc l b)

same_entry :
    (k : ℕ) (mem mem' : Memory) (owner : Owner) (l ga ga' p pre : ℕ)
    → OnPath owner l ga mem mem'
    → owner p ≡ some (k, pre)
    → pre ≡ ga' / span (suc k)
    → ga' / span k ≢ ga / span k
    → mem' (slot k p ga') ≡ mem (slot k p ga')
same_entry k mem mem' owner l ga ga' p pre f o e ne =
    elim (f p k pre (ga' / span k % 512) o (omega arith)) [
      | inl same ↦ same
      | inr on ↦ absurd (ne (sym (path_index k pre ga' e) ∙ on.1))
    ]

-- An address that leaves the way of `ga` is translated as before.
pub translate-OnPath :
    (k : ℕ) (mem mem' : Memory) (owner : Owner) (l ga ga' p pre : ℕ)
    → Tables mem owner
    → OnPath owner l ga mem mem'
    → owner p ≡ some (k, pre)
    → pre ≡ ga' / span (suc k)
    → ga' / span k ≢ ga / span k
    → translate k mem' p ga' ≡ translate k mem p ga'
unfolding translate
translate-OnPath zero mem mem' owner l ga ga' p pre t f o e ne =
    rw (same_entry 0 mem mem' owner l ga ga' p pre f o e ne)
translate-OnPath (suc k) mem mem' owner l ga ga' p pre t f o e ne =
    let i = ga' / span (suc k) % 512 in
    let v = mem (p + 8 * i) in
    rw (same_entry (suc k) mem mem' owner l ga ga' p pre f o e ne) (elim (Bool-cases (present v)) [
      | inr absent ↦ rw absent
      | inl there ↦ elim (Bool-cases (large v)) [
        | inl big ↦ rw (there, big)
        | inr small ↦
            rw (there, small)
              (translate-OnPath k mem mem' owner l ga ga' (addr v) (pre * 512 + i) t f
                ((t p (suc k) pre o).child i k (omega arith) refl there small)
                (path_index (suc k) pre ga' e) (λ q. ne (same_above k ga' ga q)))
      ]
    ])
