-- ===== src/Ept/Cost.antt =====
-- The tables that a range of pages needs: three at most for each 512 pages of a size.
use native.Mathlib.Decide.{ℕ_discrete}
use asor.Base.{
  ℕ, zero, suc, ◌+◌, ◌*◌, ◌/◌, ◌%◌, ◌^◌, ◌≤◌, ◌<◌, ◌≡◌, ◌≢◌, ◌⊎◌, inl, inr, ◌-◌, ap, refl, ◌∙◌,
  List, length, ◌==◌, if◌then◌else◌, arith,
}
use asor.PageAlloc.{Pages}
use asor.Ept.Walk.{span}
use asor.Ept.Reach.{Reaches, Room, Reaches-same}

-- The tables that the page at `phys` may need: none, when the page before it is in the same table.
abbrev pub start_cost : ℕ → ℕ → ℕ
start_cost f phys = if phys % span (suc f) == 0 then 3 else 0

unfoldable pub total_cost : ℕ → ℕ → ℕ → ℕ
total_cost f phys zero = 0
total_cost f phys (suc n) = start_cost f phys + total_cost f (phys + span f) n

-- At the start of a table, or with the way down to it.
abbrev pub IsWalked : ℕ → ℕ → ℕ → Pages → Type 0
IsWalked f pml4 phys s = (phys % span (suc f) ≡ 0) ⊎ Reaches (3 - f) 3 s.mem pml4 phys

next_region :
    (f phys : ℕ)
    → f < 3
    → phys % span f ≡ 0
    → (phys + span f) % span (suc f) ≢ 0
    → (phys + span f) / span (suc f) ≡ phys / span (suc f)
unfolding span
next_region zero phys hf al ne = omega arith
next_region (suc zero) phys hf al ne = omega arith
next_region (suc (suc zero)) phys hf al ne = omega arith
next_region (suc (suc (suc f))) phys hf al ne = absurd (omega arith)

pub step-IsWalked :
    (f pml4 phys : ℕ) (s : Pages)
    → f < 3
    → phys % span f ≡ 0
    → Reaches (3 - f) 3 s.mem pml4 phys
    → IsWalked f pml4 (phys + span f) s
step-IsWalked f pml4 phys s hf al way = elim (ℕ_discrete ((phys + span f) % span (suc f)) 0) [
  | yes start ↦ inl start
  | no within ↦ inr (
      Reaches-same (3 - f) 3 f s.mem pml4 phys (phys + span f) (omega arith)
        (next_region f phys hf al within) way)
]

-- The cost of a page as room for its tables.
pub cost-Room :
    (f pml4 phys : ℕ) (s : Pages) (xs : List ℕ)
    → IsWalked f pml4 phys s
    → start_cost f phys ≤ length xs
    → (c : ℕ) × (c ≤ start_cost f phys) × Room c (3 - f) 3 s.mem pml4 phys xs
cost-Room f pml4 phys s xs walked room = elim (ℕ_discrete (phys % span (suc f)) 0) [
  | yes start ↦
      let three : start_cost f phys ≡ 3 = ground arith in
      (3 - f, omega arith, inl (refl, omega arith))
  | no within ↦ elim walked [
    | inl start ↦ absurd (within start)
    | inr way ↦ (0, omega arith, inr (refl, way))
  ]
]

-- Pages from the multiple `j` of their size on: three tables at most for each 512 of them.
start_at : (f j : ℕ) → f < 3 → start_cost f (j * span f) ≡ (if j % 512 == 0 then 3 else 0)
unfolding span
start_at zero j hf = let e : (j * 2 ^ 12 % 2 ^ 21 == 0) ≡ (j % 512 == 0) = ground arith in rw e refl
start_at (suc zero) j hf =
    let e : (j * 2 ^ 21 % 2 ^ 30 == 0) ≡ (j % 512 == 0) = ground arith in rw e refl
start_at (suc (suc zero)) j hf =
    let e : (j * 2 ^ 30 % 2 ^ 39 == 0) ≡ (j % 512 == 0) = ground arith in rw e refl
start_at (suc (suc (suc f))) j hf = absurd (omega arith)

pub total_cost_lem :
    (n f j phys : ℕ)
    → f < 3
    → phys ≡ j * span f
    → total_cost f phys n + 3 * ((j + 511) / 512) ≤ 3 * ((j + n + 511) / 512)
unfolding total_cost
total_cost_lem zero f j phys hf e = omega arith
total_cost_lem (suc n) f j phys hf e =
    let rest = total_cost_lem n f (j + 1) (phys + span f) hf (omega arith) in
    let first : start_cost f phys ≡ (if j % 512 == 0 then 3 else 0) =
      ap (λ (p : ℕ). start_cost f p) e ∙ start_at f j hf in
    elim (ℕ_discrete (j % 512) 0) [
      | yes start ↦ let three : start_cost f phys ≡ 3 = first ∙ ground arith in omega arith
      | no within ↦ let free : start_cost f phys ≡ 0 = first ∙ ground arith in omega arith
    ]
