-- ===== src/Ept/Rounds.antt =====
-- How often the loops of `setup_ept_range` go round, for the three sizes of pages.
use asor.Base.{ℕ, zero, suc, ◌+◌, ◌-◌, ◌*◌, ◌/◌, ◌%◌, ◌^◌, ◌≤◌, ◌<◌, ◌≡◌, arith}
use asor.Ept.Walk.{span}

-- The number of rounds from `phys` to `max`, and where they end.
pub record Stops (f phys max : ℕ) : Type 0 where
  pub count : ℕ
  pub fits : phys + count * span f ≤ max
  pub stops : max < phys + count * span f + span f
  pub aligned : (phys + count * span f) % span f ≡ 0
  pub pages : count * 2 ^ 12 ≤ count * span f
  pub whole : count * span f % 2 ^ 12 ≡ 0
  pub small : span f < 2 ^ 48
  pub regions : (count + 511) / 512 ≤ (max - phys + (512 * span f - 1)) / (512 * span f)
  pub exact :
      (count + 511) / 512 ≡ (phys + count * span f - phys + (512 * span f - 1)) / (512 * span f)

pub rounds : (f phys max : ℕ) → f < 3 → phys ≤ max → phys % span f ≡ 0 → Stops f phys max
unfolding span
rounds zero phys max hf le al = record {
  count = (max - phys) / 2 ^ 12;
  fits = omega arith;
  stops = omega arith;
  aligned = omega arith;
  pages = omega arith;
  whole = omega arith;
  small = omega arith;
  regions = omega arith;
  exact = omega arith;
}
rounds (suc zero) phys max hf le al = record {
  count = (max - phys) / 2 ^ 21;
  fits = omega arith;
  stops = omega arith;
  aligned = omega arith;
  pages = omega arith;
  whole = omega arith;
  small = omega arith;
  regions = omega arith;
  exact = omega arith;
}
rounds (suc (suc zero)) phys max hf le al = record {
  count = (max - phys) / 2 ^ 30;
  fits = omega arith;
  stops = omega arith;
  aligned = omega arith;
  pages = omega arith;
  whole = omega arith;
  small = omega arith;
  regions = omega arith;
  exact = omega arith;
}
rounds (suc (suc (suc f))) phys max hf le al = absurd (omega arith)

pub region_aligned : (f phys : ℕ) → f < 3 → phys % span (suc f) ≡ 0 → phys % span f ≡ 0
unfolding span
region_aligned zero phys hf al = omega arith
region_aligned (suc zero) phys hf al = omega arith
region_aligned (suc (suc zero)) phys hf al = omega arith
region_aligned (suc (suc (suc f))) phys hf al = absurd (omega arith)

pub index_of : (f phys : ℕ) → f < 3 → phys % span f ≡ 0 → phys ≡ phys / span f * span f
unfolding span
index_of zero phys hf al = omega arith
index_of (suc zero) phys hf al = omega arith
index_of (suc (suc zero)) phys hf al = omega arith
index_of (suc (suc (suc f))) phys hf al = absurd (omega arith)

-- From the start of a table.
pub region_cost :
    (f phys n cost : ℕ)
    → f < 3
    → phys % span (suc f) ≡ 0
    → cost + 3 * ((phys / span f + 511) / 512) ≤ 3 * ((phys / span f + n + 511) / 512)
    → cost ≤ 3 * ((n + 511) / 512)
unfolding span
region_cost zero phys n cost hf al h = omega arith
region_cost (suc zero) phys n cost hf al h = omega arith
region_cost (suc (suc zero)) phys n cost hf al h = omega arith
region_cost (suc (suc (suc f))) phys n cost hf al h = absurd (omega arith)

pub span-suc : (f size : ℕ) → span f ≡ size → span (suc f) ≡ 512 * size
unfolding span
span-suc f size e = omega arith
