-- ===== src/Ept/Reach.antt =====
-- Which tables an address has already: the way down from a table, and that another address of the
-- same last table has the same way.
use asor.Base.{
  ℕ, zero, suc, ◌+◌, ◌/◌, ◌≡◌, ◌≤◌, ◌⊎◌, ap, subst, sym, ◌∙◌, true, false, List, length, arith,
}
use asor.Memory.{Memory}
use asor.Ept.Walk.{span, present, large, addr, slot}
use asor.Ept.Tables.{same_above}
use asor.Ept.Descend.{slot_same}

-- The next `d` entries for `ga` lead to tables.
abbrev pub Reaches : ℕ → ℕ → Memory → ℕ → ℕ → Type 0
Reaches zero l mem pt ga = Unit {0}
Reaches (suc d) zero mem pt ga = Unit {0}
Reaches (suc d) (suc k) mem pt ga =
    (present (mem (slot (suc k) pt ga)) ≡ true)
    × (large (mem (slot (suc k) pt ga)) ≡ false)
    × Reaches d k mem (addr (mem (slot (suc k) pt ga))) ga

-- Room for `c` new tables on the way down by `d`: all of them are new, or none is.
abbrev pub Room : ℕ → ℕ → ℕ → Memory → ℕ → ℕ → List ℕ → Type 0
Room c d l mem pt ga xs = ((c ≡ d) × (d ≤ length xs)) ⊎ ((c ≡ 0) × Reaches d l mem pt ga)

pub same_up : (d l f a b : ℕ) → d + f ≡ l → a / span f ≡ b / span f → a / span l ≡ b / span l
same_up zero l f a b e h = let el : l ≡ f = omega arith in rw el h
same_up (suc d) zero f a b e h = absurd (omega arith)
same_up (suc d) (suc l) f a b e h = same_above l a b (same_up d l f a b (omega arith) h)

pub Reaches-same :
    (d l f : ℕ) (mem : Memory) (pt ga ga' : ℕ)
    → d + f ≡ l
    → ga' / span (suc f) ≡ ga / span (suc f)
    → Reaches d l mem pt ga
    → Reaches d l mem pt ga'
Reaches-same zero l f mem pt ga ga' e same r = tt
Reaches-same (suc d) zero f mem pt ga ga' e same r = tt
Reaches-same (suc d) (suc k) f mem pt ga ga' e same (there, small, below) =
    let at : slot (suc k) pt ga' ≡ slot (suc k) pt ga =
      slot_same (suc k) pt ga ga' (same_up d (suc k) (suc f) ga' ga (omega arith) same) in
    (
      ap (λ (a : ℕ). present (mem a)) at ∙ there,
      ap (λ (a : ℕ). large (mem a)) at ∙ small,
      subst (λ (a : ℕ). Reaches d k mem (addr (mem a)) ga') (sym at)
          (Reaches-same d k f mem (addr (mem (slot (suc k) pt ga))) ga ga' (omega arith) same
            below),
    )
