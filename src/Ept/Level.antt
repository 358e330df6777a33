-- ===== src/Ept/Level.antt =====
-- One round of the loop of `install_ept_entry`: the entry of a level comes to lead to a table.
use asor.Base.{
  ℕ, suc, ◌/◌, ◌%◌, ◌≤◌, ◌<◌, ◌≡◌, inl, inr, bit_and, true, false, some, List, ◌∷◌, length, ◌==◌,
  Bool-cases, arith,
}
use asor.PageAlloc.{Pages}
use asor.PageAlloc.Chain.{alloc_page_first}
use asor.Ept.{ept_present, ept_large_page, make_table}
use asor.Ept.Walk.{span, present, large, slot}
use asor.Ept.Tables.{Owner, IsMapped}
use asor.Ept.Split.{split_memory, split_run}
use asor.Ept.Descend.{Descends, Descends-table, Descends-absent, grown, claimed, hook_memory}
use asor.Ept.Round.{Descends-split}

-- One round, whichever of its three branches is taken.
abbrev Rounds : ℕ → ℕ → ℕ → Pages → Owner → List ℕ → Type 0
Rounds k pt ga s owner xs =
    (s1 : Pages) × (owner1 : Owner) × (xs1 : List ℕ) × (make_table (slot (suc k) pt ga)
        (suc (suc k)) 0 s
      ≡ some (0, s1))
    × Descends k pt ga s owner s1 owner1 xs1
    × (length xs ≤ length xs1)

pub make_table_lem :
    (k pt pre ga q : ℕ) (s : Pages) (owner : Owner) (xs : List ℕ)
    → IsMapped s owner (q ∷ xs)
    → owner pt ≡ some (suc k, pre)
    → pre ≡ ga / span (suc (suc k))
    → Rounds k pt ga s owner xs
unfolding make_table
make_table_lem k pt pre ga q s owner xs m own prefix =
    let e = s.mem (slot (suc k) pt ga) in
    elim (Bool-cases (present e)) [
      | inr absent ↦
          let t : (bit_and e ept_present == 0) ≡ true = ground arith in
          (
            grown k pt pre ga q s owner xs m own prefix (hook_memory q (slot (suc k) pt ga) s.mem),
            claimed k pt pre ga q s owner xs m own prefix,
            xs,
            rw (t, (alloc_page_first s q xs m.free).0),
            Descends-absent k pt pre ga q s owner xs m own prefix absent,
            omega arith,
          )
      | inl there ↦
          let t : (bit_and e ept_present == 0) ≡ false = ground arith in
          elim (Bool-cases (large e)) [
            | inl big ↦
                let b : (bit_and e ept_large_page == 0) ≡ false = ground arith in
                let t' = m.tables pt (suc k) pre own in
                let lt : k < 2 =
                  omega (
                    arith,
                    (t'.big (ga / span (suc k) % 512) (omega arith) there big).0,
                    t'.level,
                  ) in
                (
                  grown k pt pre ga q s owner xs m own prefix
                      (split_memory k e q (slot (suc k) pt ga) s.mem),
                  claimed k pt pre ga q s owner xs m own prefix,
                  xs,
                  rw (t, b, split_run (slot (suc k) pt ga) k q xs s m.free lt there big),
                  Descends-split k pt pre ga q s owner xs m own prefix there big,
                  omega arith,
                )
            | inr small ↦
                let b : (bit_and e ept_large_page == 0) ≡ true = ground arith in
                (
                  s,
                  owner,
                  q ∷ xs,
                  rw (t, b),
                  Descends-table k pt pre ga s owner (q ∷ xs) m there small,
                  omega arith,
                )
          ]
    ]
