-- ===== src/Ept/Final.antt =====
-- The write behind the loop of `install_ept_entry`: one entry becomes a leaf.
use native.Mathlib.Decide.{ℕ_discrete}
use asor.Base.{
  ℕ, suc, ◌+◌, ◌*◌, ◌/◌, ◌%◌, ◌<◌, ◌≡◌, ap, ◌≢◌, ◌∙◌, ◌⊎◌, inl, inr, true, false, Option, none,
  some, List, [], ◌∷◌, ◌==◌, if◌then◌else◌, Bool-cases, arith,
}
use asor.Memory.{Memory, write_word}
use asor.PageAlloc.{Pages}
use asor.PageAlloc.Chain.{SameAt, Chain-frame}
use asor.Ept.Walk.{span, present, large, addr, slot, translate, leaf, Leaf}
use asor.Ept.Access.{Allows, AllAllow}
use asor.Ept.Tables.{Owner, IsTable, Spare, IsMapped, OnPath, path_index, translate-OnPath}
use asor.Ept.Grow.{slots_differ, some_ne_none, one_owner}
use asor.Ept.Descend.{slot_same, translate-leaf, translate_absent}

-- An entry that maps memory at `f`, or nothing.
pub record IsLeaf (f pte : ℕ) : Type 0 where
  pub large_above : present pte ≡ true → (f ≡ 0) ⊎ (large pte ≡ true)
  pub big : present pte ≡ true → large pte ≡ true → (f ≢ 3) × (addr pte % span f ≡ 0)

-- What an entry says of an address for which it is.
abbrev pub leaf? : ℕ → ℕ → ℕ → Option Leaf
leaf? f pte ga = if present pte then some (leaf f pte ga) else none

-- An entry of level 2 or more that is present allows `perm`.
abbrev pub Grants : ℕ → ℕ → ℕ → Type 0
Grants f pte perm = f ≢ 0 → present pte ≡ true → Allows perm pte

module _ (f pt pre ga pte : ℕ) (s : Pages) (owner : Owner) (xs : List ℕ) (m : IsMapped s owner xs)
    (own : owner pt ≡ some (f, pre)) (prefix : pre ≡ ga / span (suc f)) (ok : IsLeaf f pte) where
  abbrev pub written : Memory
  written = write_word (slot f pt ga) pte s.mem

  at_slot :
      (p l pre' i : ℕ)
      → owner p ≡ some (l, pre')
      → i < 512
      → p + 8 * i ≡ slot f pt ga
      → (l ≡ f) × (pre' * 512 + i ≡ ga / span f)
  at_slot p l pre' i o hi e =
      let d =
        slots_differ p pt i (ga / span f % 512) (m.tables p l pre' o).aligned
          (m.tables pt f pre own).aligned hi (omega arith) e in
      let w = one_owner owner p pt l f pre' pre o own d.0 in
      (w.0, omega (arith, path_index f pre ga prefix, d.1, w.1))

  pub written_path : OnPath owner f ga s.mem written
  written_path p l pre' i o hi = elim (ℕ_discrete (p + 8 * i) (slot f pt ga)) [
    | yes e ↦ let h = at_slot p l pre' i o hi e in inr (omega (arith, h.0), rw h.0 h.1)
    | no ne ↦ inl (ground arith)
  ]

  written-IsTable : (p l pre' : ℕ) → owner p ≡ some (l, pre') → IsTable written owner p l pre'
  written-IsTable p l pre' o =
      let t = m.tables p l pre' o in
      record {
        aligned = t.aligned;
        low = t.low;
        level = t.level;
        child = λ i k hi e pr sm. elim (ℕ_discrete (p + 8 * i) (slot f pt ga)) [
          | yes eq ↦
              let here : written (p + 8 * i) ≡ pte = ground arith in
              let h = at_slot p l pre' i o hi eq in
              elim (ok.large_above (rw here at pr)) [
                | inl z ↦ absurd (omega (arith, h.0))
                | inr lg ↦ let sm' : large pte ≡ false = (rw here at sm) in cc
              ]
          | no ne ↦
              let there : written (p + 8 * i) ≡ s.mem (p + 8 * i) = ground arith in
              rw there (t.child i k hi e (rw there at pr) (rw there at sm))
        ];
        big = λ i hi pr lg. elim (ℕ_discrete (p + 8 * i) (slot f pt ga)) [
          | yes eq ↦
              let here : written (p + 8 * i) ≡ pte = ground arith in
              let h = at_slot p l pre' i o hi eq in
              rw (here, h.0) (ok.big (rw here at pr) (rw here at lg))
          | no ne ↦
              let there : written (p + 8 * i) ≡ s.mem (p + 8 * i) = ground arith in
              rw there (t.big i hi (rw there at pr) (rw there at lg))
        ];
      }

  written-Spare : (ys : List ℕ) → Spare owner ys → SameAt s.mem written ys
  written-Spare [] sp = tt
  written-Spare (y ∷ ys) sp =
      let y_pt : pt ≢ y = some_ne_none owner own sp.0 in
      let ne : slot f pt ga ≢ y = omega (arith, sp.1, (m.tables pt f pre own).aligned) in
      (ground arith, written-Spare ys sp.3)

  pub written-IsMapped : IsMapped (record s { mem = written }) owner xs
  written-IsMapped = record {
    tables = written-IsTable;
    free = record {
      chain = Chain-frame s.mem written s.freelist xs (written-Spare xs m.spare) m.free.chain;
      distinct = m.free.distinct;
    };
    spare = m.spare;
  }

  pub written_allows :
      (perm : ℕ) → Grants f pte perm → AllAllow perm s.mem owner → AllAllow perm written owner
  written_allows perm grants all p l pre' i o nz hi pr =
      elim (ℕ_discrete (p + 8 * i) (slot f pt ga)) [
        | yes eq ↦
            let here : written (p + 8 * i) ≡ pte = ground arith in
            let h = at_slot p l pre' i o hi eq in
            rw here (grants (λ z. nz (omega (arith, h.0))) (rw here at pr))
        | no ne ↦
            let there : written (p + 8 * i) ≡ s.mem (p + 8 * i) = ground arith in
            rw there (all p l pre' i o nz hi (rw there at pr))
      ]

  pub written_maps :
      (ga' : ℕ)
      → pre ≡ ga' / span (suc f)
      → translate f written pt ga'
        ≡ (if ga' / span f == ga / span f then leaf? f pte ga' else translate f s.mem pt ga')
  written_maps ga' e' = elim (Bool-cases (ga' / span f == ga / span f)) [
    | inl same ↦
        let here : written (slot f pt ga') ≡ pte =
          ap written (slot_same f pt ga ga' (ground arith)) ∙ ground arith in
        rw same (elim (Bool-cases (present pte)) [
          | inl pr ↦ rw pr (
              translate-leaf f written pt ga' (rw here pr) (rw here (ok.large_above pr))
              ∙ ap (λ (w : ℕ). some (leaf f w ga')) here)
          | inr ab ↦ rw ab (translate_absent f written pt ga' (rw here ab))
        ])
    | inr off ↦ rw off (
        translate-OnPath f s.mem written owner f ga ga' pt pre m.tables written_path own e'
          (ground arith))
  ]
