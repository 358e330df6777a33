-- ===== src/Ept/Loop.antt =====
-- The loop of `install_ept_entry`, by its rounds.
use native.Mathlib.Decide.{ℕ_discrete}
use asor.Base.{
  ℕ, zero, suc, ◌+◌, ◌-◌, ◌/◌, ◌%◌, ◌≤◌, ◌<◌, ◌≡◌, refl, ap, subst, sym, ◌∙◌, bit_and, inl, inr,
  true, false, some, List, [], ◌∷◌, length, ◌==◌, if◌then◌else◌, Bool-cases, arith,
}
use asor.PageAlloc.{Pages}
use asor.Memory.{Memory}
use asor.Ept.{ept_present, ept_large_page, make_table, install_loop}
use asor.Ept.Walk.{span, present, large, addr, slot, translate, entry_addr-slot}
use asor.Ept.Access.{AllAllow}
use asor.Ept.Tables.{Owner, Tables, IsMapped, OnPath, path_index, translate-OnPath}
use asor.Ept.Descend.{Descends, Descends-table, slot_same, translate_through}
use asor.Ept.Final.{
  IsLeaf, Grants, leaf?, written, written_path, written_allows, written-IsMapped, written_maps,
}
use asor.Ept.Level.{make_table_lem}
use asor.Ept.Reach.{Reaches, Room, same_up}

-- The state after the rounds from the table `pt` of `l` down to `f`.
pub record Installed (l f pt pre ga pte : ℕ) (s : Pages) (owner : Owner) (s' : Pages)
    (owner' : Owner) (xs' : List ℕ) : Type 0 where
  pub mapped : IsMapped s' owner' xs'
  pub kept : (p : ℕ) {v : ℕ × ℕ} → owner p ≡ some v → owner' p ≡ some v
  pub path : OnPath owner l ga s.mem s'.mem
  pub allows :
      (perm : ℕ)
      → perm < 8
      → Grants f pte perm
      → AllAllow perm s.mem owner
      → AllAllow perm s'.mem owner'
  pub maps :
      (ga' : ℕ)
      → pre ≡ ga' / span (suc l)
      → translate l s'.mem pt ga'
        ≡ (if ga' / span f == ga / span f then leaf? f pte ga' else translate l s.mem pt ga')
  pub reached : (d : ℕ) → d + f ≡ l → Reaches d l s'.mem pt ga

pub no_way : (d f : ℕ) (mem : Memory) (pt ga : ℕ) → d + f ≡ f → Reaches d f mem pt ga
no_way zero f mem pt ga e = tt
no_way (suc d) f mem pt ga e = absurd (omega arith)

abbrev pub Installs : ℕ → ℕ → ℕ → ℕ → ℕ → ℕ → ℕ → ℕ → Pages → Owner → List ℕ → Type 0
Installs c d l f pt pre ga pte s owner xs =
    (s' : Pages) × (owner' : Owner) × (xs' : List ℕ) × (install_loop d (suc l) pt ga pte 0 s
      ≡ some s')
    × Installed l f pt pre ga pte s owner s' owner' xs'
    × (length xs ≤ length xs' + c)

install_last :
    (f pt pre ga pte : ℕ) (s : Pages) (owner : Owner) (xs : List ℕ)
    → IsMapped s owner xs
    → owner pt ≡ some (f, pre)
    → pre ≡ ga / span (suc f)
    → IsLeaf f pte
    → Installs 0 0 f f pt pre ga pte s owner xs
unfolding install_loop
install_last f pt pre ga pte s owner xs m own prefix ok = (
  record s { mem = written f pt pre ga pte s owner xs m own prefix ok },
  owner,
  xs,
  rw (entry_addr-slot f pt ga),
  record {
    mapped = written-IsMapped f pt pre ga pte s owner xs m own prefix ok;
    kept = λ p {v} o. o;
    path = written_path f pt pre ga pte s owner xs m own prefix ok;
    allows = λ perm lt g all. written_allows f pt pre ga pte s owner xs m own prefix ok perm g all;
    maps = written_maps f pt pre ga pte s owner xs m own prefix ok;
    reached = λ d e. no_way d f _ pt ga e;
  },
  omega arith,
)

-- A round, and the rounds below it.
pub Installed-round :
    (d k f pt pre ga pte : ℕ) (s s1 s' : Pages) (owner owner1 owner' : Owner) (xs1 xs' : List ℕ)
    → d + f ≡ k
    → Tables s.mem owner
    → owner pt ≡ some (suc k, pre)
    → pre ≡ ga / span (suc (suc k))
    → Descends k pt ga s owner s1 owner1 xs1
    → Installed k f
        (addr (s1.mem (slot (suc k) pt ga)))
        (ga / span (suc k))
        ga
        pte
        s1
        owner1
        s'
        owner'
        xs'
    → Installed (suc k) f pt pre ga pte s owner s' owner' xs'
Installed-round d k f pt pre ga pte s s1 s' owner owner1 owner' xs1 xs' e t own prefix D I =
    record {
      mapped = I.mapped;
      kept = λ p {v} o. I.kept p (D.kept p o);
      path = path;
      allows = λ perm lt g all. I.allows perm lt g (D.allows perm lt all);
      maps = λ ga' e'. elim (ℕ_discrete (ga' / span (suc k)) (ga / span (suc k))) [
        | yes same ↦
            let at = slot_same (suc k) pt ga ga' same in
            rw (← D.same ga' same, ← I.maps ga' (sym same))
              (translate_through k s'.mem pt ga' (rw (at, still) D.there) (rw (at, still) D.small)
                ∙ ap (λ (w : ℕ). translate k s'.mem (addr w) ga') (ap s'.mem at ∙ still))
        | no off ↦
            let far : (ga' / span f == ga / span f) ≡ false =
              elim (Bool-cases (ga' / span f == ga / span f)) [
                | inl near ↦
                    absurd (off (same_up (suc d) (suc k) f ga' ga (omega arith) (ground arith)))
                | inr n ↦ n
              ] in
            rw far
              (translate-OnPath (suc k) s.mem s'.mem owner (suc k) ga ga' pt pre t path own e' off)
      ];
      reached = reached;
    }
  where
    still : s'.mem (slot (suc k) pt ga) ≡ s1.mem (slot (suc k) pt ga)
    still = elim (I.path pt (suc k) pre (ga / span (suc k) % 512) (D.kept pt own) (omega arith)) [
      | inl same ↦ same
      | inr on ↦ absurd (omega (arith, on.0))
    ]

    path : OnPath owner (suc k) ga s.mem s'.mem
    path p m pre' i o hi = elim (D.path p m pre' i o hi) [
      | inr on ↦ inr on
      | inl same1 ↦ elim (I.path p m pre' i (D.kept p o) hi) [
        | inr on ↦ inr (omega (arith, on.0), on.1)
        | inl same2 ↦ inl (same2 ∙ same1)
      ]
    ]

    reached : (d' : ℕ) → d' + f ≡ suc k → Reaches d' (suc k) s'.mem pt ga
    reached zero e' = tt
    reached (suc d') e' = (
      ap present still ∙ D.there,
      ap large still ∙ D.small,
      subst (λ (w : ℕ). Reaches d' k s'.mem (addr w) ga) (sym still) (I.reached d' (omega arith)),
    )

-- A round, with the rounds below it.
install_next :
    (c c' d k f pt pre ga pte : ℕ) (s s1 : Pages) (owner owner1 : Owner) (xs xs1 : List ℕ)
    → d + f ≡ k
    → IsMapped s owner xs
    → owner pt ≡ some (suc k, pre)
    → pre ≡ ga / span (suc (suc k))
    → make_table (slot (suc k) pt ga) (suc (suc k)) 0 s ≡ some (0, s1)
    → Descends k pt ga s owner s1 owner1 xs1
    → length xs + c' ≤ length xs1 + c
    → Installs c' d k f
        (addr (s1.mem (slot (suc k) pt ga)))
        (ga / span (suc k))
        ga
        pte
        s1
        owner1
        xs1
    → Installs c (suc d) (suc k) f pt pre ga pte s owner xs
unfolding install_loop
install_next c c' d k f pt pre ga pte s s1 owner owner1 xs xs1 e m own prefix run1 D len1 below =
    let (s', owner', xs', run2, I, len2) = below in
    let lv : suc (suc k) - 1 ≡ suc k = omega arith in
    (
      s',
      owner',
      xs',
      rw (entry_addr-slot (suc k) pt ga, run1, lv) run2,
      Installed-round d k f pt pre ga pte s s1 s' owner owner1 owner' xs1 xs' e m.tables own prefix
          D I,
      omega arith,
    )

pub round-owner :
    (k pt pre ga : ℕ) (s s1 : Pages) (owner owner1 : Owner) (xs1 : List ℕ)
    → owner pt ≡ some (suc k, pre)
    → pre ≡ ga / span (suc (suc k))
    → Descends k pt ga s owner s1 owner1 xs1
    → owner1 (addr (s1.mem (slot (suc k) pt ga))) ≡ some (k, ga / span (suc k))
round-owner k pt pre ga s s1 owner owner1 xs1 own prefix D =
    (D.mapped.tables pt (suc k) pre (D.kept pt own)).child (ga / span (suc k) % 512) k (omega arith)
      refl D.there D.small
    ∙ ap (λ (t : ℕ). some (k, t)) (path_index (suc k) pre ga prefix)

make_table_there :
    (k pt ga : ℕ) (s : Pages)
    → present (s.mem (slot (suc k) pt ga)) ≡ true
    → large (s.mem (slot (suc k) pt ga)) ≡ false
    → make_table (slot (suc k) pt ga) (suc (suc k)) 0 s ≡ some (0, s)
unfolding make_table
make_table_there k pt ga s there small =
    let e = s.mem (slot (suc k) pt ga) in
    let t : (bit_and e ept_present == 0) ≡ false = ground arith in
    let b : (bit_and e ept_large_page == 0) ≡ true = ground arith in rw (t, b)

pub install_loop_lem :
    (c d l f pt pre ga pte : ℕ) (s : Pages) (owner : Owner) (xs : List ℕ)
    → d + f ≡ l
    → Room c d l s.mem pt ga xs
    → IsMapped s owner xs
    → owner pt ≡ some (l, pre)
    → pre ≡ ga / span (suc l)
    → IsLeaf f pte
    → Installs c d l f pt pre ga pte s owner xs
install_loop_lem c zero l f pt pre ga pte s owner xs e room m own prefix ok =
    let el : l ≡ f = omega arith in
    let ec : c ≡ 0 = elim room [ inl (same, h) ↦ same | inr (same, h) ↦ same ] in
    rw (ec, el) (install_last f pt pre ga pte s owner xs m (rw el at own) (rw el at prefix) ok)
install_loop_lem c (suc d) zero f pt pre ga pte s owner xs e room m own prefix ok =
    absurd (omega arith)
install_loop_lem c (suc d) (suc k) f pt pre ga pte s owner xs e
      (inr (none_new, (there, small, way))) m own prefix ok =
    let D = Descends-table k pt pre ga s owner xs m there small in
    install_next c c d k f pt pre ga pte s s owner owner xs xs (omega arith) m own prefix
      (make_table_there k pt ga s there small) D (omega arith)
      (install_loop_lem c d k f (addr (s.mem (slot (suc k) pt ga))) (ga / span (suc k)) ga pte s
        owner xs (omega arith) (inr (none_new, way)) D.mapped
        (round-owner k pt pre ga s s owner owner xs own prefix D) refl ok)
install_loop_lem c (suc d) (suc k) f pt pre ga pte s owner [] e (inl (all_new, room)) m own prefix
      ok =
    absurd (omega arith)
install_loop_lem c (suc d) (suc k) f pt pre ga pte s owner (q ∷ xs) e (inl (all_new, room)) m own
      prefix ok =
    let (s1, owner1, xs1, run1, D, len1) = make_table_lem k pt pre ga q s owner xs m own prefix in
    install_next c d d k f pt pre ga pte s s1 owner owner1 (q ∷ xs) xs1 (omega arith) m own prefix
      run1 D (omega arith)
      (install_loop_lem d d k f (addr (s1.mem (slot (suc k) pt ga))) (ga / span (suc k)) ga pte s1
        owner1 xs1 (omega arith) (inl (refl, omega arith)) D.mapped
        (round-owner k pt pre ga s s1 owner owner1 xs1 own prefix D) refl ok)
