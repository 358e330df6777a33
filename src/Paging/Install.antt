-- ===== src/Paging/Install.antt =====
-- `install_pte`: for an address that is not mapped yet, the entry maps its range, and every other
-- address is translated as before.
use asor.Base.{inl, inr, ap, bit_and}
use asor.Base.{
  ℕ, zero, suc, ◌+◌, ◌-◌, ◌*◌, ◌/◌, ◌%◌, ◌^◌, ◌≤◌, ◌<◌, ◌≡◌, refl, subst, sym, ◌∙◌, none, some,
  List, [], ◌∷◌, length, ◌==◌, if◌then◌else◌, arith,
}
use native.Mathlib.Decide.{ℕ_discrete}
use asor.PageAlloc.{Pages}
use asor.Ept.Walk.{span, addr, slot, translate, entry_addr-slot}
use asor.Ept.Access.{access, rights, AllAllow, access-rights}
use asor.Ept.Tables.{Owner, IsMapped}
use asor.Ept.Final.{
  IsLeaf, Grants, leaf?, written, written_path, written_allows, written-IsMapped, written_maps,
}
use asor.Ept.Install.{below_top}
use asor.Ept.Loop.{Installed, Installed-round, no_way, round-owner}
use asor.Paging.{make_directory, install_pte_loop, install_pte}
use asor.Paging.Directory.{IsPlain, AllPlain, make_directory_lem, make_directory_there}
use asor.Ept.Descend.{Descends, Descends-table}
use asor.Ept.Reach.{Reaches, Room}

-- The rounds from the table `pt` of `l` down to `f`.
abbrev Places : ℕ → ℕ → ℕ → ℕ → ℕ → ℕ → ℕ → ℕ → Pages → Owner → List ℕ → Type 0
Places c d l f pt pre ga pte s owner xs =
    (a : ℕ) × (s' : Pages) × (owner' : Owner) × (xs' : List ℕ) × (install_pte_loop d (suc l) pt ga
        pte 0 s
      ≡ (a, s'))
    × Installed l f pt pre ga pte s owner s' owner' xs'
    × (length xs ≤ length xs' + c)
    × AllPlain s'.mem owner'
    × (s'.mem a ≡ pte)

place_last :
    (f pt pre ga pte : ℕ) (s : Pages) (owner : Owner) (xs : List ℕ)
    → IsMapped s owner xs
    → owner pt ≡ some (f, pre)
    → pre ≡ ga / span (suc f)
    → IsLeaf f pte
    → IsPlain pte
    → AllPlain s.mem owner
    → Places 0 0 f f pt pre ga pte s owner xs
unfolding install_pte_loop
place_last f pt pre ga pte s owner xs m own prefix ok plain all =
    let mem = written f pt pre ga pte s owner xs m own prefix ok in
    (
      slot f pt ga,
      record s { mem = mem },
      owner,
      xs,
      rw (entry_addr-slot f pt ga),
      record {
        mapped = written-IsMapped f pt pre ga pte s owner xs m own prefix ok;
        kept = λ p {v} o. o;
        path = written_path f pt pre ga pte s owner xs m own prefix ok;
        allows =
            λ perm lt g all. written_allows f pt pre ga pte s owner xs m own prefix ok perm g all;
        maps = written_maps f pt pre ga pte s owner xs m own prefix ok;
        reached = λ d e. no_way d f _ pt ga e;
      },
      omega arith,
      λ p l pre' i o hi. elim (ℕ_discrete (slot f pt ga) (p + 8 * i)) [
        | yes e ↦ let w : mem (p + 8 * i) ≡ pte = ground arith in subst IsPlain (sym w) plain
        | no ne ↦
            let w : mem (p + 8 * i) ≡ s.mem (p + 8 * i) = ground arith in
            subst IsPlain (sym w) (all p l pre' i o hi)
      ],
      ground arith,
    )

-- A round, with the rounds below it.
place_next :
    (c c' d k f pt pre ga pte : ℕ) (s s1 : Pages) (owner owner1 : Owner) (xs xs1 : List ℕ)
    → d + f ≡ k
    → IsMapped s owner xs
    → owner pt ≡ some (suc k, pre)
    → pre ≡ ga / span (suc (suc k))
    → make_directory (slot (suc k) pt ga) 0 s ≡ (0, s1)
    → Descends k pt ga s owner s1 owner1 xs1
    → length xs + c' ≤ length xs1 + c
    → Places c' d k f (addr (s1.mem (slot (suc k) pt ga))) (ga / span (suc k)) ga pte s1 owner1 xs1
    → Places c (suc d) (suc k) f pt pre ga pte s owner xs
unfolding install_pte_loop
place_next c c' d k f pt pre ga pte s s1 owner owner1 xs xs1 e m own prefix run1 D len1 below =
    let (a, s', owner', xs', run2, I, len2, all2, at) = below in
    let lv : suc (suc k) - 1 ≡ suc k = omega arith in
    (
      a,
      s',
      owner',
      xs',
      rw (entry_addr-slot (suc k) pt ga, run1, lv) run2,
      Installed-round d k f pt pre ga pte s s1 s' owner owner1 owner' xs1 xs' e m.tables own prefix
          D I,
      omega arith,
      all2,
      at,
    )

install_pte_loop_lem :
    (c d l f pt pre ga pte : ℕ) (s : Pages) (owner : Owner) (xs : List ℕ)
    → d + f ≡ l
    → Room c d l s.mem pt ga xs
    → IsMapped s owner xs
    → owner pt ≡ some (l, pre)
    → pre ≡ ga / span (suc l)
    → IsLeaf f pte
    → IsPlain pte
    → AllPlain s.mem owner
    → translate l s.mem pt ga ≡ none
    → Places c d l f pt pre ga pte s owner xs
install_pte_loop_lem c zero l f pt pre ga pte s owner xs e room m own prefix ok plain all
      none_there =
    let el : l ≡ f = omega arith in
    let ec : c ≡ 0 = elim room [ inl (same, h) ↦ same | inr (same, h) ↦ same ] in
    rw (ec, el)
      (place_last f pt pre ga pte s owner xs m (rw el at own) (rw el at prefix) ok plain all)
install_pte_loop_lem c (suc d) zero f pt pre ga pte s owner xs e room m own prefix ok plain all
      none_there =
    absurd (omega arith)
install_pte_loop_lem c (suc d) (suc k) f pt pre ga pte s owner xs e
      (inr (none_new, (there, small, way))) m own prefix ok plain all none_there =
    let D = Descends-table k pt pre ga s owner xs m there small in
    place_next c c d k f pt pre ga pte s s owner owner xs xs (omega arith) m own prefix
      (make_directory_there k pt ga s
        (all pt (suc k) pre (ga / span (suc k) % 512) own (omega arith)) there)
      D (omega arith)
      (install_pte_loop_lem c d k f (addr (s.mem (slot (suc k) pt ga))) (ga / span (suc k)) ga pte s
        owner xs (omega arith) (inr (none_new, way)) D.mapped
        (round-owner k pt pre ga s s owner owner xs own prefix D) refl ok plain all
        (D.same ga refl ∙ none_there))
install_pte_loop_lem c (suc d) (suc k) f pt pre ga pte s owner [] e (inl (all_new, room)) m own
      prefix ok plain all none_there =
    absurd (omega arith)
install_pte_loop_lem c (suc d) (suc k) f pt pre ga pte s owner (q ∷ xs) e (inl (all_new, room)) m
      own prefix ok plain all none_there =
    let (s1, owner1, xs1, run1, D, len1, all1) =
      make_directory_lem k pt pre ga q s owner xs m own prefix all none_there in
    place_next c d d k f pt pre ga pte s s1 owner owner1 (q ∷ xs) xs1 (omega arith) m own prefix
      run1 D (omega arith)
      (install_pte_loop_lem d d k f (addr (s1.mem (slot (suc k) pt ga))) (ga / span (suc k)) ga pte
        s1 owner1 xs1 (omega arith) (inl (refl, omega arith)) D.mapped
        (round-owner k pt pre ga s s1 owner owner1 xs1 own prefix D) refl ok plain all1
        (D.same ga refl ∙ none_there))

install_pte_run :
    (f cr3 ga pte : ℕ) (s : Pages) (r : ℕ × Pages)
    → f < 3
    → install_pte_loop (3 - f) 4 cr3 ga pte 0 s ≡ r
    → install_pte cr3 (suc f) ga pte 0 s ≡ r
unfolding install_pte
install_pte_run f cr3 ga pte s r hf run = let d : 4 - suc f ≡ 3 - f = omega arith in rw d run

-- What `install_pte` of `pte` for `ga` does to a well-formed structure.
abbrev pub Installs : ℕ → ℕ → ℕ → ℕ → ℕ → Pages → Owner → List ℕ → Type 0
Installs c f cr3 ga pte s owner xs =
    (a : ℕ) × (s' : Pages) × (owner' : Owner) × (xs' : List ℕ) × (install_pte cr3 (suc f) ga pte 0 s
      ≡ (a, s'))
    × (s'.mem a ≡ pte)
    × IsMapped s' owner' xs'
    × AllPlain s'.mem owner'
    × (owner' cr3 ≡ some (3, 0))
    × (length xs ≤ length xs' + c)
    × Reaches (3 - f) 3 s'.mem cr3 ga
    × ((perm : ℕ)
        → perm < 8
        → Grants f pte perm
        → AllAllow perm s.mem owner
        → AllAllow perm s'.mem owner')
    × ((ga' : ℕ)
        → ga' < 2 ^ 48
        → translate 3 s'.mem cr3 ga'
          ≡ (if ga' / span f == ga / span f then leaf? f pte ga' else translate 3 s.mem cr3 ga'))

pub install_pte-Installs :
    (c f cr3 ga pte : ℕ) (s : Pages) (owner : Owner) (xs : List ℕ)
    → f < 3
    → Room c (3 - f) 3 s.mem cr3 ga xs
    → IsMapped s owner xs
    → owner cr3 ≡ some (3, 0)
    → ga < 2 ^ 48
    → IsLeaf f pte
    → IsPlain pte
    → AllPlain s.mem owner
    → translate 3 s.mem cr3 ga ≡ none
    → Installs c f cr3 ga pte s owner xs
install_pte-Installs c f cr3 ga pte s owner xs hf room m own hga ok plain all none_there =
    let (a, s', owner', xs', run, I, len, all', at) =
      install_pte_loop_lem c (3 - f) 3 f cr3 0 ga pte s owner xs (omega arith) room m own
        (below_top ga hga) ok plain all none_there in
    (
      a,
      s',
      owner',
      xs',
      install_pte_run f cr3 ga pte s (a, s') hf run,
      at,
      I.mapped,
      all',
      I.kept cr3 own,
      len,
      I.reached (3 - f) (omega arith),
      I.allows,
      λ ga' h. I.maps ga' (below_top ga' h),
    )

-- In a well-formed four-level structure with three free pages, in which every entry with one of its
-- three low bits set has bit 0 set, `install_pte` of such an entry that is a leaf, at level 1, 2 or
-- 3, for an address below 2^48 that is not mapped and with no page given, leaves such a structure
-- and returns where it wrote the entry. At most three pages are taken, every address in the range
-- of the entry is translated as the entry says, and every other one below 2^48 as before. For some
-- permissions that every present entry above the last level allows, and the new entry too if it is
-- one above the last level: all entries still allow them, and of these permissions, those that all
-- the entries on the way to an address leave together are the ones that this translation says.
pub install_pte_lem :
    (f cr3 ga pte perm ga' : ℕ) (s : Pages) (owner : Owner) (xs : List ℕ)
    → f < 3
    → 3 ≤ length xs
    → IsMapped s owner xs
    → owner cr3 ≡ some (3, 0)
    → ga < 2 ^ 48
    → IsLeaf f pte
    → IsPlain pte
    → AllPlain s.mem owner
    → translate 3 s.mem cr3 ga ≡ none
    → perm < 8
    → Grants f pte perm
    → AllAllow perm s.mem owner
    → ga' < 2 ^ 48
    → (a : ℕ) × (s' : Pages) × (owner' : Owner) × (xs' : List ℕ) × (install_pte cr3
          (suc f)
          ga
          pte
          0
          s
        ≡ (a, s'))
      × (s'.mem a ≡ pte)
      × IsMapped s' owner' xs'
      × AllPlain s'.mem owner'
      × (owner' cr3 ≡ some (3, 0))
      × (length xs ≤ length xs' + 3)
      × (translate 3 s'.mem cr3 ga'
          ≡ (if ga' / span f == ga / span f then leaf? f pte ga' else translate 3 s.mem cr3 ga'))
      × AllAllow perm s'.mem owner'
      × (bit_and (access 3 s'.mem cr3 ga') perm
          ≡ bit_and
              (rights (
                if ga' / span f == ga / span f then leaf? f pte ga' else translate 3 s.mem cr3 ga'))
              perm)
install_pte_lem f cr3 ga pte perm ga' s owner xs hf room m own hga ok plain all none_there lt grants
      open_ways hga' =
    let (a, s', owner', xs', run, at, m', all', own', len, way, allows, maps) =
      install_pte-Installs (3 - f) f cr3 ga pte s owner xs hf (inl (refl, omega arith)) m own hga ok
        plain all none_there in
    let allowed = allows perm lt grants open_ways in
    (
      a,
      s',
      owner',
      xs',
      run,
      at,
      m',
      all',
      own',
      omega arith,
      maps ga' hga',
      allowed,
      access-rights perm 3 cr3 0 ga' s'.mem owner' m'.tables allowed own' (below_top ga' hga')
          ∙ ap (λ o. bit_and (rights o) perm) (maps ga' hga'),
    )
