-- ===== src/Ept/Install.antt =====
-- `install_ept_entry`: afterwards the entry maps its range, and every other guest address is
-- translated as before, whatever tables were made and large entries were split on the way.
use asor.Base.{
  ℕ, suc, ◌+◌, ◌-◌, ◌/◌, ◌^◌, ◌≤◌, ◌<◌, ◌≡◌, refl, ap, ◌∙◌, bit_and, inl, true, some, List, length,
  ltb, ◌==◌, if◌then◌else◌, arith,
}
use asor.PageAlloc.{Pages}
use asor.Ept.{install_loop, install_ept_entry}
use asor.Ept.Walk.{span, translate}
use asor.Ept.Access.{access, rights, AllAllow, access-rights}
use asor.Ept.Tables.{Owner, IsMapped}
use asor.Ept.Final.{IsLeaf, Grants, leaf?}
use asor.Ept.Reach.{Reaches, Room}
use asor.Ept.Loop.{install_loop_lem}

-- What `install_ept_entry` of `pte` for `ga` at the level behind `f` does to a well-formed
-- four-level structure with root `pml4` and the free pages `xs`, of which it takes at most `c`.
abbrev pub Maps : ℕ → ℕ → ℕ → ℕ → ℕ → Pages → Owner → List ℕ → Type 0
Maps c f pml4 ga pte s owner xs =
    (s' : Pages) × (owner' : Owner) × (xs' : List ℕ) × (install_ept_entry pml4 (suc f) ga pte 0 s
      ≡ some s')
    × IsMapped s' owner' xs'
    × (owner' pml4 ≡ some (3, 0))
    × (length xs ≤ length xs' + c)
    × Reaches (3 - f) 3 s'.mem pml4 ga
    × ((perm : ℕ)
        → perm < 8
        → Grants f pte perm
        → AllAllow perm s.mem owner
        → AllAllow perm s'.mem owner')
    × ((ga' : ℕ)
        → ga' < 2 ^ 48
        → translate 3 s'.mem pml4 ga'
          ≡ (if ga' / span f == ga / span f then leaf? f pte ga' else translate 3 s.mem pml4 ga'))

pub below_top : (ga : ℕ) → ga < 2 ^ 48 → 0 ≡ ga / span 4
unfolding span
below_top ga h = omega arith

install_run :
    (f pml4 ga pte : ℕ) (s s' : Pages)
    → f < 3
    → ga < 2 ^ 48
    → install_loop (3 - f) 4 pml4 ga pte 0 s ≡ some s'
    → install_ept_entry pml4 (suc f) ga pte 0 s ≡ some s'
unfolding install_ept_entry
install_run f pml4 ga pte s s' hf hga run =
    let d : 4 - suc f ≡ 3 - f = omega arith in
    let t : ltb ga (2 ^ 48) ≡ true = ground arith in rw (t, d) run

pub install_ept_entry-Maps :
    (c f pml4 ga pte : ℕ) (s : Pages) (owner : Owner) (xs : List ℕ)
    → f < 3
    → Room c (3 - f) 3 s.mem pml4 ga xs
    → IsMapped s owner xs
    → owner pml4 ≡ some (3, 0)
    → ga < 2 ^ 48
    → IsLeaf f pte
    → Maps c f pml4 ga pte s owner xs
install_ept_entry-Maps c f pml4 ga pte s owner xs hf room m own hga ok =
    let (s', owner', xs', run, I, len) =
      install_loop_lem c (3 - f) 3 f pml4 0 ga pte s owner xs (omega arith) room m own
        (below_top ga hga) ok in
    (
      s',
      owner',
      xs',
      install_run f pml4 ga pte s s' hf hga run,
      I.mapped,
      I.kept pml4 own,
      len,
      I.reached (3 - f) (omega arith),
      I.allows,
      λ ga' h. I.maps ga' (below_top ga' h),
    )

-- In a well-formed four-level structure with three free pages, `install_ept_entry` of a leaf entry
-- (or an entry that is not present) at level 1, 2 or 3, for an address of 48 bits and with no page
-- given, passes its assertion and returns; the structure stays well formed, at most three pages
-- are taken, every address in the range of the entry is translated as the entry says, and every
-- other address of 48 bits is translated as before, also where a large entry was split. For some
-- permissions that every present entry above the last level allows, and the new entry too if it is
-- one above the last level: all entries still allow them, and of these permissions, those that all
-- the entries on the way to an address leave together are the ones that this translation says.
pub install_ept_entry_lem :
    (f pml4 ga pte perm ga' : ℕ) (s : Pages) (owner : Owner) (xs : List ℕ)
    → f < 3
    → 3 ≤ length xs
    → IsMapped s owner xs
    → owner pml4 ≡ some (3, 0)
    → ga < 2 ^ 48
    → IsLeaf f pte
    → perm < 8
    → Grants f pte perm
    → AllAllow perm s.mem owner
    → ga' < 2 ^ 48
    → (s' : Pages) × (owner' : Owner) × (xs' : List ℕ) × (install_ept_entry pml4 (suc f) ga pte 0 s
        ≡ some s')
      × IsMapped s' owner' xs'
      × (owner' pml4 ≡ some (3, 0))
      × (length xs ≤ length xs' + 3)
      × (translate 3 s'.mem pml4 ga'
          ≡ (if ga' / span f == ga / span f then leaf? f pte ga' else translate 3 s.mem pml4 ga'))
      × AllAllow perm s'.mem owner'
      × (bit_and (access 3 s'.mem pml4 ga') perm
          ≡ bit_and
              (rights (
                if ga' / span f == ga / span f
                then leaf? f pte ga'
                else translate 3 s.mem pml4 ga'))
              perm)
install_ept_entry_lem f pml4 ga pte perm ga' s owner xs hf room m own hga ok lt grants all hga' =
    let (s', owner', xs', run, m', own', len, way, allows, maps) =
      install_ept_entry-Maps (3 - f) f pml4 ga pte s owner xs hf (inl (refl, omega arith)) m own hga
        ok in
    let all' = allows perm lt grants all in
    (
      s',
      owner',
      xs',
      run,
      m',
      own',
      omega arith,
      maps ga' hga',
      all',
      access-rights perm 3 pml4 0 ga' s'.mem owner' m'.tables all' own' (below_top ga' hga')
          ∙ ap (λ o. bit_and (rights o) perm) (maps ga' hga'),
    )
