-- ===== src/Ept/Range.antt =====
-- The loops of `setup_ept_range`, and the identity map that they leave.
use asor.Base.{
  ℕ, zero, suc, ◌+◌, ◌*◌, ◌/◌, ◌%◌, ◌^◌, ◌≤◌, ◌<◌, ◌≡◌, refl, ap, bit_and, subst, ◌∙◌, Bool, true,
  false, ◌&&◌, Option, some, List, length, ltb, leb, ◌==◌, if◌then◌else◌, arith,
}
use asor.PageAlloc.{Pages}
use asor.Ept.{install_ept_entry, map_while}
use asor.Ept.Walk.{span, span-pos, translate}
use asor.Ept.Access.{AllAllow, bit_and_self}
use asor.Ept.Tables.{Owner, IsMapped}
use asor.Ept.Install.{install_ept_entry-Maps}
use asor.Ept.Identity.{ident, ident_entry, ident-IsLeaf, ident-leaf}
use asor.Ept.Final.{Grants, leaf?}
use asor.Ept.Cost.{start_cost, total_cost, IsWalked, step-IsWalked, cost-Room}

-- The addresses of the range from an aligned `phys`.
in_range :
    (f phys ga : ℕ)
    → f < 3
    → phys % span f ≡ 0
    → (ga / span f == phys / span f) ≡ (leb phys ga && ltb ga (phys + span f))
unfolding span
in_range zero phys ga hf al = ground arith
in_range (suc zero) phys ga hf al = ground arith
in_range (suc (suc zero)) phys ga hf al = ground arith
in_range (suc (suc (suc f))) phys ga hf al = absurd (omega arith)

next_aligned : (f phys : ℕ) → f < 3 → phys % span f ≡ 0 → (phys + span f) % span f ≡ 0
unfolding span
next_aligned zero phys hf al = omega arith
next_aligned (suc zero) phys hf al = omega arith
next_aligned (suc (suc zero)) phys hf al = omega arith
next_aligned (suc (suc (suc f))) phys hf al = absurd (omega arith)

-- From `lo` up to `hi` every address is mapped to itself, and the others as before.
abbrev pub IdentityFrom : ℕ → ℕ → ℕ → ℕ → Pages → Pages → Type 0
IdentityFrom lo hi pml4 perm s s' =
    (ga : ℕ)
    → ga < 2 ^ 48
    → translate 3 s'.mem pml4 ga
      ≡ (if leb lo ga && ltb ga hi then some (ident perm ga) else translate 3 s.mem pml4 ga)

empty_range :
    (A : Type 0) (x y : A) (lo hi ga : ℕ) → hi ≡ lo → y ≡ (if leb lo ga && ltb ga hi then x else y)
empty_range A x y lo hi ga e = ground arith

pub join_ranges :
    (A : Type 0) (x y r1 r2 : A) (lo mid hi ga : ℕ) (near : Bool)
    → lo ≤ mid
    → mid ≤ hi
    → near ≡ (leb lo ga && ltb ga mid)
    → r2 ≡ (if leb mid ga && ltb ga hi then x else r1)
    → r1 ≡ (if near then x else y)
    → r2 ≡ (if leb lo ga && ltb ga hi then x else y)
join_ranges A x y r1 r2 lo mid hi ga near hl hm hn h2 h1 = ground arith

leaf_or :
    (A : Type 0) (x y r1 l : A) (near : Bool)
    → (near ≡ true → l ≡ x)
    → r1 ≡ (if near then l else y)
    → r1 ≡ (if near then x else y)
leaf_or A x y r1 l true hl h1 = h1 ∙ hl refl
leaf_or A x y r1 l false hl h1 = h1

-- An entry that maps its range to itself.
pub ident_range :
    (f pml4 phys perm : ℕ) (s s' : Pages)
    → f < 3
    → perm < 8
    → 0 < perm
    → phys < 2 ^ 48
    → phys % span f ≡ 0
    → ((ga : ℕ)
        → ga < 2 ^ 48
        → translate 3 s'.mem pml4 ga ≡ (
            if ga / span f == phys / span f
            then leaf? f (ident_entry f phys perm) ga
            else translate 3 s.mem pml4 ga))
    → IdentityFrom phys (phys + span f) pml4 perm s s'
ident_range f pml4 phys perm s s' level low some_perm lt al maps ga h =
    leaf_or _ _ _ _ _ (leb phys ga && ltb ga (phys + span f))
      (λ b. ident-leaf phys perm lt low some_perm f ga level al (at b))
      (subst
        (λ (t : Bool).
          translate 3 s'.mem pml4 ga
          ≡ (if t then leaf? f (ident_entry f phys perm) ga else translate 3 s.mem pml4 ga))
        (in_range f phys ga level al) (maps ga h))
  where
    at : (leb phys ga && ltb ga (phys + span f)) ≡ true → ga / span f ≡ phys / span f
    at b = let e = in_range f phys ga level al ∙ b in ground arith

-- An `install` that maps the pages of a range to themselves in a structure of which `Known phys` is
-- known, where `phys` is how far the range is mapped.
abbrev pub MapsNext :
    ℕ → ℕ → ℕ → ℕ → (ℕ → Pages → Option Pages) → (ℕ → Pages → Owner → Type 0) → Type 0
MapsNext f pml4 perm max install Known =
    (phys : ℕ) (s : Pages) (owner : Owner) (xs : List ℕ)
    → phys % span f ≡ 0
    → phys + span f ≤ max
    → start_cost f phys ≤ length xs
    → IsMapped s owner xs
    → owner pml4 ≡ some (3, 0)
    → IsWalked f pml4 phys s
    → Known phys s owner
    → (s' : Pages) × (owner' : Owner) × (xs' : List ℕ) × (install phys s ≡ some s')
      × IsMapped s' owner' xs'
      × (owner' pml4 ≡ some (3, 0))
      × (length xs ≤ length xs' + start_cost f phys)
      × IdentityFrom phys (phys + span f) pml4 perm s s'
      × IsWalked f pml4 (phys + span f) s'
      × Known (phys + span f) s' owner'

-- Every entry above the last level leaves the permissions `perm`.
abbrev pub Granting : ℕ → ℕ → Pages → Owner → Type 0
Granting perm phys s owner = AllAllow perm s.mem owner

pub ident-Grants : (f phys perm : ℕ) → perm < 8 → Grants f (ident_entry f phys perm) perm
ident-Grants zero phys perm low nz pr = absurd (nz refl)
ident-Grants (suc f) phys perm low nz pr =
    ap (λ (t : ℕ). bit_and t perm) (omega arith) ∙ bit_and_self perm

pub installs-MapsNext :
    (f pml4 perm max : ℕ) (install : ℕ → Pages → Option Pages)
    → f < 3
    → perm < 8
    → 0 < perm
    → max ≤ 2 ^ 48
    → ((phys : ℕ) (s : Pages)
        → phys < 2 ^ 48
        → install phys s ≡ install_ept_entry pml4 (suc f) phys (ident_entry f phys perm) 0 s)
    → MapsNext f pml4 perm max install (Granting perm)
installs-MapsNext f pml4 perm max install level low some_perm top installs phys s owner xs al le
      room m own walked known =
    let lt : phys < 2 ^ 48 = omega (arith, span-pos f) in
    let (c, cheap, room') = cost-Room f pml4 phys s xs walked room in
    let (s1, owner1, xs1, run1, m1, own1, len1, way1, allows1, maps1) =
      install_ept_entry-Maps c f pml4 phys (ident_entry f phys perm) s owner xs level room' m own lt
        (ident-IsLeaf phys perm lt low some_perm f level al) in
    (
      s1,
      owner1,
      xs1,
      installs phys s lt ∙ run1,
      m1,
      own1,
      omega arith,
      ident_range f pml4 phys perm s s1 level low some_perm lt al maps1,
      step-IsWalked f pml4 phys s1 level al way1,
      allows1 perm low (ident-Grants f phys perm low) known,
    )

-- A state reached with at most `used` of the free pages.
abbrev pub Reached : ℕ → ℕ → ℕ → ℕ → ℕ → (Pages → Owner → Type 0) → Pages → List ℕ → Pages → Type 0
Reached lo hi pml4 perm used Known s xs s' =
    (owner' : Owner) × (xs' : List ℕ) × IsMapped s' owner' xs'
    × (owner' pml4 ≡ some (3, 0))
    × (length xs ≤ length xs' + used)
    × IdentityFrom lo hi pml4 perm s s'
    × Known s' owner'

module _ (f pml4 perm max : ℕ) (install : ℕ → Pages → Option Pages)
    (Known : ℕ → Pages → Owner → Type 0) (level : f < 3) (top : max ≤ 2 ^ 48)
    (step : MapsNext f pml4 perm max install Known) where
  while_stop :
      (fuel phys : ℕ) (s : Pages)
      → phys ≤ max
      → max < phys + span f
      → span f < 2 ^ 48
      → map_while (suc fuel) install (span f) max phys s ≡ some (phys, s)
  unfolding map_while
  while_stop fuel phys s le h sp =
      let t : leb ((phys + span f) % 2 ^ 64) max ≡ false = ground arith in rw t

  while_next :
      (fuel phys : ℕ) (s s1 : Pages)
      → phys + span f ≤ max
      → install phys s ≡ some s1
      → map_while (suc fuel) install (span f) max phys s
        ≡ map_while fuel install (span f) max (phys + span f) s1
  unfolding map_while
  while_next fuel phys s s1 le run =
      let w : (phys + span f) % 2 ^ 64 ≡ phys + span f = omega arith in
      let t : leb (phys + span f) max ≡ true = ground arith in rw (w, t, run)

  pub map_while_lem :
      (n fuel phys : ℕ) (s : Pages) (owner : Owner) (xs : List ℕ)
      → n < fuel
      → phys % span f ≡ 0
      → span f < 2 ^ 48
      → phys + n * span f ≤ max
      → max < phys + n * span f + span f
      → total_cost f phys n ≤ length xs
      → IsMapped s owner xs
      → owner pml4 ≡ some (3, 0)
      → IsWalked f pml4 phys s
      → Known phys s owner
      → (s' : Pages) × (map_while fuel install (span f) max phys s ≡ some (phys + n * span f, s'))
        × Reached phys
            (phys + n * span f)
            pml4
            perm
            (total_cost f phys n)
            (Known (phys + n * span f))
            s
            xs
            s'
  unfolding total_cost
  map_while_lem n zero phys s owner xs hn al sp le lt room m own walked known = absurd (omega arith)
  map_while_lem zero (suc fuel) phys s owner xs hn al sp le lt room m own walked known =
      let e : phys + 0 * span f ≡ phys = omega arith in
      (
        s,
        rw e (while_stop fuel phys s (omega arith) (omega arith) sp),
        (
          owner,
          xs,
          m,
          own,
          omega arith,
          λ ga h. empty_range _ _ _ phys (phys + 0 * span f) ga e,
          rw e known,
        ),
      )
  map_while_lem (suc n) (suc fuel) phys s owner xs hn al sp le lt room m own walked known =
      let (s1, owner1, xs1, run1, m1, own1, len1, maps1, walked1, known1) =
        step phys s owner xs al (omega arith) (omega arith) m own walked known in
      let (s2, run2, (owner2, xs2, m2, own2, len2, maps2, known2)) =
        map_while_lem n fuel (phys + span f) s1 owner1 xs1 (omega arith)
          (next_aligned f phys level al) sp (omega arith) (omega arith) (omega arith) m1 own1
          walked1 known1 in
      let e : phys + suc n * span f ≡ phys + span f + n * span f = omega arith in
      (
        s2,
        while_next fuel phys s s1 (omega arith) run1 ∙ rw e run2,
        (
          owner2,
          xs2,
          m2,
          own2,
          omega arith,
          λ ga h.
              join_ranges _ _ _ _ _ phys (phys + span f) (phys + suc n * span f) ga
                (leb phys ga && ltb ga (phys + span f)) (omega arith) (omega arith) refl
                (rw e (maps2 ga h)) (maps1 ga h),
          rw e known2,
        ),
      )
