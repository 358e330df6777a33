-- ===== src/Ept/Setup.antt =====
-- `setup_ept_range` from address 0: the three loops one after the other.
use asor.Base.{
  ℕ, ◌+◌, ◌-◌, ◌*◌, ◌/◌, ◌%◌, ◌^◌, ◌≤◌, ◌<◌, ◌≡◌, refl, ap, ◌∙◌, bit_and, Option, inl, inr,
  Bool-cases, Bool, true, ◌&&◌, some, List, length, ltb, leb, if◌then◌else◌, arith,
}
use asor.PageAlloc.{Pages}
use asor.Ept.{
  install_ept, install_2m_ept, install_1g_ept, map_while, page_size_2m, page_size_1g,
  setup_ept_range,
}
use asor.Ept.Walk.{Leaf, translate}
use asor.Ept.Access.{access, rights, AllAllow, access-rights, access-exact}
use asor.Ept.Install.{below_top}
use asor.Ept.Tables.{Owner, IsMapped}
use asor.Ept.Identity.{ident}
use asor.Ept.Range.{Granting, installs-MapsNext}
use asor.Ept.Phases.{
  installs_1g, installs_2m, installs_4k, Phase, span_4k, span_2m, span_1g, Phase-of,
}

-- Three pages for each 2 MB, and nine.
abbrev pub table_room : ℕ → ℕ
table_room len = 3 * (len / 2 ^ 21 + 3)

-- The state behind the loops, as it translates the address `ga`.
abbrev pub Identity : ℕ → ℕ → ℕ → ℕ → ℕ → Bool → Bool → Pages → List ℕ → Type 0
Identity fuel pml4 len perm ga map_1g map_2m s xs =
    (s' : Pages) × (owner' : Owner) × (xs' : List ℕ) × (setup_ept_range fuel pml4 0 len map_1g
        map_2m perm s
      ≡ some (len, s'))
    × IsMapped s' owner' xs'
    × (owner' pml4 ≡ some (3, 0))
    × (length xs ≤ length xs' + table_room len)
    × (translate 3 s'.mem pml4 ga
        ≡ (if ltb ga len then some (ident perm ga) else translate 3 s.mem pml4 ga))
    × AllAllow perm s'.mem owner'
    × (access 3 s'.mem pml4 ga ≡ (if ltb ga len then perm else access 3 s'.mem pml4 ga))
    × (bit_and (access 3 s'.mem pml4 ga) perm
        ≡ bit_and (rights (if ltb ga len then some (ident perm ga) else translate 3 s.mem pml4 ga))
            perm)

-- The map and the permissions give what a guest can do.
with_access :
    (pml4 perm ga : ℕ) (near : Bool) (owner : Owner) (xs : List ℕ) (s : Pages) (old : Option Leaf)
    → perm < 8
    → ga < 2 ^ 48
    → IsMapped s owner xs
    → owner pml4 ≡ some (3, 0)
    → AllAllow perm s.mem owner
    → translate 3 s.mem pml4 ga ≡ (if near then some (ident perm ga) else old)
    → (access 3 s.mem pml4 ga ≡ (if near then perm else access 3 s.mem pml4 ga))
      × (bit_and (access 3 s.mem pml4 ga) perm
          ≡ bit_and (rights (if near then some (ident perm ga) else old)) perm)
with_access pml4 perm ga near owner xs s old low h m own all map = (
  elim (Bool-cases near) [
    | inr far ↦ rw far refl
    | inl here ↦ rw here (
        access-exact perm 3 pml4 0 ga s.mem owner (ident perm ga) m.tables all own (below_top ga h)
          (rw here at map) (omega arith))
  ],
  access-rights perm 3 pml4 0 ga s.mem owner m.tables all own (below_top ga h)
      ∙ ap (λ o. bit_and (rights o) perm) map,
)

three_ranges :
    (A : Type 0) (x r0 r1 r2 r3 : A) (p1 p2 len ga : ℕ)
    → p1 ≤ p2
    → p2 ≤ len
    → r1 ≡ (if leb 0 ga && ltb ga p1 then x else r0)
    → r2 ≡ (if leb p1 ga && ltb ga p2 then x else r1)
    → r3 ≡ (if leb p2 ga && ltb ga len then x else r2)
    → r3 ≡ (if ltb ga len then x else r0)
three_ranges A x r0 r1 r2 r3 p1 p2 len ga h12 h2 e1 e2 e3 = ground arith

setup_run :
    (fuel pml4 len perm : ℕ) (map_1g map_2m : Bool) (s s1 s2 s3 : Pages) (p1 p2 p3 : ℕ)
    → len < 2 ^ 64
    → (if map_1g
        then map_while fuel (λ p. install_1g_ept pml4 p p perm) page_size_1g len 0 s
        else some (0, s))
      ≡ some (p1, s1)
    → (if map_2m
        then map_while fuel (λ p. install_2m_ept pml4 p p perm) page_size_2m len p1 s1
        else some (p1, s1))
      ≡ some (p2, s2)
    → map_while fuel (λ p. install_ept pml4 p p perm) (2 ^ 12) len p2 s2 ≡ some (p3, s3)
    → setup_ept_range fuel pml4 0 len map_1g map_2m perm s ≡ some (p3, s3)
unfolding setup_ept_range
setup_run fuel pml4 len perm map_1g map_2m s s1 s2 s3 p1 p2 p3 h run1 run2 run3 =
    let e : (len + 0) % 2 ^ 64 ≡ len = omega arith in rw (e, run1, run2) run3

-- What the three loops take and need, when they end at `e1`, `e2` and `e3`.
pub tables_used :
    (len e1 e2 e3 x x1 x2 x3 : ℕ)
    → e3 ≡ len
    → x ≤ x1 + 3 * ((e1 - 0 + (2 ^ 39 - 1)) / 2 ^ 39)
    → x1 ≤ x2 + 3 * ((e2 - e1 + (2 ^ 30 - 1)) / 2 ^ 30)
    → x2 ≤ x3 + 3 * ((e3 - e2 + (2 ^ 21 - 1)) / 2 ^ 21)
    → e1 ≤ e2
    → e2 ≤ len
    → x ≤ x3 + table_room len
tables_used len e1 e2 e3 x x1 x2 x3 el h1 h2 h3 le1 le2 = omega arith

pub room_2m :
    (len e1 x x1 : ℕ)
    → table_room len ≤ x
    → e1 ≤ len
    → x ≤ x1 + 3 * ((e1 - 0 + (2 ^ 39 - 1)) / 2 ^ 39)
    → 3 * ((len - e1 + (2 ^ 30 - 1)) / 2 ^ 30) ≤ x1
room_2m len e1 x x1 room le h1 = omega arith

pub room_4k :
    (len e1 e2 x x1 x2 : ℕ)
    → table_room len ≤ x
    → e1 ≤ e2
    → e2 ≤ len
    → x ≤ x1 + 3 * ((e1 - 0 + (2 ^ 39 - 1)) / 2 ^ 39)
    → x1 ≤ x2 + 3 * ((e2 - e1 + (2 ^ 30 - 1)) / 2 ^ 30)
    → 3 * ((len - e2 + (2 ^ 21 - 1)) / 2 ^ 21) ≤ x2
room_4k len e1 e2 x x1 x2 room le1 le2 h1 h2 = omega arith

setup_end :
    (fuel pml4 len perm ga : ℕ) (map_1g map_2m : Bool) (s : Pages) (xs : List ℕ)
    → len % 2 ^ 12 ≡ 0
    → len ≤ 2 ^ 48
    → ga < 2 ^ 48
    → perm < 8
    → (a : Phase page_size_1g map_1g len pml4 perm
        (λ p. install_1g_ept pml4 p p perm)
        (Granting perm)
        fuel
        0
        s
        xs)
    → (b : Phase page_size_2m map_2m len pml4 perm
        (λ p. install_2m_ept pml4 p p perm)
        (Granting perm)
        fuel
        a.end
        a.state
        a.left)
    → (c : Phase
        (2 ^ 12)
        true
        len
        pml4
        perm
        (λ p. install_ept pml4 p p perm)
        (Granting perm)
        fuel
        b.end
        b.state
        b.left)
    → Identity fuel pml4 len perm ga map_1g map_2m s xs
setup_end fuel pml4 len perm ga map_1g map_2m s xs hl hlen hga low a b c =
    let last : c.end ≡ len = omega (arith, c.near refl, c.below, c.aligned) in
    let map : translate 3 c.state.mem pml4 ga
        ≡ (if ltb ga len then some (ident perm ga) else translate 3 s.mem pml4 ga) =
      three_ranges _ _ _ _ _ _ a.end b.end len ga b.above b.below (a.maps ga hga) (b.maps ga hga) (
        c.maps ga hga
        ∙ ap
            (λ (p : ℕ).
              if leb b.end ga && ltb ga p
              then some (ident perm ga)
              else translate 3 b.state.mem pml4 ga)
            last) in
    let seen =
      with_access pml4 perm ga (ltb ga len) c.owner c.left c.state (translate 3 s.mem pml4 ga) low
        hga c.mapped c.root c.known map in
    (
      c.state,
      c.owner,
      c.left,
      setup_run fuel pml4 len perm map_1g map_2m s a.state b.state c.state a.end b.end c.end
            (omega arith) a.run b.run c.run
          ∙ ap (λ (p : ℕ). some (p, c.state)) last,
      c.mapped,
      c.root,
      tables_used len a.end b.end c.end (length xs) (length a.left) (length b.left) (length c.left)
          last a.used b.used c.used b.above b.below,
      map,
      c.known,
      seen.0,
      seen.1,
    )

-- In a well-formed structure in which every present entry above the last level allows the
-- permissions to be set, some of the three low bits and not none, `setup_ept_range` from address 0
-- for a whole number of pages of at most 2^48 bytes returns when there are three free pages for each
-- 2 MB of the range, and nine, and more fuel than pages. It takes no more of them, and whichever of
-- the large sizes are used, every address of the range is mapped to itself with exactly these
-- permissions, and every other address of 48 bits is translated as before. All present entries above
-- the last level still allow them; what all the entries on the way to an address of the range leave
-- together is exactly these permissions, and of them, what is left at another address is what its
-- translation says.
pub setup_ept_range_lem :
    (fuel pml4 len perm ga : ℕ) (map_1g map_2m : Bool) (s : Pages) (owner : Owner) (xs : List ℕ)
    → len % 2 ^ 12 ≡ 0
    → len ≤ 2 ^ 48
    → ga < 2 ^ 48
    → perm < 8
    → 0 < perm
    → len / 2 ^ 12 < fuel
    → table_room len ≤ length xs
    → IsMapped s owner xs
    → owner pml4 ≡ some (3, 0)
    → AllAllow perm s.mem owner
    → Identity fuel pml4 len perm ga map_1g map_2m s xs
setup_ept_range_lem fuel pml4 len perm ga map_1g map_2m s owner xs hl hlen hga low pos hf room m own
      all =
    let a =
      Phase-of 2 page_size_1g map_1g len pml4 perm (λ p. install_1g_ept pml4 p p perm)
        (Granting perm) fuel 0 s owner xs span_1g (omega arith) hlen
        (installs-MapsNext 2 pml4 perm len (λ p. install_1g_ept pml4 p p perm) (omega arith) low pos
          hlen (λ p t hp. installs_1g pml4 perm p t low hp))
        hf (omega arith) (omega arith) (λ b. omega arith) m own all in
    let b =
      Phase-of 1 page_size_2m map_2m len pml4 perm (λ p. install_2m_ept pml4 p p perm)
        (Granting perm) fuel a.end a.state a.owner a.left span_2m (omega arith) hlen
        (installs-MapsNext 1 pml4 perm len (λ p. install_2m_ept pml4 p p perm) (omega arith) low pos
          hlen (λ p t hp. installs_2m pml4 perm p t low hp))
        hf a.below (omega (arith, a.aligned))
        (λ b. room_2m len a.end (length xs) (length a.left) room a.below a.used) a.mapped a.root
        a.known in
    let c =
      Phase-of 0 (2 ^ 12) true len pml4 perm (λ p. install_ept pml4 p p perm) (Granting perm) fuel
        b.end b.state b.owner b.left span_4k (omega arith) hlen
        (installs-MapsNext 0 pml4 perm len (λ p. install_ept pml4 p p perm) (omega arith) low pos
          hlen (λ p t hp. installs_4k pml4 perm p t low hp))
        hf b.below (omega (arith, b.aligned))
        (λ u.
          room_4k len a.end b.end (length xs) (length a.left) (length b.left) room b.above b.below
            a.used b.used)
        b.mapped b.root b.known in
    setup_end fuel pml4 len perm ga map_1g map_2m s xs hl hlen hga low a b c
