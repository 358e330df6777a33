-- ===== src/Paging/Range.antt =====
-- `setup_mmu_range` from address 0: its two loops are those of x86/ept.c with other functions that
-- install, on tables in which nothing is mapped beyond the range that is done.
use asor.Ept.Cost.{step-IsWalked, cost-Room}
use asor.Base.{
  ℕ, zero, suc, ◌+◌, ◌-◌, ◌*◌, ◌/◌, ◌%◌, ◌^◌, ◌≤◌, ◌<◌, ◌≡◌, refl, ap, subst, sym, ◌∙◌, inl, inr,
  true, ◌&&◌, Option, none, some, List, length, ltb, leb, ◌==◌, if◌then◌else◌, ◌>>=◌, Bool-cases,
  bit_or, arith,
}
use asor.Base.Bits.{bit_or_sum, bit_or_assoc}
use asor.Memory.{page_size}
use asor.PageAlloc.{Pages}
use asor.Ept.{map_while}
use asor.Ept.Walk.{span, span-pos, translate}
use asor.Ept.Access.{AllAllow}
use asor.Ept.Tables.{Owner, IsMapped}
use asor.Ept.Identity.{ident, ident_entry, ident-IsLeaf}
use asor.Ept.Range.{MapsNext, ident_range, ident-Grants}
use asor.Ept.Phases.{Phase, Phase-of, span_4k, span_2m}
use asor.Paging.{
  install_pte, install_large_page, install_page, install_pages_loop, install_pages,
  large_pages_loop, large_page_size, setup_mmu_range,
}
use asor.Paging.Directory.{IsPlain, AllPlain}
use asor.Paging.Install.{install_pte-Installs}

-- The entries that the two functions install.
entry_bits : (phys : ℕ) → phys % 2 ^ 12 ≡ 0 → bit_or (bit_or (bit_or phys 1) 2) 4 ≡ bit_or phys 7
entry_bits phys al = ap (λ (x : ℕ). bit_or x 4) (bit_or_assoc phys 1 2) ∙ bit_or_assoc phys 3 4

or_low : (phys low : ℕ) → phys % 2 ^ 12 ≡ 0 → low < 2 ^ 12 → bit_or phys low ≡ phys + low
or_low phys low al lt =
    let e : phys / 2 ^ 12 * 2 ^ 12 ≡ phys = omega arith in
    ap (λ (x : ℕ). bit_or x low) (sym e) ∙ bit_or_sum 12 (phys / 2 ^ 12) low lt ∙ omega (arith, e)

abbrev small_pages : ℕ → ℕ → Pages → Option Pages
small_pages cr3 p s = some (install_page cr3 p p s).1

abbrev large_pages : ℕ → ℕ → Pages → Option Pages
large_pages cr3 p s = some (install_large_page cr3 p p s).1

-- An `install` that is `install_pte` of the entry for the identity.
abbrev InstallsIdent : ℕ → ℕ → (ℕ → Pages → Option Pages) → Type 0
InstallsIdent f cr3 install =
    (phys : ℕ) (s : Pages)
    → phys % span f ≡ 0
    → install phys s ≡ some (install_pte cr3 (suc f) phys (ident_entry f phys 7) 0 s).1

pub small_entry_7 :
    (phys : ℕ) → phys % 2 ^ 12 ≡ 0 → bit_or (bit_or (bit_or phys 1) 2) 4 ≡ ident_entry 0 phys 7
small_entry_7 phys al = entry_bits phys al ∙ or_low phys 7 al (omega arith) ∙ omega arith

small-InstallsIdent : (cr3 : ℕ) → InstallsIdent 0 cr3 (small_pages cr3)
unfolding install_page span
small-InstallsIdent cr3 phys s al = rw (small_entry_7 phys al)

large-InstallsIdent : (cr3 : ℕ) → InstallsIdent 1 cr3 (large_pages cr3)
unfolding install_large_page span
large-InstallsIdent cr3 phys s al =
    let al' : phys % 2 ^ 12 ≡ 0 = omega arith in
    let e : bit_or (bit_or (bit_or (bit_or phys 1) 2) 4) (2 ^ 7) ≡ ident_entry 1 phys 7 =
      ap (λ (x : ℕ). bit_or x (2 ^ 7)) (entry_bits phys al')
      ∙ bit_or_assoc phys 7 (2 ^ 7)
      ∙ or_low phys 135 al' (omega arith)
      ∙ omega arith in
    rw e

ident-IsPlain : (f phys : ℕ) → IsPlain (ident_entry f phys 7)
ident-IsPlain zero phys = inr (omega arith)
ident-IsPlain (suc f) phys = inr (omega arith)

-- Below 2^48, nothing from `phys` on is mapped, and the entries that lead to tables allow everything.
pub record Fresh (cr3 phys : ℕ) (s : Pages) (owner : Owner) : Type 0 where
  pub plain : AllPlain s.mem owner
  pub allows : AllAllow 7 s.mem owner
  pub unmapped : (ga : ℕ) → phys ≤ ga → ga < 2 ^ 48 → translate 3 s.mem cr3 ga ≡ none

beyond :
    (A : Type 0) (x y z : A) (lo hi ga : ℕ)
    → z ≡ (if leb lo ga && ltb ga hi then x else y)
    → hi ≤ ga
    → z ≡ y
beyond A x y z lo hi ga e h = ground arith

pub paging-MapsNext :
    (f cr3 max : ℕ) (install : ℕ → Pages → Option Pages)
    → f < 3
    → max ≤ 2 ^ 48
    → InstallsIdent f cr3 install
    → MapsNext f cr3 7 max install (Fresh cr3)
paging-MapsNext f cr3 max install hf top installs phys s owner xs al le room m own walked fresh =
    let lt : phys < 2 ^ 48 = omega (arith, span-pos f) in
    let (c, cheap, room') = cost-Room f cr3 phys s xs walked room in
    let (a, s', owner', xs', run, at, m', plain', own', len, way, allows, maps) =
      install_pte-Installs c f cr3 phys (ident_entry f phys 7) s owner xs hf room' m own lt
        (ident-IsLeaf phys 7 lt (omega arith) (omega arith) f hf al) (ident-IsPlain f phys)
        fresh.plain (fresh.unmapped phys (omega arith) lt) in
    let idents = ident_range f cr3 phys 7 s s' hf (omega arith) (omega arith) lt al maps in
    (
      s',
      owner',
      xs',
      installs phys s al ∙ ap (λ (r : ℕ × Pages). some r.1) run,
      m',
      own',
      omega arith,
      idents,
      step-IsWalked f cr3 phys s' hf al way,
      record {
        plain = plain';
        allows = allows 7 (omega arith) (ident-Grants f phys 7 (omega arith)) fresh.allows;
        unmapped = λ ga above h.
            beyond _ _ _ _ phys (phys + span f) ga (idents ga h) above
            ∙ fresh.unmapped ga (omega arith) h;
      },
    )

-- The loops of the code.
large_loop :
    (fuel cr3 max phys : ℕ) (s : Pages)
    → large_pages_loop fuel cr3 max phys s
      ≡ map_while fuel (large_pages cr3) large_page_size max phys s
unfolding large_pages_loop map_while
large_loop zero cr3 max phys s = refl
large_loop (suc fuel) cr3 max phys s =
    ap
      (λ (rest : Option (ℕ × Pages)).
        if leb ((phys + large_page_size) % 2 ^ 64) max then rest else some (phys, s))
      (large_loop fuel cr3 max ((phys + large_page_size) % 2 ^ 64)
        (install_large_page cr3 phys phys s).1)

small_loop :
    (fuel cr3 max phys : ℕ) (s : Pages)
    → install_pages_loop fuel cr3 max phys phys s
      ≡ (map_while fuel (small_pages cr3) page_size max phys s >>= λ r. some r.1)
unfolding install_pages_loop map_while
small_loop zero cr3 max phys s = refl
small_loop (suc fuel) cr3 max phys s = elim (Bool-cases (leb ((phys + page_size) % 2 ^ 64) max)) [
  | inl more ↦
      rw more
        (small_loop fuel cr3 max ((phys + page_size) % 2 ^ 64) (install_page cr3 phys phys s).1)
  | inr last ↦ rw last refl
]

range_run :
    (fuel cr3 len p p' : ℕ) (s s1 s2 : Pages)
    → len ≤ 2 ^ 48
    → len % 2 ^ 12 ≡ 0
    → p ≤ len
    → p % 2 ^ 12 ≡ 0
    → map_while fuel (large_pages cr3) large_page_size len 0 s ≡ some (p, s1)
    → map_while fuel (small_pages cr3) page_size len p s1 ≡ some (p', s2)
    → setup_mmu_range fuel cr3 0 len s ≡ some s2
unfolding setup_mmu_range install_pages
range_run fuel cr3 len p p' s s1 s2 top whole le al run1 run2 =
    let e1 : (len + 0) % 2 ^ 64 ≡ len = omega arith in
    let e2 : (len + 2 ^ 64 - p) % 2 ^ 64 ≡ len - p = omega arith in
    let e3 : (p % 2 ^ 12 == 0) ≡ true = ground arith in
    let e4 : ((len - p) % 2 ^ 12 == 0) ≡ true =
      let w : (len - p) % 2 ^ 12 ≡ 0 = omega arith in ground arith in
    let e5 : (len - p + p) % 2 ^ 64 ≡ len = omega arith in
    rw (e1, large_loop fuel cr3 len 0 s ∙ run1, e2, e3, e4, e5, small_loop fuel cr3 len p s1, run2)
      refl

two_ranges :
    (A : Type 0) (x r0 r1 r2 : A) (p len ga : ℕ)
    → p ≤ len
    → r1 ≡ (if leb 0 ga && ltb ga p then x else r0)
    → r2 ≡ (if leb p ga && ltb ga len then x else r1)
    → r2 ≡ (if ltb ga len then x else r0)
two_ranges A x r0 r1 r2 p len ga h e1 e2 = ground arith

-- Three pages for each gigabyte, and six.
abbrev pub directory_room : ℕ → ℕ
directory_room len = 3 * (len / 2 ^ 30 + 2)

directories_used :
    (len e2 e3 x x2 x3 : ℕ)
    → e3 ≡ len
    → len < e2 + 2 ^ 21
    → e2 ≤ len
    → x ≤ x2 + 3 * ((e2 - 0 + (2 ^ 30 - 1)) / 2 ^ 30)
    → x2 ≤ x3 + 3 * ((e3 - e2 + (2 ^ 21 - 1)) / 2 ^ 21)
    → x ≤ x3 + directory_room len
directories_used len e2 e3 x x2 x3 el near le h2 h3 = omega arith

room_large : (len x : ℕ) → directory_room len ≤ x → 3 * ((len - 0 + (2 ^ 30 - 1)) / 2 ^ 30) ≤ x
room_large len x room = omega arith

room_small :
    (len e2 x x2 : ℕ)
    → directory_room len ≤ x
    → len < e2 + 2 ^ 21
    → e2 ≤ len
    → x ≤ x2 + 3 * ((e2 - 0 + (2 ^ 30 - 1)) / 2 ^ 30)
    → 3 * ((len - e2 + (2 ^ 21 - 1)) / 2 ^ 21) ≤ x2
room_small len e2 x x2 room near le h2 = omega arith

-- The state behind the two loops.
abbrev pub RangeMapped : ℕ → ℕ → ℕ → Pages → List ℕ → Type 0
RangeMapped fuel cr3 len s xs =
    (s' : Pages) × (owner' : Owner) × (xs' : List ℕ) × (setup_mmu_range fuel cr3 0 len s ≡ some s')
    × IsMapped s' owner' xs'
    × (owner' cr3 ≡ some (3, 0))
    × (length xs ≤ length xs' + directory_room len)
    × Fresh cr3 len s' owner'
    × ((ga : ℕ)
        → ga < 2 ^ 48
        → translate 3 s'.mem cr3 ga
          ≡ (if ltb ga len then some (ident 7 ga) else translate 3 s.mem cr3 ga))

range_end :
    (fuel cr3 len : ℕ) (s : Pages) (xs : List ℕ)
    → len % 2 ^ 12 ≡ 0
    → len ≤ 2 ^ 48
    → (b : Phase large_page_size true len cr3 7 (large_pages cr3) (Fresh cr3) fuel 0 s xs)
    → (c : Phase (2 ^ 12) true len cr3 7 (small_pages cr3) (Fresh cr3) fuel b.end b.state b.left)
    → RangeMapped fuel cr3 len s xs
range_end fuel cr3 len s xs whole top b c =
    let last : c.end ≡ len = omega (arith, c.near refl, c.below, c.aligned) in
    (
      c.state,
      c.owner,
      c.left,
      range_run fuel cr3 len b.end c.end s b.state c.state top whole b.below
          (omega (arith, b.aligned)) b.run c.run,
      c.mapped,
      c.root,
      directories_used len b.end c.end (length xs) (length b.left) (length c.left) last
          (b.near refl) b.below b.used c.used,
      subst (λ (p : ℕ). Fresh cr3 p c.state c.owner) last c.known,
      λ ga h. two_ranges _ _ _ _ _ b.end len ga b.below (b.maps ga h) (
          c.maps ga h
          ∙ ap
              (λ (p : ℕ).
                if leb b.end ga && ltb ga p
                then some (ident 7 ga)
                else translate 3 b.state.mem cr3 ga)
              last),
    )

pub setup_mmu_range_lem :
    (fuel cr3 len : ℕ) (s : Pages) (owner : Owner) (xs : List ℕ)
    → len % 2 ^ 12 ≡ 0
    → len ≤ 2 ^ 48
    → len / 2 ^ 12 < fuel
    → directory_room len ≤ length xs
    → IsMapped s owner xs
    → owner cr3 ≡ some (3, 0)
    → Fresh cr3 0 s owner
    → RangeMapped fuel cr3 len s xs
setup_mmu_range_lem fuel cr3 len s owner xs whole top hf room m own fresh =
    let b =
      Phase-of 1 large_page_size true len cr3 7 (large_pages cr3) (Fresh cr3) fuel 0 s owner xs
        span_2m (omega arith) top
        (paging-MapsNext 1 cr3 len (large_pages cr3) (omega arith) top (large-InstallsIdent cr3)) hf
        (omega arith) (omega arith) (λ b. room_large len (length xs) room) m own fresh in
    let c =
      Phase-of 0 (2 ^ 12) true len cr3 7 (small_pages cr3) (Fresh cr3) fuel b.end b.state b.owner
        b.left span_4k (omega arith) top
        (paging-MapsNext 0 cr3 len (small_pages cr3) (omega arith) top (small-InstallsIdent cr3)) hf
        b.below (omega (arith, b.aligned))
        (λ u. room_small len b.end (length xs) (length b.left) room (b.near refl) b.below b.used)
        b.mapped b.root b.known in
    range_end fuel cr3 len s xs whole top b c
