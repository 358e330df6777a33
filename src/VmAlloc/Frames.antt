-- ===== src/VmAlloc/Frames.antt =====
-- `vmap`: a range of frames appears at a range of new virtual addresses.
use asor.Base.{
  ℕ, zero, suc, ◌+◌, ◌-◌, ◌*◌, ◌/◌, ◌%◌, ◌^◌, ◌≤◌, ◌<◌, ◌≡◌, ◌⊎◌, refl, ap, ◌∙◌, inl, inr, bit_and,
  Bool-cases, false, ◌&&◌, Option, none, some, List, length, ltb, leb, ◌==◌, if◌then◌else◌, arith,
}
use asor.Base.Bits.{bit_and_ones}
use asor.Memory.{page_size}
use asor.PageAlloc.{Pages}
use asor.Ept.Walk.{span, translate, Leaf}
use asor.Ept.Access.{access, rights, AllAllow, access-leaf}
use asor.Ept.Install.{below_top}
use asor.Ept.Range.{ident-Grants}
use asor.Ept.Tables.{Owner, IsMapped}
use asor.Ept.Parts.{Leaf_ext}
use asor.Ept.Final.{leaf?}
use asor.Ept.Identity.{ident_entry, ident-IsLeaf, ident_addr, ident_present}
use asor.Paging.{install_pte, install_pte_loop, install_page}
use asor.Paging.Directory.{AllPlain}
use asor.Paging.Install.{install_pte-Installs}
use asor.Paging.Range.{small_entry_7}
use asor.VmAlloc.{Vm, alloc_vpages, page_count, map_frames, vmap}
use asor.VmAlloc.Setup.{page_floor_lem}

-- The tables see the low 48 bits of an address.
install_pte_low :
    (root p pte : ℕ) (s : Pages)
    → install_pte root 1 p pte 0 s ≡ install_pte root 1 (p % 2 ^ 48) pte 0 s
unfolding install_pte install_pte_loop
install_pte_low root p pte s =
    let e4 : bit_and (p / 2 ^ 39) 511 ≡ bit_and (p % 2 ^ 48 / 2 ^ 39) 511 =
      bit_and_ones 9 (p / 2 ^ 39) ∙ omega (arith, bit_and_ones 9 (p % 2 ^ 48 / 2 ^ 39)) in
    let e3 : bit_and (p / 2 ^ 30) 511 ≡ bit_and (p % 2 ^ 48 / 2 ^ 30) 511 =
      bit_and_ones 9 (p / 2 ^ 30) ∙ omega (arith, bit_and_ones 9 (p % 2 ^ 48 / 2 ^ 30)) in
    let e2 : bit_and (p / 2 ^ 21) 511 ≡ bit_and (p % 2 ^ 48 / 2 ^ 21) 511 =
      bit_and_ones 9 (p / 2 ^ 21) ∙ omega (arith, bit_and_ones 9 (p % 2 ^ 48 / 2 ^ 21)) in
    let e1 : bit_and (p / 2 ^ 12) 511 ≡ bit_and (p % 2 ^ 48 / 2 ^ 12) 511 =
      bit_and_ones 9 (p / 2 ^ 12) ∙ omega (arith, bit_and_ones 9 (p % 2 ^ 48 / 2 ^ 12)) in
    rw (e4, e3, e2, e1) refl

install_page_run :
    (root phys p v : ℕ) (s : Pages)
    → phys % 2 ^ 12 ≡ 0
    → p % 2 ^ 48 ≡ v
    → install_page root phys p s ≡ install_pte root 1 v (ident_entry 0 phys 7) 0 s
unfolding install_page
install_page_run root phys p v s al e = rw (small_entry_7 phys al) (
    install_pte_low root p (ident_entry 0 phys 7) s
    ∙ ap (λ (a : ℕ). install_pte root 1 a (ident_entry 0 phys 7) 0 s) e)

-- What the address `ga` of a range from `v` on is mapped to.
abbrev pub frame : ℕ → ℕ → ℕ → Leaf
frame phys v ga = record { hpa = phys + (ga - v); low = 7; middle = 0; high = 0 }

frame-leaf :
    (phys v ga : ℕ)
    → phys < 2 ^ 48
    → phys % 2 ^ 12 ≡ 0
    → v % 2 ^ 12 ≡ 0
    → ga / 2 ^ 12 ≡ v / 2 ^ 12
    → leaf? 0 (ident_entry 0 phys 7) ga ≡ some (frame phys v ga)
unfolding span
frame-leaf phys v ga h al alv e = rw (ident_present phys 7 h (omega arith) (omega arith) 0) (
    ap some (
      Leaf_ext _ _ _ _ _ _ _ _ (omega (arith, ident_addr phys 7 h (omega arith) (omega arith) 0))
        (omega arith) (omega arith) (omega arith)))

-- From `v` up to `hi` the frames from `phys` on are mapped, and the others as before.
abbrev FramesFrom : ℕ → ℕ → ℕ → ℕ → Pages → Pages → Type 0
FramesFrom v hi phys root s s' =
    (ga : ℕ)
    → ga < 2 ^ 48
    → translate 3 s'.mem root ga
      ≡ (if leb v ga && ltb ga hi then some (frame phys v ga) else translate 3 s.mem root ga)

next_frame :
    (phys v ga : ℕ) → v + 2 ^ 12 ≤ ga → frame (phys + 2 ^ 12) (v + 2 ^ 12) ga ≡ frame phys v ga
next_frame phys v ga h = Leaf_ext _ _ _ _ _ _ _ _ (omega arith) refl refl refl

join_frames :
    (A : Type 0) (x y z t1 t2 : A) (v hi ga : ℕ)
    → v % 2 ^ 12 ≡ 0
    → v + 2 ^ 12 ≤ hi
    → (v + 2 ^ 12 ≤ ga → z ≡ x)
    → t2 ≡ (if leb (v + 2 ^ 12) ga && ltb ga hi then z else t1)
    → t1 ≡ (if leb v ga && ltb ga (v + 2 ^ 12) then x else y)
    → t2 ≡ (if leb v ga && ltb ga hi then x else y)
join_frames A x y z t1 t2 v hi ga al le same e2 e1 = elim (Bool-cases (leb (v + 2 ^ 12) ga)) [
  | inl up ↦ let s = same (ground arith) in ground arith
  | inr low ↦ ground arith
]

one_frame :
    (A : Type 0) (x l y t : A) (v ga : ℕ)
    → v % 2 ^ 12 ≡ 0
    → (ga / 2 ^ 12 ≡ v / 2 ^ 12 → l ≡ x)
    → t ≡ (if ga / 2 ^ 12 == v / 2 ^ 12 then l else y)
    → t ≡ (if leb v ga && ltb ga (v + 2 ^ 12) then x else y)
one_frame A x l y t v ga al same e = elim (Bool-cases (ga / 2 ^ 12 == v / 2 ^ 12)) [
  | inl here ↦ let s = same (ground arith) in ground arith
  | inr off ↦ ground arith
]

-- What the loop of `vmap` does to `n` pages at `p`, which the tables see at `v`.
abbrev MapsFrames : ℕ → ℕ → ℕ → ℕ → ℕ → Pages → List ℕ → Type 0
MapsFrames n root phys p v s xs =
    (s' : Pages) × (owner' : Owner) × (xs' : List ℕ) × (map_frames n root phys p s ≡ s')
    × IsMapped s' owner' xs'
    × AllPlain s'.mem owner'
    × AllAllow 7 s'.mem owner'
    × (owner' root ≡ some (3, 0))
    × (length xs ≤ length xs' + 3 * n)
    × FramesFrom v (v + n * page_size) phys root s s'

span_zero : (phys : ℕ) → phys % 2 ^ 12 ≡ 0 → phys % span 0 ≡ 0
unfolding span
span_zero phys al = al

span_test :
    (ga v : ℕ) (s s1 : Pages) (root phys : ℕ)
    → translate 3 s1.mem root ga ≡ (
        if ga / span 0 == v / span 0
        then leaf? 0 (ident_entry 0 phys 7) ga
        else translate 3 s.mem root ga)
    → translate 3 s1.mem root ga ≡ (
        if ga / 2 ^ 12 == v / 2 ^ 12
        then leaf? 0 (ident_entry 0 phys 7) ga
        else translate 3 s.mem root ga)
unfolding span
span_test ga v s s1 root phys h = h

-- A page, and the pages behind it.
map_frames_next :
    (n root phys p v : ℕ) (s s1 : Pages) (xs xs1 : List ℕ)
    → v % 2 ^ 12 ≡ 0
    → phys + page_size < 2 ^ 64
    → (install_page root phys p s).1 ≡ s1
    → length xs ≤ length xs1 + 3
    → FramesFrom v (v + 2 ^ 12) phys root s s1
    → MapsFrames n root (phys + page_size) ((p + page_size) % 2 ^ 64) (v + page_size) s1 xs1
    → MapsFrames (suc n) root phys p v s xs
unfolding map_frames
map_frames_next n root phys p v s s1 xs xs1 al fits run1 len1 first
      (s2, owner2, xs2, run2, m2, plain2, allows2, own2, len2, maps2) =
    let e : v + page_size + n * page_size ≡ v + suc n * page_size = omega arith in
    let w : (phys + page_size) % 2 ^ 64 ≡ phys + page_size = omega arith in
    (
      s2,
      owner2,
      xs2,
      rw (w, run1) run2,
      m2,
      plain2,
      allows2,
      own2,
      omega arith,
      λ ga h.
          join_frames (Option Leaf) (some (frame phys v ga)) (translate 3 s.mem root ga)
            (some (frame (phys + page_size) (v + page_size) ga)) (translate 3 s1.mem root ga)
            (translate 3 s2.mem root ga) v (v + suc n * page_size) ga al (omega arith)
            (λ up. ap some (next_frame phys v ga up)) (rw e at (maps2 ga h)) (first ga h),
    )

map_frames_lem :
    (n root phys p v : ℕ) (s : Pages) (owner : Owner) (xs : List ℕ)
    → (n ≡ 0) ⊎ (p % 2 ^ 48 ≡ v)
    → v % 2 ^ 12 ≡ 0
    → v + n * page_size ≤ 2 ^ 48
    → phys % 2 ^ 12 ≡ 0
    → phys + n * page_size ≤ 2 ^ 48
    → 3 * n ≤ length xs
    → IsMapped s owner xs
    → AllPlain s.mem owner
    → AllAllow 7 s.mem owner
    → owner root ≡ some (3, 0)
    → ((ga : ℕ) → v ≤ ga → ga < v + n * page_size → translate 3 s.mem root ga ≡ none)
    → MapsFrames n root phys p v s xs
unfolding map_frames
map_frames_lem zero root phys p v s owner xs at al top alp topp room m plain allows own free =
    (s, owner, xs, refl, m, plain, allows, own, omega arith, λ ga h. ground arith)
map_frames_lem (suc n) root phys p v s owner xs (inl z) al top alp topp room m plain allows own
      free =
    absurd (omega arith)
map_frames_lem (suc n) root phys p v s owner xs (inr at) al top alp topp room m plain allows own
      free =
    let lt : phys < 2 ^ 48 = omega arith in
    let (a, s1, owner1, xs1, run1, here, m1, plain1, own1, len1, way, allows1, maps1) =
      install_pte-Installs 3 0 root v (ident_entry 0 phys 7) s owner xs (omega arith)
        (inl (refl, omega arith)) m own (omega arith)
        (ident-IsLeaf phys 7 lt (omega arith) (omega arith) 0 (omega arith) (span_zero phys alp))
        (inr (omega arith)) plain (free v (omega arith) (omega arith)) in
    let first : FramesFrom v (v + 2 ^ 12) phys root s s1 = λ ga h.
      one_frame _ _ _ _ _ v ga al (λ e. frame-leaf phys v ga lt alp al e)
        (span_test ga v s s1 root phys (maps1 ga h)) in
    map_frames_next n root phys p v s s1 xs xs1 al (omega arith)
      (ap (λ (t : ℕ × Pages). t.1) (install_page_run root phys p v s alp at ∙ run1)) len1 first
      (map_frames_lem n root (phys + page_size) ((p + page_size) % 2 ^ 64) (v + page_size) s1 owner1
        xs1 (next_page n refl) (omega arith) (omega arith) (omega arith) (omega arith) (omega arith)
        m1 plain1 (allows1 7 (omega arith) (ident-Grants 0 phys 7 (omega arith)) allows) own1
        (λ ga lo hi. still_free ga s1 first lo hi))
  where
    next_page : (k : ℕ) → k ≡ n → (k ≡ 0) ⊎ ((p + page_size) % 2 ^ 64 % 2 ^ 48 ≡ v + page_size)
    next_page zero e = inl refl
    next_page (suc k) e = inr (omega arith)

    still_free :
        (ga : ℕ) (s1 : Pages)
        → FramesFrom v (v + 2 ^ 12) phys root s s1
        → v + page_size ≤ ga
        → ga < v + page_size + n * page_size
        → translate 3 s1.mem root ga ≡ none
    still_free ga s1 first lo hi =
        let out : (leb v ga && ltb ga (v + 2 ^ 12)) ≡ false = ground arith in
        (rw out at (first ga (omega arith))) ∙ free ga (omega arith) (omega arith)

vmap_run :
    (phys size n mem : ℕ) (vm : Vm) (s' : Pages)
    → phys < 2 ^ 64
    → size ≤ n * page_size
    → n * page_size < size + page_size
    → n < 2 ^ 32
    → (vm.vfree_top + 2 ^ 64 - n * page_size) % 2 ^ 64 ≡ mem
    → map_frames n vm.page_root (phys / 2 ^ 12 * 2 ^ 12) mem vm.mmu.pages ≡ s'
    → vmap phys size vm ≡ (mem, record vm { vfree_top = mem; mmu = record vm.mmu { pages = s' } })
unfolding vmap alloc_vpages
vmap_run phys size n mem vm s' hp lo hi small below run =
    let f = page_floor_lem ((size + (page_size - 1)) % 2 ^ 64) (omega arith) in
    let c : page_count size ≡ n = ap (λ (t : ℕ). t / page_size % 2 ^ 32) f ∙ omega arith in
    let top : (vm.vfree_top + 2 ^ 64 - page_size * n % 2 ^ 64) % 2 ^ 64 ≡ mem = omega arith in
    rw (c, top, page_floor_lem phys hp, run) refl

-- For a size of `n` pages, rounded up and fewer than 2^32, at virtual addresses below `vfree_top` of
-- which the tables see `v` and what follows, up to 2^48 at most, and for frames from `phys` on of
-- which `n` pages behind `phys` end at 2^48 at most; in well-formed tables where nothing is mapped
-- there, every entry with one of its three low bits set has bit 0 set, every present entry above the
-- last level allows reading, writing and the user, and three pages are free for each page: `vmap` moves
-- `vfree_top` down to the start of the range, which it returns, and every address of the range is
-- mapped to the frame of `phys` with the same distance for reading, writing and the user, while every
-- other address below 2^48 is translated as before; and what all the entries on the way to an address
-- leave together is what its translation says.
pub vmap_lem :
    (phys size n v ga : ℕ) (vm : Vm) (owner : Owner) (xs : List ℕ)
    → size ≤ n * page_size
    → n * page_size < size + page_size
    → n < 2 ^ 32
    → (vm.vfree_top + 2 ^ 64 - n * page_size) % 2 ^ 64 % 2 ^ 48 ≡ v
    → v % 2 ^ 12 ≡ 0
    → v + n * page_size ≤ 2 ^ 48
    → phys + n * page_size ≤ 2 ^ 48
    → 3 * n ≤ length xs
    → IsMapped vm.mmu.pages owner xs
    → AllPlain vm.mmu.pages.mem owner
    → AllAllow 7 vm.mmu.pages.mem owner
    → owner vm.page_root ≡ some (3, 0)
    → ((a : ℕ) → v ≤ a → a < v + n * page_size → translate 3 vm.mmu.pages.mem vm.page_root a ≡ none)
    → ga < 2 ^ 48
    → (vm' : Vm) × (vmap phys size vm ≡ ((vm.vfree_top + 2 ^ 64 - n * page_size) % 2 ^ 64, vm'))
      × (vm'.vfree_top ≡ (vm.vfree_top + 2 ^ 64 - n * page_size) % 2 ^ 64)
      × (translate 3 vm'.mmu.pages.mem vm.page_root ga ≡ (
          if leb v ga && ltb ga (v + n * page_size)
          then some (frame (phys / 2 ^ 12 * 2 ^ 12) v ga)
          else translate 3 vm.mmu.pages.mem vm.page_root ga))
      × (access 3 vm'.mmu.pages.mem vm.page_root ga
          ≡ rights (translate 3 vm'.mmu.pages.mem vm.page_root ga))
vmap_lem phys size n v ga vm owner xs lo hi few at al top topp room m plain allows own free h =
    let mem = (vm.vfree_top + 2 ^ 64 - n * page_size) % 2 ^ 64 in
    let (s', owner', xs', run, m', plain', allows', own', len, maps) =
      map_frames_lem n vm.page_root (phys / 2 ^ 12 * 2 ^ 12) mem v vm.mmu.pages owner xs (inr at) al
        top (omega arith) (omega arith) room m plain allows own free in
    (
      record vm { vfree_top = mem; mmu = record vm.mmu { pages = s' } },
      vmap_run phys size n mem vm s' (omega arith) lo hi few refl run,
      refl,
      maps ga h,
      access-leaf 3 vm.page_root 0 ga s'.mem owner' m'.tables allows' own' (below_top ga h),
    )
