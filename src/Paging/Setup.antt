-- ===== src/Paging/Setup.antt =====
-- `setup_mmu`: the identity map of the memory, and the registers that switch paging on.
use asor.Base.{
  ℕ, ◌+◌, ◌*◌, ◌/◌, ◌%◌, ◌^◌, ◌≤◌, ◌<◌, ◌≡◌, refl, ap, ◌∙◌, inl, none, some, List, ◌∷◌, length, ltb,
  if◌then◌else◌, arith,
}
use asor.Memory.{zero_page}
use asor.PageAlloc.{Pages}
use asor.PageAlloc.Chain.{IsFree, alloc_page_first}
use asor.Ept.Walk.{translate}
use asor.Ept.Access.{access, rights, access-leaf}
use asor.Ept.Install.{below_top}
use asor.SetupEpt.Identity.{ident-rights}
use asor.Ept.Tables.{Owner, Spare, IsMapped}
use asor.Ept.Identity.{ident}
use asor.SetupEpt.Root.{
  unowned, root_at, root_owner, cleared, root-IsMapped, root-AllAllow, root_owner_at,
  translate-root,
}
use asor.Paging.{
  Mmu, paging_enabled, cr0_is, cr3_is, cr4_is, cr0_pg_pe_wp, setup_mmu_range, enable_paging,
  setup_mmu,
}
use asor.Paging.Range.{Fresh, directory_room, setup_mmu_range_lem}

pub root-Fresh :
    (q : ℕ) (s : Pages)
    → Fresh q 0 (record { mem = zero_page q s.mem; freelist = s.mem q }) (root_at q)
root-Fresh q s = record {
  plain = λ p l pre i o hi.
      let (e, el, epre) = root_owner q p l pre o in
      let w : zero_page q s.mem (p + 8 * i) ≡ 0 =
        ap (λ (t : ℕ). zero_page q s.mem (t + 8 * i)) e ∙ cleared q i s.mem hi in
      inl (omega (arith, w));
  allows = root-AllAllow 7 q s.mem;
  unmapped = λ ga above h. translate-root q ga s.mem;
}

-- At least 4 GB, for the devices.
abbrev pub mapped_end : ℕ → ℕ
mapped_end end_of_memory = if ltb end_of_memory (2 ^ 32) then 2 ^ 32 else end_of_memory

setup_run :
    (fuel end_of_memory q : ℕ) (m : Mmu) (xs : List ℕ) (s' : Pages)
    → IsFree m.pages (q ∷ xs)
    → setup_mmu_range fuel q 0
        (mapped_end end_of_memory)
        (record { mem = zero_page q m.pages.mem; freelist = m.pages.mem q })
      ≡ some s'
    → setup_mmu fuel end_of_memory m ≡ some (q, enable_paging q (record m { pages = s' }))
unfolding setup_mmu
setup_run fuel end_of_memory q m xs s' f run =
    let (first, nz, rest) = alloc_page_first m.pages q xs f in rw (first, run) refl

-- What `setup_mmu` leaves: tables with root `q` that are well formed, on which more pages can be
-- installed.
pub record Running (q end : ℕ) (m m' : Mmu) (owner : Owner) (xs : List ℕ) : Type 0 where
  pub mapped : IsMapped m'.pages owner xs
  pub root : owner q ≡ some (3, 0)
  pub fresh : Fresh q end m'.pages owner
  pub cr3 : m'.cr3 ≡ q
  pub cr0 : m'.cr0 ≡ cr0_pg_pe_wp
  pub cr4 : m'.cr4 ≡ m.cr4
  pub printed :
      m'.printed ≡ cr4_is m.cr4 ∷ cr3_is q ∷ cr0_is cr0_pg_pe_wp ∷ paging_enabled ∷ m.printed

enabled-Running :
    (q end : ℕ) (m : Mmu) (s' : Pages) (owner : Owner) (xs : List ℕ)
    → IsMapped s' owner xs
    → owner q ≡ some (3, 0)
    → Fresh q end s' owner
    → Running q end m (enable_paging q (record m { pages = s' })) owner xs
unfolding enable_paging
enabled-Running q end m s' owner xs mapped root fresh = record {
  mapped = mapped;
  root = root;
  fresh = fresh;
  cr3 = refl;
  cr0 = refl;
  cr4 = refl;
  printed = refl;
}

enabled_pages :
    (q : ℕ) (m : Mmu) (s' : Pages) → (enable_paging q (record m { pages = s' })).pages ≡ s'
unfolding enable_paging
enabled_pages q m s' = refl

-- With a page at the head of the free list, at least three more for each gigabyte to be mapped, and
-- six, a whole number of pages of at most 2^48 bytes, and enough fuel, `setup_mmu` returns the page as the root
-- of its tables: it is in CR3, paging, protection and write protection are on in CR0, and these are
-- the values that are printed. The tables are well formed and take no more pages than that. They map
-- the memory, but at least 4 GB, each address to itself for reading, writing and the user, which all
-- the entries on the way to it leave together, and nothing else below 2^48.
pub setup_mmu_lem :
    (fuel end_of_memory q ga : ℕ) (m : Mmu) (xs : List ℕ)
    → IsFree m.pages (q ∷ xs)
    → Spare unowned (q ∷ xs)
    → end_of_memory % 2 ^ 12 ≡ 0
    → end_of_memory ≤ 2 ^ 48
    → mapped_end end_of_memory / 2 ^ 12 < fuel
    → directory_room (mapped_end end_of_memory) ≤ length xs
    → ga < 2 ^ 48
    → (m' : Mmu) × (owner : Owner) × (xs' : List ℕ) × (setup_mmu fuel end_of_memory m
        ≡ some (q, m'))
      × Running q (mapped_end end_of_memory) m m' owner xs'
      × (length xs ≤ length xs' + directory_room (mapped_end end_of_memory))
      × (translate 3 m'.pages.mem q ga
          ≡ (if ltb ga (mapped_end end_of_memory) then some (ident 7 ga) else none))
      × (access 3 m'.pages.mem q ga ≡ (if ltb ga (mapped_end end_of_memory) then 7 else 0))
setup_mmu_lem fuel end_of_memory q ga m xs f sp whole top hf room hga =
    let s : Pages = record { mem = zero_page q m.pages.mem; freelist = m.pages.mem q } in
    let (s', owner, xs', run, mapped, root, used, fresh, maps) =
      setup_mmu_range_lem fuel q (mapped_end end_of_memory) s (root_at q) xs (ground arith)
        (ground arith) hf room (root-IsMapped m.pages q xs f sp) (root_owner_at q)
        (root-Fresh q m.pages) in
    let map : translate 3 s'.mem q ga
        ≡ (if ltb ga (mapped_end end_of_memory) then some (ident 7 ga) else none) =
      maps ga hga
      ∙ ap (λ r. if ltb ga (mapped_end end_of_memory) then some (ident 7 ga) else r)
          (translate-root q ga m.pages.mem) in
    let same = enabled_pages q m s' in
    (
      enable_paging q (record m { pages = s' }),
      owner,
      xs',
      setup_run fuel end_of_memory q m xs s' f run,
      enabled-Running q (mapped_end end_of_memory) m s' owner xs' mapped root fresh,
      used,
      ap (λ (p : Pages). translate 3 p.mem q ga) same ∙ map,
      ap (λ (p : Pages). access 3 p.mem q ga) same
          ∙ access-leaf 3 q 0 ga s'.mem owner mapped.tables fresh.allows root (below_top ga hga)
          ∙ ap rights map
          ∙ ident-rights ga (ltb ga (mapped_end end_of_memory)),
    )
