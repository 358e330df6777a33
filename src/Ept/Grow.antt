-- ===== src/Ept/Grow.antt =====
-- A free page becomes a table: what every way of hooking one in has in common.
use asor.Base.{
  ℕ, suc, ◌+◌, ◌*◌, ◌/◌, ◌%◌, ◌^◌, ◌≤◌, ◌<◌, ◌≡◌, ◌≢◌, ◌⊎◌, inl, inr, true, false, none, some, List,
  [], ◌∷◌, ◌==◌, if◌then◌else◌, arith,
}
use native.Mathlib.Decide.{dec_lt, ℕ_discrete}
use asor.Memory.{Memory}
use asor.PageAlloc.{Pages}
use asor.PageAlloc.Chain.{IsFree, NotIn, SameAt, Chain-frame}
use asor.Ept.Walk.{span, present, large, addr, slot}
use asor.Ept.Access.{Allows, AllAllow}
use asor.Ept.Tables.{Owner, IsTable, Spare, IsMapped, OnPath, path_index}

unfoldable pub claim : Owner → ℕ → ℕ → ℕ → Owner
claim owner q k pre p = if p == q then some (k, pre) else owner p

pub slots_differ :
    (p p' i j : ℕ)
    → p % 2 ^ 12 ≡ 0
    → p' % 2 ^ 12 ≡ 0
    → i < 512
    → j < 512
    → p + 8 * i ≡ p' + 8 * j
    → (p ≡ p') × (i ≡ j)
slots_differ p p' i j a a' hi hj e = omega arith

pub some_ne_none : {p q : ℕ} {v : ℕ × ℕ} (owner : Owner) → owner p ≡ some v → owner q ≡ none → p ≢ q
some_ne_none owner a b e = cc

pub one_owner :
    (owner : Owner) (p p' m m' pre pre' : ℕ)
    → owner p ≡ some (m, pre)
    → owner p' ≡ some (m', pre')
    → p ≡ p'
    → (m ≡ m') × (pre ≡ pre')
one_owner owner p p' m m' pre pre' a b e = (cc, cc)

module _ (s : Pages) (owner : Owner) (q : ℕ) (xs : List ℕ) (k pt pre ga freelist : ℕ)
    (mem1 : Memory) (mapped : IsMapped s owner (q ∷ xs)) (own : owner pt ≡ some (suc k, pre))
    (prefix : pre ≡ ga / span (suc (suc k)))
    (rest : IsFree (record { mem = s.mem; freelist = freelist }) xs)
    (there : present (mem1 (slot (suc k) pt ga)) ≡ true)
    (small : large (mem1 (slot (suc k) pt ga)) ≡ false) (to : addr (mem1 (slot (suc k) pt ga)) ≡ q)
    (other : (a : ℕ) → (a < q) ⊎ (q + 2 ^ 12 ≤ a) → a ≢ slot (suc k) pt ga → mem1 a ≡ s.mem a)
    (leaves : (j : ℕ)
      → j < 512
      → present (mem1 (q + 8 * j)) ≡ true
      → large (mem1 (q + 8 * j)) ≡ false
      → k ≡ 0)
    (bigs : (j : ℕ)
      → j < 512
      → present (mem1 (q + 8 * j)) ≡ true
      → large (mem1 (q + 8 * j)) ≡ true
      → (k ≢ 3) × (addr (mem1 (q + 8 * j)) % span k ≡ 0)) where
  abbrev index : ℕ
  index = ga / span (suc k) % 512

  -- Entries of the old tables, but the one that is hooked in.
  kept_entry :
      (p m pre' i : ℕ)
      → owner p ≡ some (m, pre')
      → i < 512
      → (p + 8 * i ≢ slot (suc k) pt ga)
      → mem1 (p + 8 * i) ≡ s.mem (p + 8 * i)
  kept_entry p m pre' i o hi ne =
      let al = (mapped.tables p m pre' o).aligned in
      let p_q : p ≢ q = some_ne_none owner o mapped.spare.0 in
      other (p + 8 * i)
        (elim (dec_lt p q) [
          | yes lt ↦ inl (omega (arith, mapped.spare.1))
          | no ge ↦ inr (omega (arith, mapped.spare.1))
        ])
        ne

  -- What is known of the entry that is hooked in.
  hooked :
      (p m pre' i : ℕ)
      → owner p ≡ some (m, pre')
      → i < 512
      → p + 8 * i ≡ slot (suc k) pt ga
      → (m ≡ suc k) × (pre' * 512 + i ≡ ga / span (suc k))
  hooked p m pre' i o hi e =
      let d =
        slots_differ p pt i index (mapped.tables p m pre' o).aligned
          (mapped.tables pt (suc k) pre own).aligned hi (omega arith) e in
      let w = one_owner owner p pt m (suc k) pre' pre o own d.0 in
      (w.0, omega (arith, path_index (suc k) pre ga prefix, d.1, w.1))

  pub grow-OnPath : OnPath owner (suc k) ga s.mem mem1
  grow-OnPath p m pre' i o hi = elim (ℕ_discrete (p + 8 * i) (slot (suc k) pt ga)) [
    | yes e ↦ let h = hooked p m pre' i o hi e in inr (omega (arith, h.0), rw h.0 h.1)
    | no ne ↦ inl (kept_entry p m pre' i o hi ne)
  ]

  pub claim_kept :
      (p : ℕ) {v : ℕ × ℕ} → owner p ≡ some v → claim owner q k (ga / span (suc k)) p ≡ some v
  unfolding claim
  claim_kept p o = let ne : p ≢ q = some_ne_none owner o mapped.spare.0 in ground arith

  claim_new : claim owner q k (ga / span (suc k)) q ≡ some (k, ga / span (suc k))
  unfolding claim
  claim_new = ground arith

  new-IsTable : IsTable mem1 (claim owner q k (ga / span (suc k))) q k (ga / span (suc k))
  new-IsTable = record {
    aligned = mapped.spare.1;
    low = mapped.spare.2;
    level = omega (arith, (mapped.tables pt (suc k) pre own).level);
    child = λ j k' hj e pr sm. absurd (omega (arith, leaves j hj pr sm));
    big = λ j hj pr lg. bigs j hj pr lg;
  }

  old-IsTable :
      (p m pre' : ℕ)
      → owner p ≡ some (m, pre')
      → IsTable mem1 (claim owner q k (ga / span (suc k))) p m pre'
  old-IsTable p m pre' o = record {
    aligned = (mapped.tables p m pre' o).aligned;
    low = (mapped.tables p m pre' o).low;
    level = (mapped.tables p m pre' o).level;
    child = λ i k' hi e pr sm. elim (ℕ_discrete (p + 8 * i) (slot (suc k) pt ga)) [
      | yes eq ↦
          let h = hooked p m pre' i o hi eq in
          let ek : k' ≡ k = omega (arith, h.0) in rw (eq, to, h.1, ek) claim_new
      | no ne ↦
          let ke = kept_entry p m pre' i o hi ne in
          rw ke
            (claim_kept _ ((mapped.tables p m pre' o).child i k' hi e (rw ke at pr) (rw ke at sm)))
    ];
    big = λ i hi pr lg. elim (ℕ_discrete (p + 8 * i) (slot (suc k) pt ga)) [
      | yes eq ↦ let lg' : large (mem1 (slot (suc k) pt ga)) ≡ true = (rw eq at lg) in cc
      | no ne ↦
          let ke = kept_entry p m pre' i o hi ne in
          rw ke ((mapped.tables p m pre' o).big i hi (rw ke at pr) (rw ke at lg))
    ];
  }

  claim-cases :
      (p m pre' : ℕ)
      → claim owner q k (ga / span (suc k)) p ≡ some (m, pre')
      → IsTable mem1 (claim owner q k (ga / span (suc k))) p m pre'
  unfolding claim
  claim-cases p m pre' o = elim (ℕ_discrete p q) [
    | yes e ↦
        let em : m ≡ k = ground arith in
        let ep : pre' ≡ ga / span (suc k) = ground arith in rw (e, em, ep) new-IsTable
    | no ne ↦ old-IsTable p m pre' (ground arith)
  ]

  pub grow-AllAllow :
      (perm : ℕ)
      → AllAllow perm s.mem owner
      → Allows perm (mem1 (slot (suc k) pt ga))
      → ((j : ℕ)
          → k ≢ 0
          → j < 512
          → present (mem1 (q + 8 * j)) ≡ true
          → Allows perm (mem1 (q + 8 * j)))
      → AllAllow perm mem1 (claim owner q k (ga / span (suc k)))
  unfolding claim
  grow-AllAllow perm old hook new p l pre' i o nz hi pr = elim (ℕ_discrete p q) [
    | yes e ↦
        let em : l ≡ k = ground arith in rw e (new i (λ z. nz (omega (arith, em))) hi (rw e at pr))
    | no ne ↦
        let o' : owner p ≡ some (l, pre') = ground arith in
        elim (ℕ_discrete (p + 8 * i) (slot (suc k) pt ga)) [
          | yes eq ↦ rw eq hook
          | no off ↦
              let ke = kept_entry p l pre' i o' hi off in
              rw ke (old p l pre' i o' nz hi (rw ke at pr))
        ]
  ]

  -- Free pages keep their links.
  Spare-same : (ys : List ℕ) → Spare owner ys → NotIn q ys → SameAt s.mem mem1 ys
  Spare-same [] sp new = tt
  Spare-same (y ∷ ys) sp new =
      let y_pt : pt ≢ y = some_ne_none owner own sp.0 in
      (
        other y
            (elim (dec_lt y q) [
              | yes lt ↦ inl lt
              | no ge ↦ inr (omega (arith, mapped.spare.1, sp.1, new.0))
            ])
            (omega (arith, sp.1, (mapped.tables pt (suc k) pre own).aligned)),
        Spare-same ys sp.3 new.1,
      )

  still-Spare :
      (ys : List ℕ) → Spare owner ys → NotIn q ys → Spare (claim owner q k (ga / span (suc k))) ys
  unfolding claim
  still-Spare [] sp new = tt
  still-Spare (y ∷ ys) sp new = (ground (arith, sp.0, new.0), sp.1, sp.2, still-Spare ys sp.3 new.1)

  pub grow-IsMapped :
      IsMapped (record { mem = mem1; freelist = freelist }) (claim owner q k (ga / span (suc k))) xs
  grow-IsMapped = record {
    tables = claim-cases;
    free = record {
      chain =
          Chain-frame s.mem mem1 freelist xs (Spare-same xs mapped.spare.3 mapped.free.distinct.0)
            rest.chain;
      distinct = rest.distinct;
    };
    spare = still-Spare xs mapped.spare.3 mapped.free.distinct.0;
  }
