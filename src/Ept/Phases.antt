-- ===== src/Ept/Phases.antt =====
-- One of the loops of `setup_ept_range`: the range that it maps, and what it takes.
use asor.Ept.Cost.{total_cost, total_cost_lem}
use asor.Base.{
  ℕ, suc, ◌+◌, ◌-◌, ◌*◌, ◌/◌, ◌%◌, ◌^◌, ◌≤◌, ◌<◌, ◌≡◌, refl, subst, sym, inl, Bool, true, false,
  ◌&&◌, Option, some, List, length, ltb, leb, if◌then◌else◌, arith,
}
use asor.PageAlloc.{Pages}
use asor.Ept.{
  install_ept_entry, install_ept, install_2m_ept, install_1g_ept, map_while, page_size_2m,
  page_size_1g,
}
use asor.Ept.Walk.{span}
use asor.Ept.Tables.{Owner, IsMapped}
use asor.Ept.Identity.{ident_entry, small_entry, large_entry}
use asor.Ept.Range.{IdentityFrom, MapsNext, map_while_lem}
use asor.Ept.Rounds.{rounds, region_aligned, index_of, region_cost, span-suc}

-- The entries that the three functions install.
pub installs_1g :
    (pml4 perm phys : ℕ) (s : Pages)
    → perm < 8
    → phys < 2 ^ 48
    → install_1g_ept pml4 phys phys perm s
      ≡ install_ept_entry pml4 3 phys (ident_entry 2 phys perm) 0 s
unfolding install_1g_ept
installs_1g pml4 perm phys s low h = rw (large_entry 1 phys perm h low)

pub installs_2m :
    (pml4 perm phys : ℕ) (s : Pages)
    → perm < 8
    → phys < 2 ^ 48
    → install_2m_ept pml4 phys phys perm s
      ≡ install_ept_entry pml4 2 phys (ident_entry 1 phys perm) 0 s
unfolding install_2m_ept
installs_2m pml4 perm phys s low h = rw (large_entry 0 phys perm h low)

pub installs_4k :
    (pml4 perm phys : ℕ) (s : Pages)
    → perm < 8
    → phys < 2 ^ 48
    → install_ept pml4 phys phys perm s
      ≡ install_ept_entry pml4 1 phys (ident_entry 0 phys perm) 0 s
unfolding install_ept
installs_4k pml4 perm phys s low h = rw (small_entry phys perm h low)

-- What a loop that may be left out does; `size` is `span f`.
pub record Phase (size : ℕ) (use? : Bool) (max pml4 perm : ℕ) (install : ℕ → Pages → Option Pages)
    (Known : ℕ → Pages → Owner → Type 0) (fuel phys : ℕ) (s : Pages) (xs : List ℕ) : Type 0 where
  pub end : ℕ
  pub state : Pages
  pub run :
      (if use? then map_while fuel install size max phys s else some (phys, s)) ≡ some (end, state)
  pub above : phys ≤ end
  pub below : end ≤ max
  pub aligned : end % size ≡ 0
  pub near : use? ≡ true → max < end + size
  pub owner : Owner
  pub left : List ℕ
  pub mapped : IsMapped state owner left
  pub root : owner pml4 ≡ some (3, 0)
  pub used : length xs ≤ length left + 3 * ((end - phys + (512 * size - 1)) / (512 * size))
  pub skipped : use? ≡ false → end ≡ phys
  pub maps : IdentityFrom phys end pml4 perm s state
  pub known : Known end state owner

skip_range : (A : Type 0) (x y : A) (lo ga : ℕ) → y ≡ (if leb lo ga && ltb ga lo then x else y)
skip_range A x y lo ga = ground arith

phase :
    (f : ℕ) (use? : Bool) (max pml4 perm : ℕ) (install : ℕ → Pages → Option Pages)
    (Known : ℕ → Pages → Owner → Type 0) (fuel phys : ℕ) (s : Pages) (owner : Owner) (xs : List ℕ)
    → f < 3
    → max ≤ 2 ^ 48
    → MapsNext f pml4 perm max install Known
    → max / 2 ^ 12 < fuel
    → phys ≤ max
    → phys % span (suc f) ≡ 0
    → (use? ≡ true → 3 * ((max - phys + (512 * span f - 1)) / (512 * span f)) ≤ length xs)
    → IsMapped s owner xs
    → owner pml4 ≡ some (3, 0)
    → Known phys s owner
    → Phase (span f) use? max pml4 perm install Known fuel phys s xs
phase f false max pml4 perm install Known fuel phys s owner xs hf top step hn le al room m own
      known =
    record {
      end = phys;
      state = s;
      run = refl;
      above = omega arith;
      below = le;
      aligned = region_aligned f phys hf al;
      near = λ b. absurd (ground arith);
      owner = owner;
      left = xs;
      mapped = m;
      root = own;
      used = omega arith;
      skipped = λ b. refl;
      maps = λ ga h. skip_range _ _ _ phys ga;
      known = known;
    }
phase f true max pml4 perm install Known fuel phys s owner xs hf top step hn le al room m own
      known =
    let al' = region_aligned f phys hf al in
    let r = rounds f phys max hf le al' in
    let n = r.count in
    let cost = total_cost_lem n f (phys / span f) phys hf (index_of f phys hf al') in
    let cost' = region_cost f phys n (total_cost f phys n) hf al cost in
    let (s', run, (owner', xs', m', own', len, maps, known')) =
      map_while_lem f pml4 perm max install Known hf top step n fuel phys s owner xs
        (omega (arith, r.fits, r.pages)) al' r.small r.fits r.stops
        (omega (arith, room refl, r.regions, cost')) m own (inl al) known in
    record {
      end = phys + n * span f;
      state = s';
      run = run;
      above = omega arith;
      below = r.fits;
      aligned = r.aligned;
      near = λ b. r.stops;
      owner = owner';
      left = xs';
      mapped = m';
      root = own';
      used = omega (arith, cost', r.exact, len);
      skipped = λ b. absurd (ground arith);
      maps = maps;
      known = known';
    }

pub span_4k : span 0 ≡ 2 ^ 12
unfolding span
span_4k = refl

pub span_2m : span 1 ≡ page_size_2m
unfolding span
span_2m = refl

pub span_1g : span 2 ≡ page_size_1g
unfolding span
span_1g = refl

pub Phase-of :
    (f size : ℕ) (use? : Bool) (max pml4 perm : ℕ) (install : ℕ → Pages → Option Pages)
    (Known : ℕ → Pages → Owner → Type 0) (fuel phys : ℕ) (s : Pages) (owner : Owner) (xs : List ℕ)
    → span f ≡ size
    → f < 3
    → max ≤ 2 ^ 48
    → MapsNext f pml4 perm max install Known
    → max / 2 ^ 12 < fuel
    → phys ≤ max
    → phys % (512 * size) ≡ 0
    → (use? ≡ true → 3 * ((max - phys + (512 * size - 1)) / (512 * size)) ≤ length xs)
    → IsMapped s owner xs
    → owner pml4 ≡ some (3, 0)
    → Known phys s owner
    → Phase size use? max pml4 perm install Known fuel phys s xs
Phase-of f size use? max pml4 perm install Known fuel phys s owner xs e hf top step hn le al room m
      own known =
    phase_size f size use? max pml4 perm install Known fuel phys s xs e (
      phase f use? max pml4 perm install Known fuel phys s owner xs hf top step hn le
        (subst (λ (t : ℕ). phys % t ≡ 0) (sym (span-suc f size e)) al)
        (subst (λ (t : ℕ). use? ≡ true → 3 * ((max - phys + (512 * t - 1)) / (512 * t)) ≤ length xs)
          (sym e) room)
        m own known)
  where
    phase_size :
        (f size : ℕ) (use? : Bool) (max pml4 perm : ℕ) (install : ℕ → Pages → Option Pages)
        (Known : ℕ → Pages → Owner → Type 0) (fuel phys : ℕ) (s : Pages) (xs : List ℕ)
        → span f ≡ size
        → Phase (span f) use? max pml4 perm install Known fuel phys s xs
        → Phase size use? max pml4 perm install Known fuel phys s xs
    phase_size f size use? max pml4 perm install Known fuel phys s xs e p = rw (← e) p
