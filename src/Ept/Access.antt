-- ===== src/Ept/Access.antt =====
-- What the processor lets a guest do at an address: the permissions of all the entries on the way
-- taken together, of the tables too. And when the permissions of the leaf are enough to know them.
use asor.Base.{
  ℕ, zero, suc, ◌+◌, ◌*◌, ◌/◌, ◌%◌, ◌<◌, ◌≡◌, refl, ap, sym, ◌≢◌, ◌∙◌, inl, inr, bit_and, true,
  Option, none, some, if◌then◌else◌, Bool-cases, arith,
}
use asor.Base.Bits.{bit-bit_and, bit_ext, bit_and-zero, bit_and_comm, bit_and_ones}
use asor.Memory.{Memory}
use asor.Ept.Walk.{span, present, large, addr, slot, translate, Leaf}
use asor.Ept.Tables.{Owner, Tables, path_index}

-- The three low bits of an entry are the permissions that it leaves.
unfoldable pub access : ℕ → Memory → ℕ → ℕ → ℕ
access zero mem pt ga = let e = mem (slot 0 pt ga) in if present e then e % 8 else 0
access (suc l) mem pt ga =
    let e = mem (slot (suc l) pt ga) in
    let below = access l mem (addr e) ga in
    if present e then (if large e then e % 8 else bit_and (e % 8) below) else 0

-- The permissions that a leaf says.
abbrev pub rights : Option Leaf → ℕ
rights none = 0
rights (some x) = x.low % 8

-- An entry leaves all of `perm`.
abbrev pub Allows : ℕ → ℕ → Type 0
Allows perm e = bit_and (e % 8) perm ≡ perm

-- Every entry above the last level does, one that leads to a table and one that is a leaf.
abbrev pub AllAllow : ℕ → Memory → Owner → Type 0
AllAllow perm mem owner =
    (p l pre i : ℕ)
    → owner p ≡ some (l, pre)
    → l ≢ 0
    → i < 512
    → present (mem (p + 8 * i)) ≡ true
    → Allows perm (mem (p + 8 * i))

pub Allows-low : (perm e e' : ℕ) → e % 8 ≡ e' % 8 → Allows perm e' → Allows perm e
Allows-low perm e e' same h = ap (λ (t : ℕ). bit_and t perm) same ∙ h

pub Allows-all : (perm e : ℕ) → perm < 8 → e % 8 ≡ 7 → Allows perm e
Allows-all perm e lt full =
    ap (λ (t : ℕ). bit_and t perm) full ∙ bit_and_comm 7 perm ∙ bit_and_ones 3 perm ∙ omega arith

bit_and_assoc : (a b c : ℕ) → bit_and (bit_and a b) c ≡ bit_and a (bit_and b c)
bit_and_assoc a b c = bit_ext _ _ λ i. omega (
  arith,
  bit-bit_and (bit_and a b) c i,
  bit-bit_and a b i,
  bit-bit_and a (bit_and b c) i,
  bit-bit_and b c i,
)

pub bit_and_self : (a : ℕ) → bit_and a a ≡ a
bit_and_self a = bit_ext _ _ (λ i. omega (arith, bit-bit_and a a i))

-- An entry that allows `perm` is of no matter for it.
pass : (perm e a : ℕ) → Allows perm e → bit_and (bit_and (e % 8) a) perm ≡ bit_and a perm
pass perm e a h =
    ap (λ (t : ℕ). bit_and t perm) (bit_and_comm (e % 8) a)
    ∙ bit_and_assoc a (e % 8) perm
    ∙ ap (bit_and a) h

-- Nothing can be done where nothing is mapped.
pub access-none :
    (l : ℕ) (mem : Memory) (pt ga : ℕ) → translate l mem pt ga ≡ none → access l mem pt ga ≡ 0
unfolding access translate
access-none zero mem pt ga h = elim (Bool-cases (present (mem (slot 0 pt ga)))) [
  | inr absent ↦ rw absent refl
  | inl there ↦ absurd (some_none (rw there at h))
]
  where
    some_none : {A : Type 0} {x : A} → some x ≡ none → ⊥
    some_none e = cc
access-none (suc l) mem pt ga h =
    let e = mem (slot (suc l) pt ga) in
    elim (Bool-cases (present e)) [
      | inr absent ↦ rw absent refl
      | inl there ↦ elim (Bool-cases (large e)) [
        | inl big ↦ absurd (some_none (rw (there, big) at h))
        | inr small ↦
            let below : access l mem (addr e) ga ≡ 0 =
              access-none l mem (addr e) ga (rw (there, small) at h) in
            rw (there, small) (ap (bit_and (e % 8)) below ∙ bit_and-zero (e % 8))
      ]
    ]
  where
    some_none : {A : Type 0} {x : A} → some x ≡ none → ⊥
    some_none e = cc

-- Where the entries above allow `perm`, the leaf decides about `perm`.
pub access-rights :
    (perm l pt pre ga : ℕ) (mem : Memory) (owner : Owner)
    → Tables mem owner
    → AllAllow perm mem owner
    → owner pt ≡ some (l, pre)
    → pre ≡ ga / span (suc l)
    → bit_and (access l mem pt ga) perm ≡ bit_and (rights (translate l mem pt ga)) perm
unfolding access translate
access-rights perm zero pt pre ga mem owner t all own prefix =
    elim (Bool-cases (present (mem (slot 0 pt ga)))) [
      | inr absent ↦ rw absent refl
      | inl there ↦ rw there (ap (λ (x : ℕ). bit_and x perm) (omega arith))
    ]
access-rights perm (suc k) pt pre ga mem owner t all own prefix =
    let i = ga / span (suc k) % 512 in
    let e = mem (slot (suc k) pt ga) in
    elim (Bool-cases (present e)) [
      | inr absent ↦ rw absent refl
      | inl there ↦ elim (Bool-cases (large e)) [
        | inl big ↦ rw (there, big) (ap (λ (x : ℕ). bit_and x perm) (omega arith))
        | inr small ↦
            rw (there, small)
              (pass perm e (access k mem (addr e) ga)
                  (all pt (suc k) pre i own (omega arith) (omega arith) there)
                ∙ access-rights perm k (addr e) (pre * 512 + i) ga mem owner t all
                    ((t pt (suc k) pre own).child i k (omega arith) refl there small)
                    (path_index (suc k) pre ga prefix))
      ]
    ]

-- Where they allow what the leaf says, it is what the guest can do.
pub access-exact :
    (perm l pt pre ga : ℕ) (mem : Memory) (owner : Owner) (x : Leaf)
    → Tables mem owner
    → AllAllow perm mem owner
    → owner pt ≡ some (l, pre)
    → pre ≡ ga / span (suc l)
    → translate l mem pt ga ≡ some x
    → x.low % 8 ≡ perm
    → access l mem pt ga ≡ perm
unfolding access translate
access-exact perm zero pt pre ga mem owner x t all own prefix h low =
    elim (Bool-cases (present (mem (slot 0 pt ga)))) [
      | inr absent ↦ absurd (none_some (rw absent at h))
      | inl there ↦ let same = some_low (rw there at h) in rw there (omega (arith, same, low))
    ]
  where
    none_some : none ≡ some x → ⊥
    none_some e = cc

    some_low : {y : Leaf} → some y ≡ some x → y.low ≡ x.low
    some_low e = cc
access-exact perm (suc k) pt pre ga mem owner x t all own prefix h low =
    let i = ga / span (suc k) % 512 in
    let e = mem (slot (suc k) pt ga) in
    elim (Bool-cases (present e)) [
      | inr absent ↦ absurd (none_some (rw absent at h))
      | inl there ↦ elim (Bool-cases (large e)) [
        | inl big ↦
            let same = some_low (rw (there, big) at h) in rw (there, big) (omega (arith, same, low))
        | inr small ↦
            let below : access k mem (addr e) ga ≡ perm =
              access-exact perm k (addr e) (pre * 512 + i) ga mem owner x t all
                ((t pt (suc k) pre own).child i k (omega arith) refl there small)
                (path_index (suc k) pre ga prefix) (rw (there, small) at h) low in
            rw (there, small)
              (ap (bit_and (e % 8)) below
                ∙ all pt (suc k) pre i own (omega arith) (omega arith) there)
      ]
    ]
  where
    none_some : none ≡ some x → ⊥
    none_some e = cc

    some_low : {y : Leaf} → some y ≡ some x → y.low ≡ x.low
    some_low e = cc

access-lt : (l : ℕ) (mem : Memory) (pt ga : ℕ) → bit_and (access l mem pt ga) 7 ≡ access l mem pt ga
unfolding access
access-lt zero mem pt ga = elim (Bool-cases (present (mem (slot 0 pt ga)))) [
  | inr absent ↦ rw absent refl
  | inl there ↦ rw there (bit_and_ones 3 (mem (slot 0 pt ga) % 8) ∙ omega arith)
]
access-lt (suc l) mem pt ga =
    let e = mem (slot (suc l) pt ga) in
    elim (Bool-cases (present e)) [
      | inr absent ↦ rw absent refl
      | inl there ↦ elim (Bool-cases (large e)) [
        | inl big ↦ rw (there, big) (bit_and_ones 3 (e % 8) ∙ omega arith)
        | inr small ↦
            rw (there, small)
              (bit_and_assoc (e % 8) (access l mem (addr e) ga) 7
                ∙ ap (bit_and (e % 8)) (access-lt l mem (addr e) ga))
      ]
    ]

rights-lt : (o : Option Leaf) → bit_and (rights o) 7 ≡ rights o
rights-lt none = refl
rights-lt (some x) = bit_and_ones 3 (x.low % 8) ∙ omega arith

-- When the entries above the last level allow everything, the leaf decides.
pub access-leaf :
    (l pt pre ga : ℕ) (mem : Memory) (owner : Owner)
    → Tables mem owner
    → AllAllow 7 mem owner
    → owner pt ≡ some (l, pre)
    → pre ≡ ga / span (suc l)
    → access l mem pt ga ≡ rights (translate l mem pt ga)
access-leaf l pt pre ga mem owner t all own prefix =
    sym (access-lt l mem pt ga)
    ∙ access-rights 7 l pt pre ga mem owner t all own prefix
    ∙ rights-lt (translate l mem pt ga)
