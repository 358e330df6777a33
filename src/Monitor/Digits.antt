-- ===== src/Monitor/Digits.antt =====
-- The two loops of `monitor_write_dec`: the digits from the last on, and their copy in order.
use native.Mathlib.Nat.{pow-suc, add-zero}
use asor.Base.{
  ℕ, zero, suc, ◌+◌, ◌/◌, ◌%◌, ◌^◌, ◌≤◌, ◌<◌, ◌≡◌, refl, ap, ap₂, inl, inr, true, false, some, List,
  [], ◌∷◌, ◌++◌, ltb, ◌==◌, if◌then◌else◌, Bool-cases, arith, length, take, drop, set, get_elem?,
  append_assoc, length-append, length-take,
}
use asor.Monitor.{store, dec_loop, copy_back}

-- The digits of a number, the last one first.
unfoldable pub dec_text : ℕ → ℕ → List ℕ
dec_text zero acc = []
dec_text (suc f) acc =
    let rest = dec_text f (acc / 10) in if acc == 0 then [] else (b'0' + acc % 10) ∷ rest

unfoldable pub rev_onto : List ℕ → List ℕ → List ℕ
rev_onto [] s = s
rev_onto (d ∷ ds) s = rev_onto ds (d ∷ s)

pub store-append :
    (pre : List ℕ) (x v : ℕ) (g : List ℕ)
    → store (pre ++ (x ∷ g)) (length pre) v ≡ some (pre ++ (v ∷ g))
unfolding store
store-append pre x v g = rw (at pre, inside) refl
  where
    at : (pre : List ℕ) → set (pre ++ (x ∷ g)) (length pre) v ≡ pre ++ (v ∷ g)
    at [] = refl
    at (p ∷ ps) = ap (λ (t : List ℕ). p ∷ t) (at ps)

    inside : ltb (length pre) (length (pre ++ (x ∷ g))) ≡ true
    inside = ground (arith, length-append pre (x ∷ g))

length-snoc : (pre : List ℕ) (x : ℕ) → length (pre ++ (x ∷ [])) ≡ length pre + 1
length-snoc pre x = omega (arith, length-append pre (x ∷ []))

dec_loop_stop : (f acc i : ℕ) (c : List ℕ) → acc ≡ 0 → dec_loop (suc f) acc i c ≡ some (i, c)
unfolding dec_loop
dec_loop_stop f acc i c e = rw e

dec_loop_step :
    (f acc i : ℕ) (c c' : List ℕ)
    → (acc == 0) ≡ false
    → store c i (b'0' + acc % 10) ≡ some c'
    → dec_loop (suc f) acc i c ≡ dec_loop f (acc / 10) (i + 1) c'
unfolding dec_loop
dec_loop_step f acc i c c' e s = rw (e, s)

pub dec_text_stop : (f acc : ℕ) → acc ≡ 0 → dec_text f acc ≡ []
unfolding dec_text
dec_text_stop zero acc e = refl
dec_text_stop (suc f) acc e = rw e

pub dec_text_step :
    (f acc : ℕ)
    → (acc == 0) ≡ false
    → dec_text (suc f) acc ≡ (b'0' + acc % 10) ∷ dec_text f (acc / 10)
unfolding dec_text
dec_text_step f acc e = rw e

-- With one round of fuel more than digits, and room for them, the loop leaves the digits in the
-- array and counts them.
pub dec_loop_lem :
    (f acc : ℕ) (pre g : List ℕ)
    → acc < 10 ^ f
    → f ≤ length g
    → dec_loop (suc f) acc (length pre) (pre ++ g)
      ≡ some (
        length pre + length (dec_text f acc),
        pre ++ (dec_text f acc ++ drop (length (dec_text f acc)) g),
      )
dec_loop_lem zero acc pre g h room = rw (
  dec_text_stop 0 acc (omega arith),
  dec_loop_stop 0 acc (length pre) (pre ++ g) (omega arith),
  add-zero,
)
dec_loop_lem (suc f) acc pre [] h room = absurd (omega arith)
dec_loop_lem (suc f) acc pre (x ∷ g) h room = elim (Bool-cases (acc == 0)) [
  | inl e ↦
      let z : acc ≡ 0 = ground arith in
      rw (
        dec_text_stop (suc f) acc z,
        dec_loop_stop (suc f) acc (length pre) (pre ++ (x ∷ g)) z,
        add-zero,
      )
  | inr e ↦
      let d = b'0' + acc % 10 in
      let ih =
        dec_loop_lem f (acc / 10) (pre ++ (d ∷ [])) g (omega (arith, pow-suc 10 f)) (omega arith) in
      rw
        (
          dec_text_step f acc e,
          dec_loop_step (suc f) acc (length pre) (pre ++ (x ∷ g)) (pre ++ (d ∷ g)) e
              (store-append pre x d g),
          ← length-snoc pre d,
          ← append_assoc pre (d ∷ []) g,
          ih,
        )
        (ap₂ (λ (i : ℕ) (c : List ℕ). some (i, c)) (omega (arith, length-snoc pre d))
          (append_assoc pre (d ∷ []) _))
]

get_elem?-append :
    (pre : List ℕ) (x : ℕ) (g : List ℕ) → get_elem? (pre ++ (x ∷ g)) (length pre) ≡ some x
get_elem?-append [] x g = refl
get_elem?-append (p ∷ pre) x g = get_elem?-append pre x g

-- A write to the last of the first `suc k` elements.
set_last :
    (k d : ℕ) (g suffix : List ℕ)
    → length g ≡ suc k
    → set (g ++ suffix) k d ≡ take k g ++ (d ∷ suffix)
set_last k d [] suffix e = absurd (omega arith)
set_last zero d (x ∷ []) suffix e = refl
set_last zero d (x ∷ y ∷ g) suffix e = absurd (omega arith)
set_last (suc k) d (x ∷ g) suffix e =
    ap (λ (t : List ℕ). x ∷ t) (set_last k d g suffix (omega arith))

store_last :
    (k d : ℕ) (g suffix : List ℕ)
    → length g ≡ suc k
    → store (g ++ suffix) k d ≡ some (take k g ++ (d ∷ suffix))
unfolding store
store_last k d g suffix e = rw (set_last k d g suffix e, inside) refl
  where
    inside : ltb k (length (g ++ suffix)) ≡ true
    inside = ground (arith, length-append g suffix)

pub copy_back_lem :
    (ds pre tl g suffix : List ℕ)
    → length g ≡ length ds
    → copy_back (length ds) (length pre) (pre ++ (ds ++ tl)) (g ++ suffix)
      ≡ some (rev_onto ds suffix)
unfolding copy_back rev_onto
copy_back_lem [] pre tl [] suffix e = refl
copy_back_lem [] pre tl (x ∷ g) suffix e = absurd (omega arith)
copy_back_lem (d ∷ ds) pre tl g suffix e =
    rw
      (
        get_elem?-append pre d (ds ++ tl),
        store_last (length ds) d g suffix e,
        ← length-snoc pre d,
        ← append_assoc pre (d ∷ []) (ds ++ tl),
      )
      (copy_back_lem ds (pre ++ (d ∷ [])) tl (take (length ds) g) (d ∷ suffix)
        (omega (arith, length-take (length ds) g)))
