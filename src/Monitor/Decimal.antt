-- ===== src/Monitor/Decimal.antt =====
-- `monitor_write_dec`: the digits come out backwards into one array and are turned round in the
-- other.
use native.Mathlib.Nat.{pow-suc}
use asor.Base.{
  ℕ, zero, suc, ◌+◌, ◌/◌, ◌%◌, ◌^◌, ◌≤◌, ◌<◌, ◌≡◌, refl, ap, sym, ◌≢◌, inl, inr, ◌∙◌, false, some,
  none, List, [], ◌∷◌, ◌++◌, ◌==◌, Bool-cases, arith, NonZero, length, take, drop, length-take,
  take-append-drop,
}
use asor.Monitor.{MColor, Monitor, write_color, store, dec_loop, write_dec}
use asor.Monitor.Numbers.{
  digit_value, value, digit_char, IsDigit, IsDigits, IsCanonical, IsCanonical-cons, puts,
  write_color-puts,
}
use asor.Monitor.Digits.{
  dec_text, rev_onto, store-append, dec_text_stop, dec_text_step, dec_loop_lem, copy_back_lem,
}

rev_onto-append : (ds s r : List ℕ) → rev_onto ds (s ++ r) ≡ rev_onto ds s ++ r
unfolding rev_onto
rev_onto-append [] s r = refl
rev_onto-append (d ∷ ds) s r = rev_onto-append ds (d ∷ s) r

length-dec_text : (f acc : ℕ) → length (dec_text f acc) ≤ f
unfolding dec_text
length-dec_text zero acc = omega arith
length-dec_text (suc f) acc = ground (arith, length-dec_text f (acc / 10))

digit_lem : (acc : ℕ) → digit_value (b'0' + acc % 10) ≡ acc % 10
digit_lem acc = ground arith

value-dec_text :
    (f acc : ℕ) (s : List ℕ)
    → acc < 10 ^ f
    → value 10 0 (rev_onto (dec_text f acc) s) ≡ value 10 acc s
unfolding dec_text rev_onto
value-dec_text zero acc s h = ap (λ (t : ℕ). value 10 t s) (omega arith)
value-dec_text (suc f) acc s h = elim (Bool-cases (acc == 0)) [
  | inl e ↦ rw e (ap (λ (t : ℕ). value 10 t s) (ground arith))
  | inr e ↦
      rw (e, value-dec_text f (acc / 10) ((b'0' + acc % 10) ∷ s) (omega (arith, pow-suc 10 f)))
        (ap (λ (t : ℕ). value 10 t s) (omega (arith, digit_lem acc)))
]

IsCanonical-rev :
    (f acc : ℕ) (s : List ℕ) → acc < 10 ^ f → acc ≢ 0 → IsCanonical (rev_onto (dec_text f acc) s)
unfolding rev_onto
IsCanonical-rev zero acc s h n = absurd (n (omega arith))
IsCanonical-rev (suc f) acc s h n =
    rw (dec_text_step f acc (ground arith)) (elim (Bool-cases (acc / 10 == 0)) [
      | inl e ↦
          rw (dec_text_stop f (acc / 10) (ground arith))
            (IsCanonical-cons (b'0' + acc % 10) s (ground arith))
      | inr e ↦
          IsCanonical-rev f (acc / 10) ((b'0' + acc % 10) ∷ s) (omega (arith, pow-suc 10 f))
            (ground arith)
    ])

IsDigit-dec : (acc : ℕ) → IsDigit 10 (b'0' + acc % 10)
unfolding digit_char
IsDigit-dec acc = (ground arith, ground arith)

IsDigits-rev : (f acc : ℕ) (s : List ℕ) → IsDigits 10 s → IsDigits 10 (rev_onto (dec_text f acc) s)
unfolding dec_text rev_onto
IsDigits-rev zero acc s h = h
IsDigits-rev (suc f) acc s h = elim (Bool-cases (acc == 0)) [
  | inl e ↦ rw e h
  | inr e ↦ rw e (IsDigits-rev f (acc / 10) ((b'0' + acc % 10) ∷ s) (IsDigit-dec acc, h))
]

NonZero-rev : (f acc : ℕ) (s : List ℕ) → NonZero s → NonZero (rev_onto (dec_text f acc) s)
unfolding dec_text rev_onto
NonZero-rev zero acc s h = h
NonZero-rev (suc f) acc s h = elim (Bool-cases (acc == 0)) [
  | inl e ↦ rw e h
  | inr e ↦ rw e (NonZero-rev f (acc / 10) ((b'0' + acc % 10) ∷ s) (ground arith, h))
]

drop_some : (k : ℕ) (c : List ℕ) → k < length c → (x : ℕ) × (r : List ℕ) × (drop k c ≡ x ∷ r)
drop_some k [] h = absurd (omega arith)
drop_some zero (x ∷ c) h = (x, c, refl)
drop_some (suc k) (x ∷ c) h = drop_some k c (omega arith)

store-some :
    (c : List ℕ) (k v : ℕ)
    → k < length c
    → (g : List ℕ) × (r : List ℕ) × (store c k v ≡ some (g ++ (v ∷ r))) × (length g ≡ k)
store-some c k v h =
    let (x, r, e) = drop_some k c h in
    (
      take k c,
      r,
      ap (λ (t : List ℕ). store t k v) (sym (whole x r e))
          ∙ ap (λ (i : ℕ). store (take k c ++ (x ∷ r)) i v) (sym len)
          ∙ store-append (take k c) x v r,
      len,
    )
  where
    len : length (take k c) ≡ k
    len = omega (arith, length-take k c)

    whole : (x : ℕ) (r : List ℕ) → drop k c ≡ x ∷ r → take k c ++ (x ∷ r) ≡ c
    whole x r e = rw (← e) (take-append-drop k c)

-- The two arrays and the string that is written, for a number that is not 0.
write_dec-text :
    (n : ℕ) (c c2 : List ℕ) (bc fc : MColor) (m : Monitor)
    → n < 10 ^ 10
    → n ≢ 0
    → length c ≡ 32
    → length c2 ≡ 32
    → write_dec n c c2 bc fc m ≡ some (puts (rev_onto (dec_text 10 n) []) bc fc m)
unfolding write_dec
write_dec-text n c c2 bc fc m h nz hc hc2 =
    let ds = dec_text 10 n in
    let k = length ds in
    let few = length-dec_text 10 n in
    let digits : dec_loop 11 n 0 c ≡ some (k, ds ++ drop k c) =
      dec_loop_lem 10 n [] c h (omega arith)
      ∙ ap (λ (t : ℕ). some (t, ds ++ drop k c)) (omega arith) in
    let (x, r, e) = drop_some k c (omega arith) in
    let (g, r2, e2, len) = store-some c2 k 0 (omega arith) in
    let test : (n == 0) ≡ false = ground arith in
    rw
      (
        test,
        digits,
        e,
        store-append ds x 0 r,
        e2,
        copy_back_lem ds [] (0 ∷ r) g (0 ∷ r2) len,
        rev_onto-append ds [] (0 ∷ r2),
      )
      (write_color-puts (rev_onto ds []) r2 bc fc m (NonZero-rev 10 n [] tt))

write_dec_zero :
    (n : ℕ) (c c2 : List ℕ) (bc fc : MColor) (m : Monitor)
    → n ≡ 0
    → write_dec n c c2 bc fc m ≡ some (puts (b'0' ∷ []) bc fc m)
unfolding write_dec puts
write_dec_zero n c c2 bc fc m e = rw e

-- For a 32-bit number `monitor_write_dec` stays inside its two arrays of 32 characters, whatever
-- they hold at first, and has the effect of writing a string of the characters 0 to 9 that,
-- read as decimal digits, stands for the number and has no leading zero.
pub write_dec_lem :
    (n : ℕ) (c c2 : List ℕ) (bc fc : MColor) (m : Monitor)
    → n < 2 ^ 32
    → length c ≡ 32
    → length c2 ≡ 32
    → (s : List ℕ) × (write_dec n c c2 bc fc m ≡ write_color (s ++ (0 ∷ [])) bc fc m)
      × (value 10 0 s ≡ n)
      × IsDigits 10 s
      × IsCanonical s
      × NonZero s
      × (write_dec n c c2 bc fc m ≢ none)
write_dec_lem n c c2 bc fc m h hc hc2 = elim (Bool-cases (n == 0)) [
  | inl e ↦
      let z : n ≡ 0 = ground arith in
      let w = write_dec_zero n c c2 bc fc m z in
      (
        b'0' ∷ [],
        w ∙ sym (write_color-puts (b'0' ∷ []) [] bc fc m (ground arith, tt)),
        omega arith,
        (IsDigit-dec 0, tt),
        tt,
        (ground arith, tt),
        rw w (ground arith),
      )
  | inr e ↦
      let nz : n ≢ 0 = ground arith in
      let w = write_dec-text n c c2 bc fc m (omega arith) nz hc hc2 in
      let s = rev_onto (dec_text 10 n) [] in
      (
        s,
        w ∙ sym (write_color-puts s [] bc fc m (NonZero-rev 10 n [] tt)),
        value-dec_text 10 n [] (omega arith),
        IsDigits-rev 10 n [] tt,
        IsCanonical-rev 10 n [] (omega arith) nz,
        NonZero-rev 10 n [] tt,
        rw w (ground arith),
      )
]
