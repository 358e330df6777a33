-- ===== src/Printf/Stream.antt =====
-- The stream: what it does with a text, and what `print_str` sends to it.
use asor.Base.{
  ℕ, zero, suc, ◌+◌, ◌-◌, ◌%◌, ◌^◌, ◌<◌, ◌≡◌, refl, ap, ◌∙◌, inl, inr, min, Bool, true, false, ◌&&◌,
  some, List, [], ◌∷◌, ◌++◌, length, replicate, get_or, ltb, leb, ◌==◌, if◌then◌else◌, Bool-cases,
  arith,
}
use asor.CString.{Bytes, store_byte}
use asor.CString.Strings.Compare.{IsString, strlen_lem}
use asor.Printf.{
  PStream, StrProps, positive, negative, sub32, addchar, fill, put_string, print_str, rounds_down,
  rounds_up,
}

unfoldable pub add_all : List ℕ → PStream → PStream
add_all [] p = p
add_all (c ∷ s) p = add_all s (addchar c p)

pub add_all-append : (s t : List ℕ) (p : PStream) → add_all (s ++ t) p ≡ add_all t (add_all s p)
unfolding add_all
add_all-append [] t p = refl
add_all-append (c ∷ s) t p = add_all-append s t (addchar c p)

-- What a stream with room for `room` characters at `dest` becomes by a text.
pub record Truncated (text : List ℕ) (dest room added : ℕ) (out : Bytes) (p : PStream)
    : Type 0 where
  pub length_mod : p.added ≡ (added + length text) % 2 ^ 32
  pub end : p.buffer ≡ dest + min room (length text)
  pub left : p.remain ≡ room - length text
  pub chars :
      (a : ℕ)
      → p.out a ≡ (
          if leb dest a && ltb a (dest + min room (length text))
          then get_or text (a - dest) 0 % 2 ^ 8
          else out a)

truncated_next :
    (c : ℕ) (s : List ℕ) (dest room a : ℕ) (out : Bytes)
    → (if leb (dest + 1) a && ltb a (dest + 1 + min room (length s))
        then get_or s (a - (dest + 1)) 0 % 2 ^ 8
        else store_byte dest (c % 2 ^ 8) out a)
      ≡ (if leb dest a && ltb a (dest + min (suc room) (length (c ∷ s)))
          then get_or (c ∷ s) (a - dest) 0 % 2 ^ 8
          else out a)
truncated_next c s dest room a out = elim (Bool-cases (a == dest)) [
  | inl first ↦
      let t : (leb (dest + 1) a && ltb a (dest + 1 + min room (length s))) ≡ false = ground arith in
      let t' : (leb dest a && ltb a (dest + min (suc room) (suc (length s)))) ≡ true =
        ground arith in
      let z : a - dest ≡ 0 = ground arith in rw (t, t', first, z)
  | inr other ↦ elim (Bool-cases (leb (dest + 1) a && ltb a (dest + 1 + min room (length s)))) [
    | inl tail ↦
        let t' : (leb dest a && ltb a (dest + min (suc room) (suc (length s)))) ≡ true =
          ground arith in
        let z : a - dest ≡ suc (a - (dest + 1)) = ground arith in rw (tail, t', z)
    | inr out_of ↦
        let t' : (leb dest a && ltb a (dest + min (suc room) (suc (length s)))) ≡ false =
          ground arith in
        rw (out_of, t', other)
  ]
]

pub add_all-Truncated :
    (text : List ℕ) (dest room added : ℕ) (out : Bytes)
    → added < 2 ^ 32
    → Truncated text dest room added out
        (add_all text (record { out = out; buffer = dest; remain = room; added = added }))
unfolding add_all addchar
add_all-Truncated [] dest room added out h = record {
  length_mod = omega arith;
  end = omega arith;
  left = omega arith;
  chars = λ a. let t : (leb dest a && ltb a (dest + min room 0)) ≡ false = ground arith in rw t;
}
add_all-Truncated (c ∷ s) dest zero added out h =
    let ih = add_all-Truncated s dest 0 ((added + 1) % 2 ^ 32) out (omega arith) in
    record {
      length_mod = omega (arith, ih.length_mod);
      end = omega (arith, ih.end);
      left = omega (arith, ih.left);
      chars = λ a. ih.chars a ∙ full a;
    }
  where
    full :
        (a : ℕ)
        → (if leb dest a && ltb a (dest + min 0 (length s))
            then get_or s (a - dest) 0 % 2 ^ 8
            else out a)
          ≡ (if leb dest a && ltb a (dest + min 0 (suc (length s)))
              then get_or (c ∷ s) (a - dest) 0 % 2 ^ 8
              else out a)
    full a =
        let t : (leb dest a && ltb a (dest + min 0 (length s))) ≡ false = ground arith in
        let t' : (leb dest a && ltb a (dest + min 0 (suc (length s)))) ≡ false = ground arith in
        rw (t, t')
add_all-Truncated (c ∷ s) dest (suc room) added out h =
    let ih =
      add_all-Truncated s (dest + 1) room ((added + 1) % 2 ^ 32) (store_byte dest (c % 2 ^ 8) out)
        (omega arith) in
    let e : suc room - 1 ≡ room = omega arith in
    let t : (suc room == 0) ≡ false = ground arith in
    rw (t, e)
      (record {
        length_mod = omega (arith, ih.length_mod);
        end = omega (arith, ih.end);
        left = omega (arith, ih.left);
        chars = λ a. ih.chars a ∙ truncated_next c s dest room a out;
      })

pub fill-add_all : (n c : ℕ) (p : PStream) → fill n c p ≡ add_all (replicate n c) p
unfolding fill add_all
fill-add_all zero c p = refl
fill-add_all (suc n) c p = fill-add_all n c (addchar c p)

put_string-add_all :
    (s : List ℕ) (fuel q : ℕ) (mem : Bytes) (p : PStream)
    → length s < fuel
    → IsString s q mem
    → put_string fuel q mem p ≡ some (add_all s p)
unfolding put_string add_all
put_string-add_all s zero q mem p lt h = absurd (omega arith)
put_string-add_all [] (suc fuel) q mem p lt h = rw h
put_string-add_all (c ∷ s) (suc fuel) q mem p lt (e, nz, h) =
    let f : (c == 0) ≡ false = ground arith in
    rw (e, f) (put_string-add_all s fuel (q + 1) mem (addchar c p) (omega arith) h)

-- A string in a field: to the right of a positive width, to the left of a negative one.
pub justify : ℕ → ℕ → List ℕ → List ℕ
justify npad pad s =
    if positive npad
    then replicate (npad - length s) pad ++ s
    else if negative npad
    then s ++ replicate (2 ^ 32 - npad - length s) b' '
    else s

left_rounds : (w len : ℕ) → positive w ≡ true → len < 2 ^ 31 → rounds_down (sub32 w len) ≡ w - len
left_rounds w len h l = ground arith

no_right :
    (w len : ℕ)
    → positive w ≡ true
    → len < 2 ^ 31
    → (let n = if positive (sub32 w len) then 0 else sub32 w len in
        if negative n then rounds_up ((n + len) % 2 ^ 32) else 0)
      ≡ 0
no_right w len h l = ground arith

right_rounds :
    (w len : ℕ)
    → w < 2 ^ 32
    → negative w ≡ true
    → len < 2 ^ 31
    → rounds_up ((w + len) % 2 ^ 32) ≡ 2 ^ 32 - w - len
right_rounds w len hw h l = ground arith

fill_if :
    (b : Bool) (n c : ℕ) (p : PStream)
    → (if b then fill n c p else p) ≡ fill (if b then n else 0) c p
unfolding fill
fill_if true n c p = refl
fill_if false n c p = refl

append_none : (s : List ℕ) → s ++ [] ≡ s
append_none [] = refl
append_none (c ∷ s) = ap (λ (t : List ℕ). c ∷ t) (append_none s)

-- `print_str` of a string sends it to the stream in its field.
pub print_str-add_all :
    (s : List ℕ) (fuel q : ℕ) (mem : Bytes) (props : StrProps) (p : PStream)
    → length s < fuel
    → length s < 2 ^ 31
    → props.npad < 2 ^ 32
    → IsString s q mem
    → print_str fuel q mem props p ≡ some (add_all (justify props.npad props.pad s) p)
unfolding print_str justify fill
print_str-add_all s fuel q mem props p lt small hw h =
    let w = props.npad in
    let len = length s in
    elim (Bool-cases (positive w)) [
      | inl right ↦
          rw
            (
              strlen_lem s fuel q mem lt h,
              right,
              put_string-add_all s fuel q mem (fill (rounds_down (sub32 w len)) props.pad p) lt h,
              fill_if (negative (if positive (sub32 w len) then 0 else sub32 w len))
                  (rounds_up (((if positive (sub32 w len) then 0 else sub32 w len) + len) % 2 ^ 32))
                  b' ' (add_all s (fill (rounds_down (sub32 w len)) props.pad p)),
              no_right w len right small,
              left_rounds w len right small,
              fill-add_all (w - len) props.pad p,
              add_all-append (replicate (w - len) props.pad) s p,
            )
            refl
      | inr other ↦ elim (Bool-cases (negative w)) [
        | inl left ↦
            let n = (w + len) % 2 ^ 32 in
            rw (
              strlen_lem s fuel q mem lt h,
              other,
              other,
              left,
              put_string-add_all s fuel q mem p lt h,
              right_rounds w len hw left small,
              fill-add_all (2 ^ 32 - w - len) b' ' (add_all s p),
              add_all-append s (replicate (2 ^ 32 - w - len) b' ') p,
            )
        | inr nowhere ↦ rw (
          strlen_lem s fuel q mem lt h,
          other,
          other,
          nowhere,
          put_string-add_all s fuel q mem p lt h,
        )
      ]
    ]
