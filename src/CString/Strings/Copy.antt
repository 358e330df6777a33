-- ===== src/CString/Strings/Copy.antt =====
-- `strcpy` and `strcat`.
use asor.Base.{
  ℕ, zero, suc, ◌+◌, ◌-◌, ◌^◌, ◌≤◌, ◌<◌, ◌≡◌, ◌∙◌, ◌⊎◌, inl, inr, true, false, ◌&&◌, some, List, [],
  ◌∷◌, ◌++◌, length, ltb, leb, ◌==◌, Bool-cases, arith,
}
use asor.CString.{Bytes, store_byte, copy_up}
use asor.CString.Blocks.{copied, copy_up_lem}
use asor.CString.Strings.{find_end, copy_string, strcpy, strcat}
use asor.CString.Strings.Compare.{IsString, AllBytes}

-- A string whose bytes stand elsewhere, in another memory.
pub IsString-moved :
    (s : List ℕ) (p q : ℕ) (mem mem' : Bytes)
    → ((i : ℕ) → i ≤ length s → mem' (q + i) ≡ mem (p + i))
    → IsString s p mem
    → IsString s q mem'
IsString-moved [] p q mem mem' f h = ground (arith, f 0 (omega arith))
IsString-moved (c ∷ s) p q mem mem' f (e, nz, h) = (
  ground (arith, f 0 (omega arith)),
  nz,
  IsString-moved s (p + 1) (q + 1) mem mem' (λ i le. next i (f (suc i) (omega arith))) h,
)
  where
    next : (i : ℕ) → mem' (q + suc i) ≡ mem (p + suc i) → mem' (q + 1 + i) ≡ mem (p + 1 + i)
    next i e =
        let a : q + 1 + i ≡ q + suc i = omega arith in
        let b : p + 1 + i ≡ p + suc i = omega arith in rw (a, b) e

pub IsString-store_byte :
    (s : List ℕ) (p a v : ℕ) (mem : Bytes)
    → (a < p) ⊎ (p + length s < a)
    → IsString s p mem
    → IsString s p (store_byte a v mem)
IsString-store_byte s p a v mem apart h =
    IsString-moved s p p mem (store_byte a v mem) (λ i le. ground arith) h

-- Two blocks that do not meet, of `n` bytes and one more each.
abbrev pub Apart : ℕ → ℕ → ℕ → Type 0
Apart p src n = (p + n < src) ⊎ (src + n < p)

pub copy_string_lem :
    (s : List ℕ) (fuel p src : ℕ) (mem : Bytes)
    → length s < fuel
    → IsString s src mem
    → Apart p src (length s)
    → copy_string fuel p src mem ≡ some (copy_up (length s + 1) p src mem)
unfolding copy_string copy_up
copy_string_lem s zero p src mem lt h apart = absurd (omega arith)
copy_string_lem [] (suc fuel) p src mem lt h apart = rw h
copy_string_lem (c ∷ s) (suc fuel) p src mem lt (e, nz, h) apart =
    let f : (mem src == 0) ≡ false = ground arith in
    let n : suc (length s) + 1 ≡ suc (length s + 1) = omega arith in
    rw (f, n)
      (copy_string_lem s fuel (p + 1) (src + 1) (store_byte p (mem src) mem) (omega arith)
        (IsString-store_byte s (src + 1) p (mem src) mem (ground arith) h) (ground arith))

pub find_end_lem :
    (s : List ℕ) (fuel p : ℕ) (mem : Bytes)
    → length s < fuel
    → IsString s p mem
    → find_end fuel p mem ≡ some (p + length s)
unfolding find_end
find_end_lem s zero p mem lt h = absurd (omega arith)
find_end_lem [] (suc fuel) p mem lt h = ground arith
find_end_lem (c ∷ s) (suc fuel) p mem lt (e, nz, h) =
    ground (arith, find_end_lem s fuel (p + 1) mem (omega arith) h)

-- The bytes of a block behind the copy.
copied_in : (p src n i : ℕ) (mem : Bytes) → i ≤ n → copied p src (n + 1) mem (p + i) ≡ mem (src + i)
copied_in p src n i mem le =
    let b : (leb p (p + i) && ltb (p + i) (p + (n + 1))) ≡ true = ground arith in
    let a : src + (p + i - p) ≡ src + i = omega arith in rw (b, a)

copied_out :
    (p src n a : ℕ) (mem : Bytes) → (a < p) ⊎ (p + n < a) → copied p src (n + 1) mem a ≡ mem a
copied_out p src n a mem out =
    let b : (leb p a && ltb a (p + (n + 1))) ≡ false = ground arith in rw b

copying_lem :
    (p src n a : ℕ) (mem : Bytes)
    → Apart p src n
    → copy_up (n + 1) p src mem a ≡ copied p src (n + 1) mem a
copying_lem p src n a mem apart = copy_up_lem (n + 1) p src a mem (ground arith)

IsString-append :
    (s t : List ℕ) (p : ℕ) (mem mem' : Bytes)
    → IsString s p mem
    → ((i : ℕ) → i < length s → mem' (p + i) ≡ mem (p + i))
    → IsString t (p + length s) mem'
    → IsString (s ++ t) p mem'
IsString-append [] t p mem mem' h f ht = let e : p + 0 ≡ p = omega arith in rw (← e) ht
IsString-append (c ∷ s) t p mem mem' (e, nz, h) f ht = (
  ground (arith, f 0 (omega arith)),
  nz,
  IsString-append s t (p + 1) mem mem' h (λ i lt. next i (f (suc i) (omega arith)))
      (let a : p + 1 + length s ≡ p + suc (length s) = omega arith in rw a ht),
)
  where
    next : (i : ℕ) → mem' (p + suc i) ≡ mem (p + suc i) → mem' (p + 1 + i) ≡ mem (p + 1 + i)
    next i e = let a : p + 1 + i ≡ p + suc i = omega arith in rw a e

-- What a copy of the string `u` to a block of `n` bytes and one at `dest` leaves.
pub record Written (u : List ℕ) (dest n : ℕ) (mem mem' : Bytes) : Type 0 where
  pub string : IsString u dest mem'
  pub frame : (a : ℕ) → (a < dest) ⊎ (dest + n < a) → mem' a ≡ mem a
  pub bytes : AllBytes mem → AllBytes mem'

copied-AllBytes : (p src n a : ℕ) (mem : Bytes) → AllBytes mem → copied p src n mem a < 2 ^ 8
copied-AllBytes p src n a mem al = elim (Bool-cases (leb p a && ltb a (p + n))) [
  | inl in_block ↦ rw in_block (al (src + (a - p)))
  | inr out ↦ rw out (al a)
]

strcat-Written :
    (s t : List ℕ) (fuel dest src : ℕ) (mem : Bytes)
    → length s < fuel
    → length t < fuel
    → IsString s dest mem
    → IsString t src mem
    → Apart (dest + length s) src (length t)
    → (mem' : Bytes) × (strcat fuel dest src mem ≡ some mem')
      × Written (s ++ t) dest (length s + length t) mem mem'
unfolding strcat
strcat-Written s t fuel dest src mem ls lt hs ht apart =
    let p = dest + length s in
    let mem' = copy_up (length t + 1) p src mem in
    (
      mem',
      rw (find_end_lem s fuel dest mem ls hs, copy_string_lem t fuel p src mem lt ht apart),
      record {
        string =
            IsString-append s t dest mem mem' hs
              (λ i le.
                copying_lem p src (length t) (dest + i) mem apart
                ∙ copied_out p src (length t) (dest + i) mem (inl (omega arith)))
              (IsString-moved t src p mem mem'
                (λ i le.
                  copying_lem p src (length t) (p + i) mem apart
                  ∙ copied_in p src (length t) i mem le)
                ht);
        frame = λ a out.
            copying_lem p src (length t) a mem apart
            ∙ copied_out p src (length t) a mem (ground arith);
        bytes = λ al a.
            rw (copying_lem p src (length t) a mem apart)
              (copied-AllBytes p src (length t + 1) a mem al);
      },
    )

pub strcpy-Written :
    (t : List ℕ) (fuel dest src : ℕ) (mem : Bytes)
    → length t < fuel
    → IsString t src mem
    → Apart dest src (length t)
    → (mem' : Bytes) × (strcpy fuel dest src mem ≡ some mem') × Written t dest (length t) mem mem'
unfolding strcpy
strcpy-Written t fuel dest src mem lt ht apart =
    let e : dest + 0 ≡ dest = omega arith in
    let empty : IsString [] dest (store_byte dest 0 mem) = ground arith in
    let ht' = IsString-store_byte t src dest 0 mem (ground arith) ht in
    let (mem', run, w) =
      strcat-Written [] t fuel dest src (store_byte dest 0 mem) (omega arith) lt empty ht'
        (rw e apart) in
    (
      mem',
      run,
      record {
        string = w.string;
        frame = λ a out. w.frame a (ground arith) ∙ ground arith;
        bytes = λ al. w.bytes (λ a. ground (arith, al a));
      },
    )

-- `strcat` of a string `t` to a string `s`, when the block at `src` does not meet the block of the
-- result at `dest`, leaves the joined string at `dest` and writes nothing outside its block.
pub strcat_lem :
    (s t : List ℕ) (fuel dest src a : ℕ) (mem : Bytes)
    → length s < fuel
    → length t < fuel
    → IsString s dest mem
    → IsString t src mem
    → Apart (dest + length s) src (length t)
    → (a < dest) ⊎ (dest + (length s + length t) < a)
    → (mem' : Bytes) × (strcat fuel dest src mem ≡ some mem')
      × IsString (s ++ t) dest mem'
      × (mem' a ≡ mem a)
strcat_lem s t fuel dest src a mem ls lt hs ht apart out =
    let (mem', run, w) = strcat-Written s t fuel dest src mem ls lt hs ht apart in
    (mem', run, w.string, w.frame a out)

-- `strcpy` of a string to a block that does not meet it leaves the string there and writes nothing
-- outside the block, whatever stood there.
pub strcpy_lem :
    (t : List ℕ) (fuel dest src a : ℕ) (mem : Bytes)
    → length t < fuel
    → IsString t src mem
    → Apart dest src (length t)
    → (a < dest) ⊎ (dest + length t < a)
    → (mem' : Bytes) × (strcpy fuel dest src mem ≡ some mem')
      × IsString t dest mem'
      × (mem' a ≡ mem a)
strcpy_lem t fuel dest src a mem lt ht apart out =
    let (mem', run, w) = strcpy-Written t fuel dest src mem lt ht apart in
    (mem', run, w.string, w.frame a out)
