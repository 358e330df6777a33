-- ===== src/CString/Strings/Glob.antt =====
-- `simple_glob` against matching on lists.
use asor.Base.{
  ℕ, suc, ◌+◌, ◌-◌, ◌≤◌, ◌<◌, ◌≡◌, ap, ◌≢◌, ◌⊎◌, inl, inr, Bool, true, false, ◌&&◌, some, List, [],
  ◌∷◌, length, drop, length-drop, ltb, ◌==◌, if◌then◌else◌, Bool-cases, ◌>>=◌, arith,
}
use asor.CString.{Bytes, store_byte}
use asor.CString.Strings.{strcpy, size_max, glob_copy, simple_glob}
use asor.CString.Strings.Compare.{IsString, AllBytes, eq_list, prefix?, strlen_lem, strcmp-eq_list}
use asor.CString.Strings.Search.{index_of, strstr_lem}
use asor.CString.Strings.Copy.{Apart, IsString-moved, IsString-store_byte, strcpy-Written}
use asor.CString.Strings.Pattern.{
  found?, suffix?, strip_end, glob_rest, glob, IsString-drop, index_of-prefix?, found?-at,
  strip_end-star, length-strip_end,
}

-- The copy of the pattern, cut where its last star stood.
cut : ℕ → List ℕ → Bytes → Bytes
cut q p mem = if (strip_end p).0 then store_byte (q + length ((strip_end p).1)) 0 mem else mem

IsString-cut :
    (p : List ℕ) (q : ℕ) (mem : Bytes)
    → IsString p q mem
    → IsString ((strip_end p).1) q (cut q p mem)
unfolding cut
IsString-cut [] q mem h = h
IsString-cut (c ∷ []) q mem (e, nz, h) = elim (Bool-cases (c == b'*')) [
  | inl y ↦ rw y (ground arith)
  | inr n ↦ rw n (e, nz, h)
]
IsString-cut (c ∷ d ∷ s) q mem (e, nz, h) =
    let ih = IsString-cut (d ∷ s) (q + 1) mem h in
    let a : q + suc (length ((strip_end (d ∷ s)).1)) ≡ q + 1 + length ((strip_end (d ∷ s)).1) =
      omega arith in
    elim (Bool-cases ((strip_end (d ∷ s)).0)) [
      | inl y ↦ rw y (ground arith, nz, rw a (rw y at ih))
      | inr n ↦ rw n (e, nz, rw n at ih)
    ]

shorter : (p : List ℕ) → length ((strip_end p).1) ≤ length p
shorter p = let len = length-strip_end p in ground arith

AllBytes-cut : (p : List ℕ) (q : ℕ) (mem : Bytes) → AllBytes mem → AllBytes (cut q p mem)
unfolding cut
AllBytes-cut p q mem al a = elim (Bool-cases ((strip_end p).0)) [
  | inl y ↦ rw y (ground (arith, al a))
  | inr n ↦ rw n (al a)
]

-- A string that the copy does not meet.
IsString-kept :
    (p s : List ℕ) (q text : ℕ) (mem : Bytes)
    → (q + length ((strip_end p).1) < text) ⊎ (text + length s < q + length ((strip_end p).1))
    → IsString s text mem
    → IsString s text (cut q p mem)
unfolding cut
IsString-kept p s q text mem apart h = elim (Bool-cases ((strip_end p).0)) [
  | inl y ↦ rw y (IsString-store_byte s text (q + length ((strip_end p).1)) 0 mem apart h)
  | inr n ↦ rw n h
]

glob_copy_lem :
    (t s : List ℕ) (fuel text copy : ℕ) (a b : Bool) (mem : Bytes)
    → AllBytes mem
    → text ≢ 0
    → length s < fuel
    → length t < fuel
    → length s < size_max
    → IsString s text mem
    → IsString t copy mem
    → glob_copy fuel text copy (length t) a b mem
      ≡ some (
          if a && b
          then found? (index_of t s)
          else if b
          then prefix? t s
          else if a
          then suffix? t s
          else eq_list s t)
unfolding glob_copy
glob_copy_lem t s fuel text copy true true mem al nz ls lt lm hs ht =
    rw (strstr_lem s t fuel text copy mem al ls lt hs ht)
      (ap some (found?-at text (index_of t s) nz))
glob_copy_lem t s fuel text copy false true mem al nz ls lt lm hs ht =
    rw (strstr_lem s t fuel text copy mem al ls lt hs ht) (ap some (index_of-prefix? t s text nz))
glob_copy_lem t s fuel text copy false false mem al nz ls lt lm hs ht =
    ap some (strcmp-eq_list s t text copy mem al lm hs ht)
glob_copy_lem t s fuel text copy true false mem al nz ls lt lm hs ht =
    rw (strlen_lem s fuel text mem ls hs) (elim (Bool-cases (ltb (length s) (length t))) [
      | inl short ↦ rw short
      | inr long ↦
          let n = length s - length t in
          let at : text + length s - length t ≡ text + n = ground arith in
          rw (long, at)
            (ap some (
              strcmp-eq_list (drop n s) t (text + n) copy mem al (omega (arith, length-drop n s))
                (IsString-drop n s text mem (omega arith) hs) ht))
    ])

-- The second half of `simple_glob`, when the pattern behind a first star was copied.
copied_pattern :
    (p s : List ℕ) (fuel text pattern copy : ℕ) (star_start : Bool) (mem : Bytes)
    → AllBytes mem
    → text ≢ 0
    → length s < fuel
    → length p < fuel
    → length s < size_max
    → (copy + length p < text) ⊎ (text + length s < copy)
    → IsString s text mem
    → IsString p pattern mem
    → IsString p copy mem
    → (let star_end = ltb 0 (length p) && mem (pattern + length p - 1) == b'*' in
        let n'' = if star_end then length p - 1 else length p in
        glob_copy fuel text copy n'' star_start star_end
          (if star_end then store_byte (copy + n'') 0 mem else mem))
      ≡ some (glob_rest star_start p s)
unfolding cut
copied_pattern p s fuel text pattern copy star_start mem al nz ls lp lm apart hs hp hc =
    rw (strip_end-star p pattern mem hp, ← length-strip_end p)
      (glob_copy_lem ((strip_end p).1) s fuel text copy star_start ((strip_end p).0)
        (cut copy p mem) (AllBytes-cut p copy mem al) nz ls (omega (arith, shorter p)) lm
        (IsString-kept p s copy text mem (omega (arith, shorter p)) hs)
        (IsString-cut p copy mem hc))

-- `strcpy` of the pattern, and what follows.
after_copy :
    (p s : List ℕ) (fuel text pattern copy : ℕ) (star_start : Bool) (mem : Bytes)
    → AllBytes mem
    → text ≢ 0
    → length s < fuel
    → length p < fuel
    → length s < size_max
    → (copy + length p < text) ⊎ (text + length s < copy)
    → Apart copy pattern (length p)
    → IsString s text mem
    → IsString p pattern mem
    → (do
      mem' ← strcpy fuel copy pattern mem
      let star_end = ltb 0 (length p) && mem' (pattern + length p - 1) == b'*'
      let n'' = if star_end then length p - 1 else length p
      glob_copy fuel text copy n'' star_start star_end
          (if star_end then store_byte (copy + n'') 0 mem' else mem'))
      ≡ some (glob_rest star_start p s)
after_copy p s fuel text pattern copy star_start mem al nz ls lp lm apart apart' hs hp =
    let (mem', run, w) = strcpy-Written p fuel copy pattern mem lp hp apart' in
    rw run (
      copied_pattern p s fuel text pattern copy star_start mem' (w.bytes al) nz ls lp lm apart
        (IsString-moved s text text mem mem' (λ i le. w.frame (text + i) (ground arith)) hs)
        (IsString-moved p pattern pattern mem mem' (λ i le. w.frame (pattern + i) (ground arith))
          hp)
        w.string)

-- `simple_glob` of a text and a pattern, when the array for the copy meets neither of them, matches
-- as `glob` says: a star at the start or at the end of the pattern stands for any characters, and
-- all else for itself.
pub simple_glob_lem :
    (p s : List ℕ) (fuel copy text pattern : ℕ) (mem : Bytes)
    → AllBytes mem
    → text ≢ 0
    → length s < fuel
    → length p < fuel
    → length s < size_max
    → (copy + length p < text) ⊎ (text + length s < copy)
    → (copy + length p < pattern) ⊎ (pattern + length p < copy)
    → IsString s text mem
    → IsString p pattern mem
    → simple_glob fuel copy text pattern mem ≡ some (glob p s)
unfolding simple_glob
simple_glob_lem [] s fuel copy text pattern mem al nz ls lp lm apart apart' hs hp =
    rw (strlen_lem [] fuel pattern mem lp hp, hp)
      (after_copy [] s fuel text pattern copy false mem al nz ls lp lm apart apart' hs hp)
simple_glob_lem (c ∷ p) s fuel copy text pattern mem al nz ls lp lm apart apart' hs (e, z, hp) =
    rw (strlen_lem (c ∷ p) fuel pattern mem lp (e, z, hp), e)
      (elim (Bool-cases (c == b'*')) [
        | inl star ↦
            let n : suc (length p) - 1 ≡ length p = omega arith in
            rw (star, n)
              (after_copy p s fuel text (pattern + 1) copy true mem al nz ls (omega arith) lm
                (ground arith) (ground arith) hs hp)
        | inr plain ↦ rw plain (
            after_copy (c ∷ p) s fuel text pattern copy false mem al nz ls lp lm apart apart' hs
              (e, z, hp))
      ])
