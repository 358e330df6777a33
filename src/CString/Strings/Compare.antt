-- ===== src/CString/Strings/Compare.antt =====
-- Strings in memory: their length, and when two of them are the same.
use asor.Base.{
  ℕ, zero, suc, ◌+◌, ◌-◌, ◌%◌, ◌^◌, ◌<◌, ◌≡◌, refl, ◌∙◌, ◌≢◌, ◌↔◌, inl, inr, Bool, true, false,
  ◌&&◌, some, List, [], ◌∷◌, length, ◌==◌, Bool-cases, arith,
}
use asor.CString.{Bytes, memcmp}
use asor.CString.Strings.{char_value, strlen_loop, strlen, strncmp, strcmp, size_max}

-- The characters at `p` up to a NUL.
abbrev pub IsString : List ℕ → ℕ → Bytes → Type 0
IsString [] p mem = mem p ≡ 0
IsString (c ∷ s) p mem = (mem p ≡ c) × (c ≢ 0) × IsString s (p + 1) mem

-- The characters at `p`, whatever follows.
abbrev pub Starts : List ℕ → ℕ → Bytes → Type 0
Starts [] p mem = Unit {0}
Starts (c ∷ s) p mem = (mem p ≡ c) × (c ≢ 0) × Starts s (p + 1) mem

abbrev pub AllBytes : Bytes → Type 0
AllBytes mem = (a : ℕ) → mem a < 2 ^ 8

strlen_loop_lem :
    (s : List ℕ) (fuel p len : ℕ) (mem : Bytes)
    → length s < fuel
    → IsString s p mem
    → strlen_loop fuel p len mem ≡ some (len + length s)
unfolding strlen_loop
strlen_loop_lem s zero p len mem lt h = absurd (omega arith)
strlen_loop_lem [] (suc fuel) p len mem lt h = ground arith
strlen_loop_lem (c ∷ s) (suc fuel) p len mem lt (e, nz, h) =
    ground (arith, strlen_loop_lem s fuel (p + 1) (len + 1) mem (omega arith) h)

-- `strlen` of a string is the number of its characters, with more fuel than that.
pub strlen_lem :
    (s : List ℕ) (fuel p : ℕ) (mem : Bytes)
    → length s < fuel
    → IsString s p mem
    → strlen fuel p mem ≡ some (length s)
unfolding strlen
strlen_lem s fuel p mem lt h = strlen_loop_lem s fuel p 0 mem lt h ∙ ground arith

-- A test for the same characters.
abbrev pub eq_list : List ℕ → List ℕ → Bool
eq_list [] [] = true
eq_list [] (d ∷ t) = false
eq_list (c ∷ s) [] = false
eq_list (c ∷ s) (d ∷ t) = c == d && eq_list s t

pub eq_list_iff : (s t : List ℕ) → (eq_list s t ≡ true) ↔ (s ≡ t)
eq_list_iff [] [] = (λ h. refl, λ h. refl)
eq_list_iff [] (d ∷ t) = ground arith
eq_list_iff (c ∷ s) [] = ground arith
eq_list_iff (c ∷ s) (d ∷ t) = ground (arith, eq_list_iff s t)

difference :
    (x y : ℕ)
    → x < 2 ^ 8
    → y < 2 ^ 8
    → x ≢ y
    → ((char_value x + 2 ^ 32 - char_value y) % 2 ^ 32 == 0) ≡ false
difference x y hx hy ne = ground arith

strncmp-eq_list :
    (s t : List ℕ) (n a b : ℕ) (mem : Bytes)
    → AllBytes mem
    → length s < n
    → IsString s a mem
    → IsString t b mem
    → (strncmp n a b mem == 0) ≡ eq_list s t
unfolding strncmp
strncmp-eq_list s t zero a b mem al lt hs ht = absurd (omega arith)
strncmp-eq_list [] [] (suc n) a b mem al lt hs ht = ground arith
strncmp-eq_list [] (d ∷ t) (suc n) a b mem al lt hs (e, nz, ht) =
    let ne : (mem a == mem b) ≡ false = ground arith in
    rw ne (difference (mem a) (mem b) (al a) (al b) (ground arith))
strncmp-eq_list (c ∷ s) [] (suc n) a b mem al lt (e, nz, hs) ht =
    let ne : (mem a == mem b) ≡ false = ground arith in
    rw ne (difference (mem a) (mem b) (al a) (al b) (ground arith))
strncmp-eq_list (c ∷ s) (d ∷ t) (suc n) a b mem al lt (e, nz, hs) (e', nz', ht) =
    let z : (mem a == 0) ≡ false = ground arith in
    elim (Bool-cases (mem a == mem b)) [
      | inl same ↦
          let eq : (c == d) ≡ true = ground arith in
          rw (same, z, eq) (strncmp-eq_list s t n (a + 1) (b + 1) mem al (omega arith) hs ht)
      | inr other ↦
          let ne : (c == d) ≡ false = ground arith in
          rw (other, ne) (difference (mem a) (mem b) (al a) (al b) (ground arith))
    ]

pub strcmp-eq_list :
    (s t : List ℕ) (a b : ℕ) (mem : Bytes)
    → AllBytes mem
    → length s < size_max
    → IsString s a mem
    → IsString t b mem
    → (strcmp a b mem == 0) ≡ eq_list s t
unfolding strcmp
strcmp-eq_list s t a b mem al lt hs ht = strncmp-eq_list s t size_max a b mem al lt hs ht

-- Of two strings in a memory of bytes, `strcmp` says 0 exactly when they have the same characters.
pub strcmp_lem :
    (s t : List ℕ) (a b : ℕ) (mem : Bytes)
    → AllBytes mem
    → length s < size_max
    → IsString s a mem
    → IsString t b mem
    → (strcmp a b mem ≡ 0) ↔ (s ≡ t)
strcmp_lem s t a b mem al lt hs ht =
    ground (arith, strcmp-eq_list s t a b mem al lt hs ht, eq_list_iff s t)

-- Whether `s` begins with `t`.
abbrev pub prefix? : List ℕ → List ℕ → Bool
prefix? [] s = true
prefix? (d ∷ t) [] = false
prefix? (d ∷ t) (c ∷ s) = c == d && prefix? t s

-- The block comparison of a string with the characters of another.
pub memcmp-prefix? :
    (t s : List ℕ) (a b : ℕ) (mem : Bytes)
    → AllBytes mem
    → IsString s a mem
    → IsString t b mem
    → (memcmp (length t) a b mem == 0) ≡ prefix? t s
unfolding memcmp
memcmp-prefix? [] s a b mem al hs ht = refl
memcmp-prefix? (d ∷ t) [] a b mem al hs (e, nz, ht) =
    let ne : ((mem a + 2 ^ 32 - mem b) % 2 ^ 32 == 0) ≡ false = ground (arith, al a, al b) in
    rw (ne, ne)
memcmp-prefix? (d ∷ t) (c ∷ s) a b mem al (e, nz, hs) (e', nz', ht) =
    elim (Bool-cases ((mem a + 2 ^ 32 - mem b) % 2 ^ 32 == 0)) [
      | inl same ↦
          let eq : (c == d) ≡ true = ground (arith, al a, al b) in
          rw (same, eq) (memcmp-prefix? t s (a + 1) (b + 1) mem al hs ht)
      | inr other ↦ let ne : (c == d) ≡ false = ground (arith, al a, al b) in rw (other, ne, other)
    ]

-- `strncmp` of the first `n` characters of `s`, which a string at `a` may have.
pub strncmp-prefix? :
    (t s : List ℕ) (a b : ℕ) (mem : Bytes)
    → AllBytes mem
    → IsString s a mem
    → Starts t b mem
    → (strncmp (length t) a b mem == 0) ≡ prefix? t s
unfolding strncmp
strncmp-prefix? [] s a b mem al hs ht = refl
strncmp-prefix? (d ∷ t) [] a b mem al hs (e, nz, ht) =
    let ne : (mem a == mem b) ≡ false = ground arith in
    rw ne (difference (mem a) (mem b) (al a) (al b) (ground arith))
strncmp-prefix? (d ∷ t) (c ∷ s) a b mem al (e, nz, hs) (e', nz', ht) =
    let z : (mem a == 0) ≡ false = ground arith in
    elim (Bool-cases (mem a == mem b)) [
      | inl same ↦
          let eq : (c == d) ≡ true = ground arith in
          rw (same, z, eq) (strncmp-prefix? t s (a + 1) (b + 1) mem al hs ht)
      | inr other ↦
          let ne : (c == d) ≡ false = ground arith in
          rw (other, ne) (difference (mem a) (mem b) (al a) (al b) (ground arith))
    ]
