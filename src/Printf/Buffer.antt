-- ===== src/Printf/Buffer.antt =====
-- The array that `printf` of lib/printf.c formats into: what is read of it up to its first NUL.
use asor.Base.{
  ℕ, zero, suc, ◌+◌, ◌-◌, ◌%◌, ◌^◌, ◌≤◌, ◌<◌, ◌≡◌, ◌≢◌, refl, ap, subst, sym, ◌∙◌, inl, inr, min,
  some, List, [], ◌∷◌, map, length, take, get_or, ◌==◌, if◌then◌else◌, Bool-cases, arith,
}
use asor.CString.{Bytes}
use asor.CString.Strings.Compare.{IsString, AllBytes}
use asor.Monitor.{MColor, Monitor, attribute_byte, put, write_color}
use asor.Monitor.Terminal.{Terminal, feed, feed_all}
use asor.Monitor.Screen.{Shows}
use asor.Monitor.Put.{put_refines}
use asor.Printf.Format.{Formatted}

abbrev pub bufsz : ℕ
bufsz = 2000

-- The bytes at `p` as a list.
pub bytes_at : ℕ → ℕ → Bytes → List ℕ
bytes_at zero p mem = []
bytes_at (suc n) p mem = mem p ∷ bytes_at n (p + 1) mem

abbrev pub until_nul : List ℕ → List ℕ
until_nul [] = []
until_nul (c ∷ s) = if c == 0 then [] else c ∷ until_nul s

-- The characters of a text that fit behind `room` others, as bytes.
abbrev pub shown : ℕ → List ℕ → List ℕ
shown room text = until_nul (take room (map (λ c. c % 2 ^ 8) text))

-- A buffer that ends with a NUL is written up to its first NUL.
write_color-until :
    (n : ℕ) (k p : ℕ) (mem : Bytes) (bc fc : MColor) (m : Monitor) (t : Terminal)
    → k < n
    → mem (p + k) ≡ 0
    → Shows m t
    → (m' : Monitor) × (write_color (bytes_at n p mem) bc fc m ≡ some m')
      × Shows m' (feed_all (attribute_byte bc fc) (until_nul (bytes_at n p mem)) t)
unfolding bytes_at write_color feed_all
write_color-until zero k p mem bc fc m t lt z h = absurd (omega arith)
write_color-until (suc n) k p mem bc fc m t lt z h = elim (Bool-cases (mem p == 0)) [
  | inl stop ↦ rw stop (m, refl, h)
  | inr more ↦
      let kp : k ≢ 0 = ground arith in
      let at : p + 1 + (k - 1) ≡ p + k = omega arith in
      let (m', run, s) =
        write_color-until n (k - 1) (p + 1) mem bc fc (put (mem p) bc fc m)
          (feed (attribute_byte bc fc) (mem p) t) (omega arith) (rw at z)
          (put_refines (mem p) bc fc m t h) in
      rw more (m', run, s)
]

shown_nil : (room : ℕ) → shown room [] ≡ []
shown_nil zero = refl
shown_nil (suc room) = refl

pub bytes_at-shown :
    (text : List ℕ) (room n p : ℕ) (out : Bytes)
    → min room (length text) < n
    → ((i : ℕ) → i < min room (length text) → out (p + i) ≡ get_or text i 0 % 2 ^ 8)
    → out (p + min room (length text)) ≡ 0
    → until_nul (bytes_at n p out) ≡ shown room text
unfolding bytes_at
bytes_at-shown text room zero p out lt f z = absurd (omega arith)
bytes_at-shown [] room (suc n) p out lt f z =
    let e : out p ≡ 0 = ground arith in rw e (sym (shown_nil room))
bytes_at-shown (c ∷ text) zero (suc n) p out lt f z = let e : out p ≡ 0 = ground arith in rw e refl
bytes_at-shown (c ∷ text) (suc room) (suc n) p out lt f z =
    let e : out p ≡ c % 2 ^ 8 = ground (arith, f 0 (omega arith)) in
    let rest =
      bytes_at-shown text room n (p + 1) out (omega arith)
        (λ i lt. ground (arith, f (suc i) (omega arith))) (ground arith) in
    ap (λ x. if x == 0 then [] else x ∷ until_nul (bytes_at n (p + 1) out)) e
    ∙ ap (λ v. if c % 2 ^ 8 == 0 then [] else c % 2 ^ 8 ∷ v) rest

pub write_color-shown :
    (k p : ℕ) (mem : Bytes) (u : List ℕ) (bc fc : MColor) (m : Monitor) (t : Terminal)
    → k < bufsz
    → mem (p + k) ≡ 0
    → until_nul (bytes_at bufsz p mem) ≡ u
    → Shows m t
    → (m' : Monitor) × (write_color (bytes_at bufsz p mem) bc fc m ≡ some m')
      × Shows m' (feed_all (attribute_byte bc fc) u t)
write_color-shown k p mem u bc fc m t lt z e h =
    let (m', run, s) = write_color-until bufsz k p mem bc fc m t lt z h in
    (m', run, subst (λ v. Shows m' (feed_all (attribute_byte bc fc) v t)) e s)

-- An array that ends with a NUL holds a string up to its first NUL.
pub bytes_at-IsString :
    (n k p : ℕ) (mem : Bytes)
    → k < n
    → mem (p + k) ≡ 0
    → IsString (until_nul (bytes_at n p mem)) p mem × (length (until_nul (bytes_at n p mem)) ≤ k)
unfolding bytes_at
bytes_at-IsString zero k p mem lt z = absurd (omega arith)
bytes_at-IsString (suc n) k p mem lt z = elim (Bool-cases (mem p == 0)) [
  | inl stop ↦ rw stop (ground arith, omega arith)
  | inr more ↦
      let at : p + 1 + (k - 1) ≡ p + k = ground arith in
      let (str, len) = bytes_at-IsString n (k - 1) (p + 1) mem (ground arith) (rw at z) in
      rw more ((refl, ground arith, str), ground (arith, len))
]

pub Formatted-AllBytes :
    (text : List ℕ) (dest size : ℕ) (out out' : Bytes)
    → Formatted text dest size out out'
    → AllBytes out
    → AllBytes out'
Formatted-AllBytes text dest size out out' F al a = ground (arith, F.chars a, al a)
