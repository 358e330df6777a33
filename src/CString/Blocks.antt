-- ===== src/CString/Blocks.antt =====
-- Copying, filling and comparing blocks, against a reference that reads the old memory.
use asor.Base.{
  ℕ, zero, suc, ◌+◌, ◌-◌, ◌%◌, ◌^◌, ◌≤◌, ◌<◌, ◌≡◌, refl, ap₂, ◌∙◌, ◌≢◌, ◌⊎◌, inl, inr, true, false,
  ◌&&◌, ltb, leb, ◌==◌, if◌then◌else◌, Bool-cases, arith,
}
use asor.CString.{
  Bytes, store_byte, memset_loop, memset, memcpy_loop, memcpy, copy_up, copy_down, memmove, memcmp,
}

-- The block of `n` bytes at `src` copied to `dest` at one blow.
abbrev pub copied : ℕ → ℕ → ℕ → Bytes → Bytes
copied dest src n mem a = if leb dest a && ltb a (dest + n) then mem (src + (a - dest)) else mem a

copied_up :
    (n d s a : ℕ) (mem : Bytes)
    → (d ≤ s) ⊎ (s + suc n ≤ d)
    → copied (d + 1) (s + 1) n (store_byte d (mem s) mem) a ≡ copied d s (suc n) mem a
copied_up n d s a mem h = elim (Bool-cases (leb (d + 1) a && ltb a (d + 1 + n))) [
  | inl tail ↦
      let at : s + 1 + (a - (d + 1)) ≡ s + (a - d) = ground arith in
      let new : (s + (a - d) == d) ≡ false = ground arith in
      let block : (leb d a && ltb a (d + suc n)) ≡ true = ground arith in rw (tail, block, at, new)
  | inr rest ↦ elim (Bool-cases (a == d)) [
    | inl first ↦
        let at : s + (a - d) ≡ s = ground arith in
        let block : (leb d a && ltb a (d + suc n)) ≡ true = ground arith in
        rw (rest, block, first, at)
    | inr off ↦
        let block : (leb d a && ltb a (d + suc n)) ≡ false = ground arith in rw (rest, block, off)
  ]
]

pub copy_up_lem :
    (n d s a : ℕ) (mem : Bytes) → (d ≤ s) ⊎ (s + n ≤ d) → copy_up n d s mem a ≡ copied d s n mem a
unfolding copy_up
copy_up_lem zero d s a mem h = ground arith
copy_up_lem (suc n) d s a mem h =
    copy_up_lem n (d + 1) (s + 1) a (store_byte d (mem s) mem) (ground arith)
    ∙ copied_up n d s a mem h

copied_down :
    (n d s a : ℕ) (mem : Bytes)
    → s < d
    → copied d s n (store_byte (d + n) (mem (s + n)) mem) a ≡ copied d s (suc n) mem a
copied_down n d s a mem h = elim (Bool-cases (leb d a && ltb a (d + n))) [
  | inl head ↦
      let new : (s + (a - d) == d + n) ≡ false = ground arith in
      let block : (leb d a && ltb a (d + suc n)) ≡ true = ground arith in rw (head, block, new)
  | inr rest ↦ elim (Bool-cases (a == d + n)) [
    | inl last ↦
        let at : s + (a - d) ≡ s + n = ground arith in
        let block : (leb d a && ltb a (d + suc n)) ≡ true = ground arith in
        rw (rest, block, last, at)
    | inr off ↦
        let block : (leb d a && ltb a (d + suc n)) ≡ false = ground arith in rw (rest, block, off)
  ]
]

copy_down_lem :
    (n d s a : ℕ) (mem : Bytes) → s < d → copy_down n (d + n) (s + n) mem a ≡ copied d s n mem a
unfolding copy_down
copy_down_lem zero d s a mem h = ground arith
copy_down_lem (suc n) d s a mem h =
    let e : d + suc n - 1 ≡ d + n = omega arith in
    let e' : s + suc n - 1 ≡ s + n = omega arith in
    rw (e, e')
      (copy_down_lem n d s a (store_byte (d + n) (mem (s + n)) mem) h ∙ copied_down n d s a mem h)

-- `memmove` copies a block as if it had read all of it before it wrote, however the blocks overlap,
-- and writes nothing else.
pub memmove_lem :
    (dest src n a : ℕ) (mem : Bytes) → memmove dest src n mem a ≡ copied dest src n mem a
unfolding memmove
memmove_lem dest src n a mem = elim (Bool-cases (leb dest src)) [
  | inl up ↦ rw up (copy_up_lem n dest src a mem (inl (ground arith)))
  | inr down ↦ rw down (copy_down_lem n dest src a mem (ground arith))
]

memset_loop_lem :
    (n i s c a : ℕ) (mem : Bytes)
    → memset_loop n i s c mem a ≡ (if leb (s + i) a && ltb a (s + i + n) then c else mem a)
unfolding memset_loop
memset_loop_lem zero i s c a mem = ground arith
memset_loop_lem (suc n) i s c a mem =
    memset_loop_lem n (i + 1) s c a (store_byte (s + i) c mem) ∙ ground arith

-- `memset` sets each of the `n` bytes at `s` to the byte `c` and writes nothing else.
pub memset_lem :
    (s c n a : ℕ) (mem : Bytes)
    → memset s c n mem a ≡ (if leb s a && ltb a (s + n) then c % 2 ^ 8 else mem a)
unfolding memset
memset_lem s c n a mem = memset_loop_lem n 0 s (c % 2 ^ 8) a mem ∙ ground arith

-- The loop of `memcpy` copies upwards.
memcpy-copy_up :
    (n i dest src : ℕ) (mem : Bytes)
    → memcpy_loop n i dest src mem ≡ copy_up n (dest + i) (src + i) mem
unfolding memcpy_loop copy_up
memcpy-copy_up zero i dest src mem = refl
memcpy-copy_up (suc n) i dest src mem =
    let e : dest + (i + 1) ≡ dest + i + 1 = omega arith in
    let e' : src + (i + 1) ≡ src + i + 1 = omega arith in
    memcpy-copy_up n (i + 1) dest src (store_byte (dest + i) (mem (src + i)) mem)
    ∙ ap₂ (λ (d s : ℕ). copy_up n d s (store_byte (dest + i) (mem (src + i)) mem)) e e'

-- `memcpy` to a block that lies before `src` or does not meet the block at `src` copies it, and
-- writes nothing else.
pub memcpy_lem :
    (dest src n a : ℕ) (mem : Bytes)
    → (dest ≤ src) ⊎ (src + n ≤ dest)
    → memcpy dest src n mem a ≡ copied dest src n mem a
unfolding memcpy
memcpy_lem dest src n a mem apart =
    let e : dest + 0 ≡ dest = omega arith in
    let e' : src + 0 ≡ src = omega arith in
    rw (memcpy-copy_up n 0 dest src mem, e, e') (copy_up_lem n dest src a mem apart)

-- The first `n` bytes are the same.
abbrev pub Same : ℕ → ℕ → ℕ → Bytes → Type 0
Same zero s1 s2 mem = Unit {0}
Same (suc n) s1 s2 mem = (mem s1 ≡ mem s2) × Same n (s1 + 1) (s2 + 1) mem

-- The bytes are the same, or `r` is the difference of the first two that are not.
abbrev pub Compared : ℕ → ℕ → ℕ → Bytes → ℕ → Type 0
Compared n s1 s2 mem r =
    ((r ≡ 0) × Same n s1 s2 mem)
    ⊎ ((i : ℕ) × (i < n)
        × Same i s1 s2 mem
        × (mem (s1 + i) ≢ mem (s2 + i))
        × (r ≢ 0)
        × (r ≡ (mem (s1 + i) + 2 ^ 32 - mem (s2 + i)) % 2 ^ 32))

differ : (x y : ℕ) → x < 2 ^ 8 → ((x + 2 ^ 32 - y) % 2 ^ 32 == 0) ≡ false → x ≢ y
differ x y hx h same = ground arith

-- In a memory of bytes `memcmp` returns 0 when the blocks are the same; otherwise it returns the
-- difference of the first two bytes that differ, as a 32-bit word, and that is not 0.
pub memcmp_lem :
    (n s1 s2 : ℕ) (mem : Bytes)
    → ((a : ℕ) → mem a < 2 ^ 8)
    → Compared n s1 s2 mem (memcmp n s1 s2 mem)
unfolding memcmp
memcmp_lem zero s1 s2 mem b = inl (refl, tt)
memcmp_lem (suc n) s1 s2 mem b =
    let ret = (mem s1 + 2 ^ 32 - mem s2) % 2 ^ 32 in
    elim (Bool-cases (ret == 0)) [
      | inl same ↦
          let e : mem s1 ≡ mem s2 = ground (arith, b s1, b s2) in
          rw same (elim (memcmp_lem n (s1 + 1) (s2 + 1) mem b) [
            | inl all ↦ inl (all.0, (e, all.1))
            | inr (i, lt, before, ne, nz, r) ↦
                let e1 : s1 + 1 + i ≡ s1 + suc i = omega arith in
                let e2 : s2 + 1 + i ≡ s2 + suc i = omega arith in
                inr (
                  suc i,
                  omega arith,
                  (e, before),
                  rw (e1, e2) at ne,
                  nz,
                  r ∙ ap₂ (λ (x y : ℕ). (mem x + 2 ^ 32 - mem y) % 2 ^ 32) e1 e2,
                )
          ])
      | inr other ↦
          let e1 : s1 + 0 ≡ s1 = omega arith in
          let e2 : s2 + 0 ≡ s2 = omega arith in
          rw other (
            inr (
              0,
              omega arith,
              tt,
              rw (e1, e2) (λ same. differ (mem s1) (mem s2) (b s1) other same),
              ground arith,
              rw (e1, e2),
            ))
    ]
