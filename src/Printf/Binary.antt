-- ===== src/Printf/Binary.antt =====
-- `binstr`: the binary digits of a word in groups of four.
use asor.Base.{
  ℕ, zero, suc, ◌+◌, ◌-◌, ◌/◌, ◌%◌, ◌^◌, ◌≤◌, ◌<◌, ◌≡◌, ◌≢◌, refl, ◌∙◌, ◌⊎◌, inl, inr, none, some,
  bit_and, true, false, ◌==◌, if◌then◌else◌, Bool-cases, arith,
}
use asor.CString.{Bytes, store_byte}
use asor.Printf.{binstr_loop, binstr}

abbrev pub binary_digit : ℕ → ℕ → ℕ
binary_digit x j = if bit_and x (2 ^ (64 - j - 1)) == 0 then b'0' else b'1'

store_self : (p v : ℕ) (out : Bytes) → store_byte p v out p ≡ v
store_self p v out = ground arith

store_other : (p v a : ℕ) (out : Bytes) → a ≢ p → store_byte p v out a ≡ out a
store_other p v a out ne = ground arith

-- What the rounds from `i` on leave when they write from `c` on.
record Written (i x c : ℕ) (out : Bytes) (r : ℕ × Bytes) : Type 0 where
  end : r.0 ≡ c + (64 - i) + (15 - i / 4)
  nul : r.1 (r.0) ≡ 0
  below : (a : ℕ) → a < c → r.1 a ≡ out a
  above : (a : ℕ) → r.0 < a → r.1 a ≡ out a
  digits : (j : ℕ) → i ≤ j → j < 64 → r.1 (c + (j - i) + (j / 4 - i / 4)) ≡ binary_digit x j

-- A digit, and what stands behind it, in front of the rest.
Written-next :
    (i x c d : ℕ) (out out1 : Bytes) (r : ℕ × Bytes)
    → i < 63
    → d ≡ c + 1 + ((i + 1) / 4 - i / 4)
    → out1 c ≡ binary_digit x i
    → ((a : ℕ) → a < c → out1 a ≡ out a)
    → ((a : ℕ) → d ≤ a → out1 a ≡ out a)
    → Written (i + 1) x d out1 r
    → Written i x c out r
Written-next i x c d out out1 r small e first before after w =
    let last : d ≤ r.0 = omega (arith, e, w.end) in
    record {
      end = omega (arith, e, w.end);
      nul = w.nul;
      below = λ a lt. w.below a (omega (arith, e)) ∙ before a lt;
      above = λ a lt. w.above a lt ∙ after a (omega arith);
      digits = λ j le lt. elim (Bool-cases (j == i)) [
        | inl same ↦
            let ej : j ≡ i = ground arith in
            let at : c + (j - i) + (j / 4 - i / 4) ≡ c = omega arith in
            rw (at, ej) (w.below c (omega (arith, e)) ∙ first)
        | inr later ↦
            let ne : j ≢ i = ground arith in
            let at : c + (j - i) + (j / 4 - i / 4) ≡ d + (j - (i + 1)) + (j / 4 - (i + 1) / 4) =
              omega arith in
            rw at (w.digits j (omega arith) lt)
      ];
    }

binstr_loop_lem :
    (rounds i x c : ℕ) (out : Bytes)
    → 0 < rounds
    → rounds + i ≡ 64
    → Written i x c out (binstr_loop rounds i x c out)
unfolding binstr_loop
binstr_loop_lem zero i x c out pos e = absurd (omega arith)
binstr_loop_lem (suc rounds) i x c out pos e = elim (Bool-cases (i + 1 == 64)) [
  | inl last ↦
      let ei : i ≡ 63 = ground arith in
      rw last (record {
        end = omega arith;
        nul = ground arith;
        below = λ a lt. ground arith;
        above = λ a lt. ground arith;
        digits = λ j le lt.
            let ej : j ≡ i = omega arith in
            let at : c + (j - i) + (j / 4 - i / 4) ≡ c = omega arith in
            let off : (c == c + 1) ≡ false = ground arith in
            let self : (c == c) ≡ true = ground arith in rw (at, off, self, ej);
      })
  | inr more ↦
      let small : i < 63 = ground arith in
      let out1 = store_byte c (binary_digit x i) out in
      elim (Bool-cases ((i + 1) % 4 == 0)) [
        | inl quote ↦
            let e4 : (i + 1) % 4 ≡ 0 = ground arith in
            rw (more, quote)
              (Written-next i x c (c + 2) out (store_byte (c + 1) b'\'' out1) _ small (omega arith)
                (store_other (c + 1) b'\'' c out1 (omega arith)
                  ∙ store_self c (binary_digit x i) out)
                (λ a lt.
                  store_other (c + 1) b'\'' a out1 (omega arith)
                  ∙ store_other c _ a out (omega arith))
                (λ a le.
                  store_other (c + 1) b'\'' a out1 (omega arith)
                  ∙ store_other c _ a out (omega arith))
                (binstr_loop_lem rounds (i + 1) x (c + 2) (store_byte (c + 1) b'\'' out1)
                  (omega arith) (omega arith)))
        | inr bare ↦
            let e4 : (i + 1) % 4 ≢ 0 = ground arith in
            rw (more, bare)
              (Written-next i x c (c + 1) out out1 _ small (omega arith) (store_self c _ out)
                (λ a lt. store_other c _ a out (omega arith))
                (λ a le. store_other c _ a out (omega arith))
                (binstr_loop_lem rounds (i + 1) x (c + 1) out1 (omega arith) (omega arith)))
      ]
]

binstr_ends :
    (x c j a : ℕ) (out : Bytes) (r : ℕ × Bytes)
    → Written 0 x c out r
    → j < 64
    → (a < c) ⊎ (c + 80 ≤ a)
    → (out' : Bytes) × ((if r.0 + 1 - c == 80 then some (r.1) else none) ≡ some out')
      × (out' (c + j + j / 4) ≡ binary_digit x j)
      × (out' (c + 79) ≡ 0)
      × (out' a ≡ out a)
binstr_ends x c j a out r w lt apart =
    let end : r.0 ≡ c + 79 = omega (arith, w.end) in
    let long : (r.0 + 1 - c == 80) ≡ true = ground arith in
    let at : c + (j - 0) + (j / 4 - 0 / 4) ≡ c + j + j / 4 = omega arith in
    (
      r.1,
      rw long refl,
      rw (← at) (w.digits j (omega arith) lt),
      rw (← end) w.nul,
      elim apart [ inl before ↦ w.below a before | inr after ↦ w.above a (omega arith) ],
    )

-- `binstr` returns, so that its assertion holds. Digit `j` of the word, from the highest on, stands
-- behind one quote for every four digits before it, a NUL ends the array of 80 bytes, and nothing
-- outside the array is written.
pub binstr_lem :
    (x c j a : ℕ) (out : Bytes)
    → j < 64
    → (a < c) ⊎ (c + 80 ≤ a)
    → (out' : Bytes) × (binstr x c out ≡ some out')
      × (out' (c + j + j / 4) ≡ binary_digit x j)
      × (out' (c + 79) ≡ 0)
      × (out' a ≡ out a)
unfolding binstr
binstr_lem x c j a out lt apart =
    let w = binstr_loop_lem 64 0 x c out (omega arith) refl in
    binstr_ends x c j a out (binstr_loop 64 0 x c out) w lt apart
