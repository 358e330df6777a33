-- ===== src/Serial/Uart.antt =====
-- The serial line behind lib/x86/io.c: what a text sends to a 16550 UART.
use asor.Base.{
  ℕ, zero, suc, ◌+◌, ◌^◌, ◌≤◌, ◌<◌, ◌≡◌, ◌≢◌, refl, ap, sym, ◌∙◌, inl, inr, true, Option, some,
  ◌==◌, if◌then◌else◌, ◌>>=◌, List, [], ◌∷◌, ◌++◌, append_assoc, append-nil, length, bit_and,
  bit_or, Bool-cases, arith,
}
use asor.Base.Bits.{bit_and-bit_or, bit_or-lt}
use asor.CString.{Bytes}
use asor.CString.Strings.Compare.{IsString, AllBytes, strlen_lem}
use asor.Serial.{
  Ports, Serial, wait_ready, serial_outb, serial_put, serial_init, put_loop, print_serial, puts,
}

-- The line control register is set for bytes: bit 7 (DLAB), which makes the data port the divisor,
-- is clear, and bits 0 and 1 ask for words of 8 bits and not of 5, 6 or 7.
abbrev pub TakesBytes : ℕ → Type 0
TakesBytes v = (bit_and v 0x80 ≡ 0) × (bit_and v 0x03 ≡ 3)

TakesBytes-same : (v w : ℕ) → v ≡ w → TakesBytes w → TakesBytes v
TakesBytes-same v w e h = rw e h

-- What the registers of a 16550 UART do, by its data sheet: `sent` is the bytes that went out, `lcr`
-- the line control register, and `busy` the number of reads of the line status that find the
-- transmitter busy, at most `n`.
pub record IsUart {D : Type 0} (ports : Ports D) (sent : D → List ℕ) (lcr busy : D → ℕ) (n : ℕ)
    : Type 0 where
  pub bounded : (d : D) → busy d < n
  pub read_sent : (a : ℕ) (d : D) → sent ((ports.inb a d).1) ≡ sent d
  pub read_lcr : (a : ℕ) (d : D) → lcr ((ports.inb a d).1) ≡ lcr d
  pub status_busy : (d : D) → busy d ≢ 0 → busy ((ports.inb 0x3fd d).1) < busy d
  pub status_idle : (d : D) → busy d ≡ 0 → bit_and ((ports.inb 0x3fd d).0) 0x20 ≢ 0
  pub status_empty :
      (d : D) → bit_and ((ports.inb 0x3fd d).0) 0x20 ≢ 0 → busy ((ports.inb 0x3fd d).1) ≡ 0
  pub byte : (a : ℕ) (d : D) → (ports.inb a d).0 < 2 ^ 8
  pub write_lcr : (v : ℕ) (d : D) → v < 2 ^ 8 → lcr (ports.outb v 0x3fb d) ≡ v
  pub write_other : (v a : ℕ) (d : D) → a ≢ 0x3fb → lcr (ports.outb v a d) ≡ lcr d
  pub transmit :
      (v : ℕ) (d : D)
      → v < 2 ^ 8
      → TakesBytes (lcr d)
      → busy d ≡ 0
      → sent (ports.outb v 0x3f8 d) ≡ sent d ++ v ∷ []
  pub divisor : (v : ℕ) (d : D) → bit_and (lcr d) 0x80 ≢ 0 → sent (ports.outb v 0x3f8 d) ≡ sent d
  pub other : (v a : ℕ) (d : D) → a ≢ 0x3f8 → sent (ports.outb v a d) ≡ sent d

-- What a text sends: a carriage return in front of each newline.
abbrev pub lines : List ℕ → List ℕ
lines [] = []
lines (c ∷ s) = (if c == b'\n' then b'\r' ∷ c ∷ [] else c ∷ []) ++ lines s

-- The port is ready for text once it is initialized.
abbrev pub IsOpen : {D : Type 0} → (D → ℕ) → Serial D → Type 0
IsOpen lcr s = s.inited ≡ true → TakesBytes (lcr s.device)

module _ {D : Type 0} (ports : Ports D) (sent : D → List ℕ) (lcr busy : D → ℕ) (n : ℕ)
    (u : IsUart ports sent lcr busy n) where
  -- A device that sent some bytes more, and takes text.
  Sent : List ℕ → D → Option D → Type 0
  Sent t d o = (d' : D) × (o ≡ some d') × (sent d' ≡ sent d ++ t) × TakesBytes (lcr d')

  wait_ready_lem :
      (fuel : ℕ) (d : D)
      → busy d < fuel
      → (d' : D) × (wait_ready ports fuel d ≡ some d')
        × (sent d' ≡ sent d)
        × (lcr d' ≡ lcr d)
        × (busy d' ≡ 0)
  unfolding wait_ready
  wait_ready_lem zero d lt = absurd (omega arith)
  wait_ready_lem (suc fuel) d lt = elim (Bool-cases (bit_and ((ports.inb 0x3fd d).0) 0x20 == 0)) [
    | inl wait ↦
        let nz : busy d ≢ 0 = λ z. u.status_idle d z (ground arith) in
        let (d', run, s, l, b) =
          wait_ready_lem fuel ((ports.inb 0x3fd d).1) (omega (arith, u.status_busy d nz)) in
        (d', rw wait run, s ∙ u.read_sent 0x3fd d, l ∙ u.read_lcr 0x3fd d, b)
    | inr ready ↦ (
      (ports.inb 0x3fd d).1,
      rw ready refl,
      u.read_sent 0x3fd d,
      u.read_lcr 0x3fd d,
      u.status_empty d (ground arith),
    )
  ]

  serial_outb_lem :
      (fuel ch : ℕ) (d : D)
      → n ≤ fuel
      → ch < 2 ^ 8
      → TakesBytes (lcr d)
      → Sent (ch ∷ []) d (serial_outb ports fuel ch d)
  unfolding serial_outb Sent
  serial_outb_lem fuel ch d le lt h =
      let (d', run, s, l, b) = wait_ready_lem fuel d (omega (arith, u.bounded d)) in
      let h' : TakesBytes (lcr d') = rw l h in
      (
        ports.outb ch 0x3f8 d',
        rw run refl,
        u.transmit ch d' lt h' b ∙ ap (λ x. x ++ ch ∷ []) s,
        rw (u.write_other ch 0x3f8 d' (omega arith)) h',
      )

  Sent-then :
      (t t' : List ℕ) (d : D) (o : Option D) (f : D → Option D)
      → Sent t d o
      → ((d' : D) → TakesBytes (lcr d') → Sent t' d' (f d'))
      → Sent (t ++ t') d (o >>= f)
  unfolding Sent
  Sent-then t t' d o f (d1, run, s, h) g =
      let (d2, run', s', h') = g d1 h in
      (d2, rw run run', s' ∙ ap (λ x. x ++ t') s ∙ append_assoc (sent d) t t', h')

  serial_put_lem :
      (fuel ch : ℕ) (d : D)
      → n ≤ fuel
      → ch < 2 ^ 8
      → TakesBytes (lcr d)
      → Sent (if ch == b'\n' then b'\r' ∷ ch ∷ [] else ch ∷ []) d (serial_put ports fuel ch d)
  unfolding serial_put
  serial_put_lem fuel ch d le lt h = elim (Bool-cases (ch == b'\n')) [
    | inl line ↦ rw line (
        Sent-then (b'\r' ∷ []) (ch ∷ []) d (serial_outb ports fuel b'\r' d)
          (serial_outb ports fuel ch) (serial_outb_lem fuel b'\r' d le (omega arith) h)
          (λ d' h'. serial_outb_lem fuel ch d' le lt h'))
    | inr inside ↦ rw inside (serial_outb_lem fuel ch d le lt h)
  ]

  Sent-none : (d : D) → TakesBytes (lcr d) → Sent [] d (some d)
  unfolding Sent
  Sent-none d h = (d, refl, sym (append-nil (sent d)), h)

  put_loop_lem :
      (s : List ℕ) (fuel p : ℕ) (mem : Bytes) (d : D)
      → n ≤ fuel
      → AllBytes mem
      → IsString s p mem
      → TakesBytes (lcr d)
      → Sent (lines s) d (put_loop ports (length s) fuel p mem d)
  unfolding put_loop
  put_loop_lem [] fuel p mem d le al hs h = Sent-none d h
  put_loop_lem (c ∷ s) fuel p mem d le al (e, nz, hs) h =
      let lt : c < 2 ^ 8 = omega (arith, e, al p) in
      rw e (
        Sent-then (if c == b'\n' then b'\r' ∷ c ∷ [] else c ∷ []) (lines s) d
          (serial_put ports fuel c d) (put_loop ports (length s) fuel (p + 1) mem)
          (serial_put_lem fuel c d le lt h)
          (λ d' h'. put_loop_lem s fuel (p + 1) mem d' le al hs h'))

  serial_init_lem :
      (d : D) → (sent (serial_init ports d) ≡ sent d) × TakesBytes (lcr (serial_init ports d))
  unfolding serial_init
  serial_init_lem d =
      let small = bit_or-lt 8 ((ports.inb 0x3fb d).0) 0x80 (u.byte 0x3fb d) (omega arith) in
      let latch : bit_and
            (lcr (ports.outb (bit_or ((ports.inb 0x3fb d).0) 0x80) 0x3fb ((ports.inb 0x3fb d).1)))
            0x80
          ≢ 0 =
        λ z. absurd (
          omega (
            arith,
            sym (bit_and-bit_or ((ports.inb 0x3fb d).0) 0x80)
                ∙ ap (λ v. bit_and v 0x80) (sym (u.write_lcr _ ((ports.inb 0x3fb d).1) small))
                ∙ z,
          )) in
      (
        u.other 0x03 0x3fc _ (omega arith)
            ∙ u.other 0x00 0x3fa _ (omega arith)
            ∙ u.other 0x03 0x3fb _ (omega arith)
            ∙ u.other 0x00 0x3f9 _ (omega arith)
            ∙ u.other _ 0x3fb _ (omega arith)
            ∙ u.read_sent 0x3fb _
            ∙ u.other 0x00 0x3f9 _ (omega arith)
            ∙ u.divisor 0x01 _ latch
            ∙ u.other _ 0x3fb _ (omega arith)
            ∙ u.read_sent 0x3fb d,
        TakesBytes-same (lcr (serial_init ports d)) 0x03
            (u.write_other 0x03 0x3fc _ (omega arith)
              ∙ u.write_other 0x00 0x3fa _ (omega arith)
              ∙ u.write_lcr 0x03 _ (omega arith))
            (refl, refl),
      )

  opened :
      (s : Serial D)
      → IsOpen lcr s
      → (sent (if s.inited then s.device else serial_init ports s.device) ≡ sent s.device)
        × TakesBytes (lcr (if s.inited then s.device else serial_init ports s.device))
  opened s h = elim (Bool-cases s.inited) [
    | inl y ↦ rw y (refl, h y)
    | inr n ↦ rw n (serial_init_lem s.device)
  ]

  -- `puts` of a string to a UART that is ready after fewer than `n` polls returns, whether or not the
  -- line was set up before, and with more fuel than characters and no less than `n`. It sends exactly
  -- the characters, with a carriage return in front of each newline, and leaves the line set for
  -- bytes of 8 bits.
  pub puts_lem :
      (s : List ℕ) (fuel p : ℕ) (mem : Bytes) (port : Serial D)
      → n ≤ fuel
      → length s < fuel
      → AllBytes mem
      → IsString s p mem
      → IsOpen lcr port
      → (port' : Serial D) × (puts ports fuel p mem port ≡ some port')
        × (sent port'.device ≡ sent port.device ++ lines s)
        × TakesBytes (lcr port'.device)
        × (port'.inited ≡ true)
  unfolding puts print_serial Sent
  puts_lem s fuel p mem port le lt al hs ho =
      let (same, ready) = opened port ho in
      let (d', run, out, h) = put_loop_lem s fuel p mem _ le al hs ready in
      (
        record { device = d'; inited = true },
        rw (strlen_lem s fuel p mem lt hs, run) refl,
        out ∙ ap (λ x. x ++ lines s) same,
        h,
        refl,
      )
