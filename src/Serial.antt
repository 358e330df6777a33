-- ===== src/Serial.antt =====
-- lib/x86/io.c: output to the serial line. The ports of the machine are a parameter: `inb` gives the
-- byte that is read, and both change the device. `fuel` bounds each wait; `none` means that it ran
-- out. The spin lock is left out, since one processor runs the code.
pub mod Uart
pub mod Line
mod Tests
use asor.Base.{
  ℕ, zero, suc, ◌+◌, ◌%◌, ◌^◌, Bool, true, false, not, Option, none, some, ◌==◌, if◌then◌else◌,
  ◌>>=◌, bit_and, bit_or,
}
use asor.CString.{Bytes}
use asor.CString.Strings.{strlen}

pub record Ports (D : Type 0) : Type 0 where
  pub inb : ℕ → D → ℕ × D
  pub outb : ℕ → ℕ → D → D

-- The device, and `serial_inited`.
pub record Serial (D : Type 0) : Type 0 where
  pub device : D
  pub inited : Bool

abbrev pub serial_iobase : ℕ
serial_iobase = 0x3f8

module _ {D : Type 0} (ports : Ports D) where
  -- do { lsr = inb(serial_iobase + 0x05); } while (!(lsr & 0x20));
  pub wait_ready : ℕ → D → Option D
  wait_ready zero d = none
  wait_ready (suc fuel) d =
      let (lsr, d') = ports.inb (serial_iobase + 0x05) d in
      let rest = wait_ready fuel d' in if bit_and lsr 0x20 == 0 then rest else some d'

  pub serial_outb : ℕ → ℕ → D → Option D
  serial_outb fuel ch d = do d' ← wait_ready fuel d; some (ports.outb ch serial_iobase d')

  pub serial_put : ℕ → ℕ → D → Option D
  serial_put fuel ch d = do
    d' ← if ch == b'\n' then serial_outb fuel b'\r' d else some d
    serial_outb fuel ch d'

  pub serial_init : D → D
  serial_init d =
      let (lcr, d1) = ports.inb (serial_iobase + 0x03) d in
      let d2 = ports.outb (bit_or lcr 0x80) (serial_iobase + 0x03) d1 in
      let d3 = ports.outb 0x01 (serial_iobase + 0x00) d2 in
      let d4 = ports.outb 0x00 (serial_iobase + 0x01) d3 in
      let (lcr', d5) = ports.inb (serial_iobase + 0x03) d4 in
      let d6 = ports.outb (bit_and lcr' 0x7f) (serial_iobase + 0x03) d5 in
      let d7 = ports.outb 0x00 (serial_iobase + 0x01) d6 in
      let d8 = ports.outb 0x03 (serial_iobase + 0x03) d7 in
      let d9 = ports.outb 0x00 (serial_iobase + 0x02) d8 in
      ports.outb 0x03 (serial_iobase + 0x04) d9

  -- for (i = 0; i < len; i++) serial_put(buf[i]);
  pub put_loop : ℕ → ℕ → ℕ → Bytes → D → Option D
  put_loop zero fuel buf mem d = some d
  put_loop (suc len) fuel buf mem d = do
    d' ← serial_put fuel (mem buf) d
    put_loop len fuel (buf + 1) mem d'

  pub print_serial : ℕ → ℕ → Bytes → Serial D → Option (Serial D)
  print_serial fuel buf mem s = do
    len ← strlen fuel buf mem
    let d = if s.inited then s.device else serial_init s.device
    d' ← put_loop len fuel buf mem d
    some (record { device = d'; inited = true })

  pub puts : ℕ → ℕ → Bytes → Serial D → Option (Serial D)
  puts fuel s mem port = print_serial fuel s mem port
