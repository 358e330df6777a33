-- ===== src/Serial/Tests.antt =====
-- Runs of the serial output of lib/x86/io.c.
use asor.Base.{◌≡◌, refl, true, false, some, ◌==◌, if◌then◌else◌, [], ◌∷◌, ◌++◌, arith}
use asor.CString.{Bytes}
use asor.Serial.{Serial, puts}
use asor.Serial.Line.{Line, line_ports, sent_of, lcr_of, never, line_ports-IsUart}
use asor.Serial.Uart.{TakesBytes, lines, puts_lem}

-- "a" and a newline at 10.
abbrev texts : Bytes
texts a = if a == 10 then b'a' else if a == 11 then b'\n' else 0

abbrev closed : Serial Line
closed = record { device = ([], 0); inited = false }

puts_example :
    (port' : Serial Line) × (puts line_ports 5 10 texts closed ≡ some port')
    × (sent_of port'.device ≡ sent_of closed.device ++ lines (b'a' ∷ b'\n' ∷ []))
    × TakesBytes (lcr_of port'.device)
    × (port'.inited ≡ true)
puts_example =
    puts_lem line_ports sent_of lcr_of never 1 line_ports-IsUart (b'a' ∷ b'\n' ∷ []) 5 10 texts
      closed (omega arith) (omega arith) (λ a. ground arith)
      (refl, omega arith, (refl, omega arith, refl)) (λ y. absurd (ground arith))
