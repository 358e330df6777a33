-- ===== src/Printf/Console.antt =====
-- lib/printf.c on the console: `printf`, `warning` and `error` format into an array of 2000 bytes
-- and write that to the screen and to the serial line.
use asor.Base.{
  ℕ, ◌+◌, ◌%◌, ◌^◌, ◌≤◌, ◌<◌, ◌≡◌, refl, ap, ◌∙◌, min, Option, some, ◌++◌, List, length, ◌>>=◌,
  arith,
}
use asor.CString.{Bytes}
use asor.CString.Strings.Compare.{IsString, AllBytes}
use asor.Monitor.{
  MColor, black, white, dark_red, light_yellow, Monitor, attribute_byte, write_color,
}
use asor.Monitor.Terminal.{Terminal, feed_all}
use asor.Monitor.Screen.{Shows}
use asor.Serial.{Ports, Serial, puts}
use asor.Serial.Uart.{IsUart, IsOpen, lines, puts_lem}
use asor.Printf.{vsnprintf}
use asor.Printf.Number.{IsReadable, Words}
use asor.Printf.Rendering.{Formats}
use asor.Printf.Format.{vsnprintf-Formatted}
use asor.Printf.Buffer.{
  bufsz, bytes_at, until_nul, shown, write_color-shown, bytes_at-shown, bytes_at-IsString,
  Formatted-AllBytes,
}

-- `dest` is the array on the stack, and `stack` the memory around it.
module _ {D : Type 0} (ports : Ports D) where
  pub print_color :
      ℕ
      → ℕ
      → MColor
      → MColor
      → ℕ
      → Bytes
      → List ℕ
      → Bytes
      → Bytes
      → Monitor
      → Serial D
      → Option (ℕ × (Monitor × Serial D))
  print_color fuel dest bc fc fmt buf va mem stack m port = do
    (r, out) ← vsnprintf fuel dest bufsz fmt buf va mem stack
    m' ← write_color (bytes_at bufsz dest out) bc fc m
    port' ← puts ports fuel dest out port
    some (r, (m', port'))

  pub printf :
      ℕ
      → ℕ
      → ℕ
      → Bytes
      → List ℕ
      → Bytes
      → Bytes
      → Monitor
      → Serial D
      → Option (ℕ × (Monitor × Serial D))
  printf fuel dest = print_color fuel dest black white

  pub warning :
      ℕ
      → ℕ
      → ℕ
      → Bytes
      → List ℕ
      → Bytes
      → Bytes
      → Monitor
      → Serial D
      → Option (ℕ × (Monitor × Serial D))
  warning fuel dest = print_color fuel dest black light_yellow

  pub error :
      ℕ
      → ℕ
      → ℕ
      → Bytes
      → List ℕ
      → Bytes
      → Bytes
      → Monitor
      → Serial D
      → Option (ℕ × (Monitor × Serial D))
  error fuel dest = print_color fuel dest black dark_red

-- There is a text of which an output returns the length; the screen and the line get the first 1999
-- characters of it, up to a NUL: the screen with the colours, the line with its line ends.
abbrev pub Prints :
    {D : Type 0}
    → (D → List ℕ)
    → ℕ
    → Terminal
    → Serial D
    → Bytes
    → List ℕ
    → List ℕ
    → Option (ℕ × (Monitor × Serial D))
    → Type 0
Prints sent attribute t port mem s va o =
    (text : List ℕ) × (m' : Monitor) × (port' : Serial _) × (o
      ≡ some (length text % 2 ^ 32, (m', port')))
    × Formats mem s va text
    × Shows m' (feed_all attribute (shown 1999 text) t)
    × (sent port'.device ≡ sent port.device ++ lines (shown 1999 text))

print_color_lem :
    {D : Type 0} (ports : Ports D) (sent : D → List ℕ) (lcr busy : D → ℕ) (s : List ℕ)
    (n fuel dest fmt : ℕ) (bc fc : MColor) (buf : Bytes) (va : List ℕ) (mem stack : Bytes)
    (m : Monitor) (t : Terminal) (port : Serial D)
    → IsUart ports sent lcr busy n
    → n ≤ fuel
    → 2000 ≤ fuel
    → IsReadable fuel mem
    → AllBytes stack
    → length s < fuel
    → length s ≤ length va
    → IsString s fmt mem
    → Words va
    → Shows m t
    → IsOpen lcr port
    → Prints sent
        (attribute_byte bc fc)
        t
        port
        mem
        s
        va
        (print_color ports fuel dest bc fc fmt buf va mem stack m port)
unfolding print_color
print_color_lem ports sent lcr busy s n fuel dest fmt bc fc buf va mem stack m t port u le room r al
      lf ls h ws sh ho =
    let (text, out, run, F, means) =
      vsnprintf-Formatted s fuel dest bufsz fmt buf va mem stack r lf ls h ws (omega arith)
        (omega arith) in
    let k = min 1999 (length text) in
    let e =
      bytes_at-shown text 1999 bufsz dest out (omega arith)
        (λ i lt. ground (arith, F.chars (dest + i))) F.nul in
    let (m', run', sh') =
      write_color-shown k dest out (shown 1999 text) bc fc m t (omega arith) F.nul e sh in
    let (str, len) = bytes_at-IsString bufsz k dest out (omega arith) F.nul in
    let (port', run'', line, lcr0, on) =
      puts_lem ports sent lcr busy n u (until_nul (bytes_at bufsz dest out)) fuel dest out port le
        (omega arith) (Formatted-AllBytes text dest bufsz stack out F al) str ho in
    (
      text,
      m',
      port',
      rw (run, run', run'') refl,
      means,
      sh',
      line ∙ ap (λ v. sent port.device ++ lines v) e,
    )

-- `printf`, `warning` and `error` of a format of at least as many arguments as characters return,
-- when every string that they can be pointed at ends within the fuel, no argument is the least `long`,
-- and the line is ready after
-- fewer than `n` polls, for enough fuel. They return the length of the text that the format and its arguments stand
-- for; the screen and the line get the first 1999 characters of it, up to a NUL: the screen in white, yellow or red on black, the line
-- with a carriage return in front of each newline.
pub printf_lem :
    {D : Type 0} (ports : Ports D) (sent : D → List ℕ) (lcr busy : D → ℕ) (s : List ℕ)
    (n fuel dest fmt : ℕ) (buf : Bytes) (va : List ℕ) (mem stack : Bytes) (m : Monitor)
    (t : Terminal) (port : Serial D)
    → IsUart ports sent lcr busy n
    → n ≤ fuel
    → 2000 ≤ fuel
    → IsReadable fuel mem
    → AllBytes stack
    → length s < fuel
    → length s ≤ length va
    → IsString s fmt mem
    → Words va
    → Shows m t
    → IsOpen lcr port
    → Prints sent
        (attribute_byte black white)
        t
        port
        mem
        s
        va
        (printf ports fuel dest fmt buf va mem stack m port)
      × Prints sent
          (attribute_byte black light_yellow)
          t
          port
          mem
          s
          va
          (warning ports fuel dest fmt buf va mem stack m port)
      × Prints sent
          (attribute_byte black dark_red)
          t
          port
          mem
          s
          va
          (error ports fuel dest fmt buf va mem stack m port)
unfolding printf warning error
printf_lem ports sent lcr busy s n fuel dest fmt buf va mem stack m t port u le room r al lf ls h ws
      sh ho =
    let run = λ (fc : MColor).
      print_color_lem ports sent lcr busy s n fuel dest fmt black fc buf va mem stack m t port u le
        room r al lf ls h ws sh ho in
    (run white, run light_yellow, run dark_red)
