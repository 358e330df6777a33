-- ===== src/Util.antt =====
-- lib/util.c: `parse_keyval` over the string functions. The result is the returned value, an `int`,
-- and what is written to *val.
pub mod Keyval
mod Tests
use asor.Base.{ℕ, ◌+◌, ◌-◌, ◌%◌, ◌^◌, Bool, Option, none, some, ◌==◌, if◌then◌else◌, ◌>>=◌}
use asor.CString.{Bytes}
use asor.CString.Strings.{strchr, atol}

pub parse_keyval : ℕ → ℕ → Bytes → Option (ℕ × Option ℕ)
parse_keyval fuel s mem = do
  p ← strchr fuel s b'=' mem
  let read = (do val ← atol fuel (p + 1) mem; some ((p - s) % 2 ^ 32, some val))
  if p == 0 then some (2 ^ 32 - 1, none) else read
