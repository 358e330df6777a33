-- ===== src/CString/Strings.antt =====
-- lib/string.c: the functions on strings that a NUL ends. A loop that looks for the NUL runs on
-- fuel, a character for a unit; `none` means that the fuel ran out, and 0 is NULL.
pub mod Compare
pub mod Search
pub mod Copy
pub mod Number
pub mod Pattern
pub mod Glob
mod Tests
use asor.Base.{
  ℕ, zero, suc, ◌+◌, ◌-◌, ◌*◌, ◌%◌, ◌^◌, Bool, true, false, not, ◌&&◌, ◌||◌, Option, none, some,
  List, [], ◌∷◌, leb, ltb, ◌==◌, if◌then◌else◌, ◌>>=◌,
}
use asor.CString.{Bytes, store_byte, memcmp}

-- A `char` as an `int` in two's complement.
abbrev pub char_value : ℕ → ℕ
char_value c = if ltb c 128 then c else c + 2 ^ 32 - 256

-- while (*buf++) ++len;
strlen_loop : ℕ → ℕ → ℕ → Bytes → Option ℕ
strlen_loop zero buf len mem = none
strlen_loop (suc fuel) buf len mem =
    let rest = strlen_loop fuel (buf + 1) (len + 1) mem in if mem buf == 0 then some len else rest

pub strlen : ℕ → ℕ → Bytes → Option ℕ
strlen fuel buf mem = strlen_loop fuel buf 0 mem

-- while (*p) ++p;
pub find_end : ℕ → ℕ → Bytes → Option ℕ
find_end zero p mem = none
find_end (suc fuel) p mem =
    let rest = find_end fuel (p + 1) mem in if mem p == 0 then some p else rest

-- while ((*p++ = *src++) != 0);
pub copy_string : ℕ → ℕ → ℕ → Bytes → Option Bytes
copy_string zero p src mem = none
copy_string (suc fuel) p src mem =
    let mem' = store_byte p (mem src) mem in
    let rest = copy_string fuel (p + 1) (src + 1) mem' in if mem src == 0 then some mem' else rest

pub strcat : ℕ → ℕ → ℕ → Bytes → Option Bytes
strcat fuel dest src mem = do p ← find_end fuel dest mem; copy_string fuel p src mem

pub strcpy : ℕ → ℕ → ℕ → Bytes → Option Bytes
strcpy fuel dest src mem = strcat fuel dest src (store_byte dest 0 mem)

pub strncmp : ℕ → ℕ → ℕ → Bytes → ℕ
strncmp zero a b mem = 0
strncmp (suc n) a b mem =
    let rest = strncmp n (a + 1) (b + 1) mem in
    if not (mem a == mem b) || mem a == 0
    then (char_value (mem a) + 2 ^ 32 - char_value (mem b)) % 2 ^ 32
    else rest

-- SIZE_MAX
abbrev pub size_max : ℕ
size_max = 2 ^ 64 - 1

pub strcmp : ℕ → ℕ → Bytes → ℕ
strcmp a b mem = strncmp size_max a b mem

pub strchr : ℕ → ℕ → ℕ → Bytes → Option ℕ
strchr zero s c mem = none
strchr (suc fuel) s c mem =
    let rest = strchr fuel (s + 1) c mem in
    if mem s == c % 2 ^ 8 then some s else if mem s == 0 then some 0 else rest

-- while (l1 >= l2) { l1--; if (!memcmp(s1, s2, l2)) return s1; s1++; }
pub strstr_loop : ℕ → ℕ → ℕ → ℕ → Bytes → ℕ
strstr_loop zero l2 s1 s2 mem = 0
strstr_loop (suc l1) l2 s1 s2 mem =
    let rest = strstr_loop l1 l2 (s1 + 1) s2 mem in
    if leb l2 (suc l1) then (if memcmp l2 s1 s2 mem == 0 then s1 else rest) else 0

pub strstr : ℕ → ℕ → ℕ → Bytes → Option ℕ
strstr fuel s1 s2 mem = do
  l2 ← strlen fuel s2 mem
  l1 ← strlen fuel s1 mem
  some (if l2 == 0 then s1 else strstr_loop l1 l2 s1 s2 mem)

pub memchr : ℕ → ℕ → ℕ → Bytes → ℕ
memchr zero s c mem = 0
memchr (suc n) s c mem = let rest = memchr n (s + 1) c mem in if mem s == c % 2 ^ 8 then s else rest

-- while (*s == ' ' || *s == '\t') s++;
pub skip_spaces : ℕ → ℕ → Bytes → Option ℕ
skip_spaces zero s mem = none
skip_spaces (suc fuel) s mem =
    let rest = skip_spaces fuel (s + 1) mem in
    if mem s == b' ' || mem s == b'\t' then rest else some s

-- The loop over the digits; `long` is a 64-bit word in two's complement.
pub read_digits : ℕ → ℕ → ℕ → Bytes → Option ℕ
read_digits zero s acc mem = none
read_digits (suc fuel) s acc mem =
    let rest = read_digits fuel (s + 1) ((acc * 10 + (mem s - b'0')) % 2 ^ 64) mem in
    if mem s == 0 then some acc else if ltb (mem s) b'0' || ltb b'9' (mem s) then some acc else rest

pub atol : ℕ → ℕ → Bytes → Option ℕ
atol fuel ptr mem = do
  s ← skip_spaces fuel ptr mem
  acc ← read_digits fuel (if mem s == b'-' || mem s == b'+' then s + 1 else s) 0 mem
  some (if mem s == b'-' then (2 ^ 64 - acc) % 2 ^ 64 else acc)

-- `environ` is the list of its pointers before the NULL.
pub getenv : ℕ → ℕ → List ℕ → Bytes → Option ℕ
getenv fuel name [] mem = some 0
getenv fuel name (env ∷ envp) mem = do
  delim ← strchr fuel env b'=' mem
  let found = not (delim == 0) && strncmp (delim - env) name env mem == 0
  let rest = getenv fuel name envp mem
  if found then some (delim + 1) else rest

-- The last three tests of `simple_glob`, when the text is compared with the string at `copy`, of
-- which `n` characters are left.
glob_copy : ℕ → ℕ → ℕ → ℕ → Bool → Bool → Bytes → Option Bool
glob_copy fuel text copy n star_start star_end mem =
    if star_start && star_end
    then (do p ← strstr fuel text copy mem; some (not (p == 0)))
    else if star_end
    then (do p ← strstr fuel text copy mem; some (p == text))
    else if star_start
    then (do
      text_len ← strlen fuel text mem
      some (if ltb text_len n then false else strcmp (text + text_len - n) copy mem == 0))
    else some (strcmp text copy mem == 0)

-- `copy` is the address of the array on the stack.
pub simple_glob : ℕ → ℕ → ℕ → ℕ → Bytes → Option Bool
simple_glob fuel copy text pattern mem = do
  n ← strlen fuel pattern mem
  let star_start = mem pattern == b'*'
  let pattern' = if star_start then pattern + 1 else pattern
  let n' = if star_start then n - 1 else n
  mem' ← strcpy fuel copy pattern' mem
  let star_end = ltb 0 n' && mem' (pattern' + n' - 1) == b'*'
  let n'' = if star_end then n' - 1 else n'
  glob_copy fuel text copy n'' star_start star_end
      (if star_end then store_byte (copy + n'') 0 mem' else mem')
