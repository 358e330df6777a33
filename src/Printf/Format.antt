-- ===== src/Printf/Format.antt =====
-- `vsnprintf` returns, and stays inside its buffer.
use asor.Base.{
  ◌≢◌, ℕ, zero, suc, ◌+◌, ◌-◌, ◌%◌, ◌^◌, ◌≤◌, ◌<◌, ◌≡◌, ap, sym, ◌∙◌, inl, inr, min, true, false,
  ◌&&◌, ◌||◌, some, List, [], ◌∷◌, ◌++◌, length, get_or, ltb, leb, ◌==◌, if◌then◌else◌, Bool-cases,
  arith,
}
use asor.CString.{Bytes, store_byte}
use asor.CString.Strings.Compare.{IsString}
use asor.Printf.{PStream, StrProps, addchar, directive, plain, format_loop, vsnprintf}
use asor.Printf.Stream.{add_all, add_all-append, add_all-Truncated}
use asor.Printf.Number.{IsReadable, Words, fmtnum_lem, fmtnum_digit}
use asor.Printf.Rendering.{
  after_number, field, Directive, ended, alternate, zeros, wide, long, sized, conversion, Formats,
  done, literal, directed,
}
use asor.Printf.Convert.{convert_lem}

-- What is left behind a directive that begins with the string `s`.
abbrev Directed : List ℕ → ℕ → ℕ → ℕ → ℕ → ℕ → StrProps → Bytes → List ℕ → Bytes → PStream → Type 0
Directed s n rounds fuel fmt nlong props buf va mem ps =
    (text : List ℕ) × (fmt' : ℕ) × (s' : List ℕ) × (va' : List ℕ) × (directive rounds fuel fmt nlong
        props buf va mem ps
      ≡ some (fmt', (va', add_all text ps)))
    × IsString s' fmt' mem
    × (length s' ≤ n)
    × Words va'
    × (length va ≤ length va' + 1)
    × Directive mem s nlong props va text s' va'

is : (c d : ℕ) → (c == d) ≡ true → c ≡ d
is c d e = ground arith

is_not : (c d : ℕ) → (c == d) ≡ false → c ≢ d
is_not c d e = ground arith

directive_lem :
    (rounds : ℕ) (s : List ℕ) (fuel fmt nlong v : ℕ) (props : StrProps) (buf : Bytes) (va : List ℕ)
    (mem : Bytes) (ps : PStream)
    → IsReadable fuel mem
    → length s < rounds
    → length s < fuel
    → IsString s fmt mem
    → props.npad < 2 ^ 32
    → Words (v ∷ va)
    → Directed s (length s) rounds fuel fmt nlong props buf (v ∷ va) mem ps
unfolding directive add_all
directive_lem zero s fuel fmt nlong v props buf va mem ps r lt lf h hw ws = absurd (omega arith)
directive_lem (suc rounds) [] fuel fmt nlong v props buf va mem ps r lt lf h hw ws =
    ([], fmt, [], v ∷ va, rw h, h, omega arith, ws, omega arith, ended nlong props (v ∷ va))
directive_lem (suc rounds) (c ∷ s) fuel fmt nlong v props buf va mem ps r lt lf (e, nz, h) hw ws =
    let f : (c == 0) ≡ false = ground arith in
    elim (Bool-cases (c == b'#')) [
      | inl y ↦
          let (text, fmt', s', va', run, str, len, ws', lv, means) =
            directive_lem rounds s fuel (fmt + 1) nlong v (record props { alternate = true }) buf va
              mem ps r (omega arith) (omega arith) h hw ws in
          (
            text,
            fmt',
            s',
            va',
            rw (e, f, y) run,
            str,
            omega arith,
            ws',
            lv,
            rw (is c b'#' y) (alternate s s' (v ∷ va) va' text nlong props means),
          )
      | inr n1 ↦ elim (Bool-cases (c == b'0')) [
        | inl y ↦
            let (q, run1, small, str1, len1) = fmtnum_lem s fuel (fmt + 1) mem (omega arith) h in
            let (text, fmt', s', va', run, str, len, ws', lv, means) =
              directive_lem rounds (after_number s) fuel q nlong v
                (record props { pad = b'0'; npad = field s }) buf va mem ps r (omega arith)
                (omega arith) str1 small ws in
            (
              text,
              fmt',
              s',
              va',
              rw (e, f, n1, y, run1) run,
              str,
              omega arith,
              ws',
              lv,
              rw (is c b'0' y) (zeros s s' (v ∷ va) va' text nlong props means),
            )
        | inr n2 ↦ elim (Bool-cases (leb b'1' c && leb c b'9' || c == b'-')) [
          | inl y ↦
              let (q, run1, small, str1, len1) = fmtnum_digit c s fuel fmt mem y lf (e, nz, h) in
              let (text, fmt', s', va', run, str, len, ws', lv, means) =
                directive_lem rounds (after_number (c ∷ s)) fuel q nlong v
                  (record props { npad = field (c ∷ s) }) buf va mem ps r (omega arith)
                  (omega arith) str1 small ws in
              (
                text,
                fmt',
                s',
                va',
                rw (e, f, n1, n2, y, run1) run,
                str,
                omega arith,
                ws',
                lv,
                wide c s s' (v ∷ va) va' text nlong props y means,
              )
          | inr n3 ↦ elim (Bool-cases (c == b'l')) [
            | inl y ↦
                let (text, fmt', s', va', run, str, len, ws', lv, means) =
                  directive_lem rounds s fuel (fmt + 1) (nlong + 1) v props buf va mem ps r
                    (omega arith) (omega arith) h hw ws in
                (
                  text,
                  fmt',
                  s',
                  va',
                  rw (e, f, n1, n2, n3, y) run,
                  str,
                  omega arith,
                  ws',
                  lv,
                  rw (is c b'l' y) (long s s' (v ∷ va) va' text nlong props means),
                )
            | inr n4 ↦ elim (Bool-cases (c == b't' || c == b'z')) [
              | inl y ↦
                  let (text, fmt', s', va', run, str, len, ws', lv, means) =
                    directive_lem rounds s fuel (fmt + 1) 1 v props buf va mem ps r (omega arith)
                      (omega arith) h hw ws in
                  (
                    text,
                    fmt',
                    s',
                    va',
                    rw (e, f, n1, n2, n3, n4, y) run,
                    str,
                    omega arith,
                    ws',
                    lv,
                    sized c s s' (v ∷ va) va' text nlong props y means,
                  )
              | inr n5 ↦
                  let (text, va', run, ws', lv, means) =
                    convert_lem fuel c nlong v props buf va mem ps r hw ws in
                  (
                    text,
                    fmt + 1,
                    s,
                    va',
                    rw (e, f, n1, n2, n3, n4, n5, run),
                    h,
                    omega arith,
                    ws',
                    lv,
                    conversion c s (v ∷ va) va' text nlong props
                        (is_not c b'#' n1, is_not c b'0' n2, n3, is_not c b'l' n4, n5) means,
                  )
            ]
          ]
        ]
      ]
    ]

literal_at :
    (c d : ℕ) (s va text : List ℕ) (mem : Bytes)
    → d ≡ c
    → c ≢ b'%'
    → Formats mem s va text
    → Formats mem (c ∷ s) va (d ∷ text)
literal_at c d s va text mem e ne rest = rw e (literal c s va text ne rest)

directed_at :
    (c : ℕ) (s s' va va' text1 text2 : List ℕ) (mem : Bytes)
    → c ≡ b'%'
    → Directive mem s 0 plain va text1 s' va'
    → Formats mem s' va' text2
    → Formats mem (c ∷ s) va (text1 ++ text2)
directed_at c s s' va va' text1 text2 mem e first rest =
    rw e (directed s s' va va' text1 text2 first rest)

-- The whole format sends the text that it stands for.
format_loop_lem :
    (rounds : ℕ) (s : List ℕ) (fuel fmt : ℕ) (buf : Bytes) (va : List ℕ) (mem : Bytes)
    (ps : PStream)
    → IsReadable fuel mem
    → length s < rounds
    → length s < fuel
    → length s ≤ length va
    → IsString s fmt mem
    → Words va
    → (text : List ℕ) × (format_loop rounds fuel fmt buf va mem ps ≡ some (add_all text ps))
      × Formats mem s va text
unfolding format_loop add_all
format_loop_lem zero s fuel fmt buf va mem ps r lt lf le h ws = absurd (omega arith)
format_loop_lem (suc rounds) [] fuel fmt buf va mem ps r lt lf le h ws = ([], rw h, done va)
format_loop_lem (suc rounds) (c ∷ s) fuel fmt buf [] mem ps r lt lf le h ws = absurd (omega arith)
format_loop_lem (suc rounds) (c ∷ s) fuel fmt buf (v ∷ va) mem ps r lt lf le (e, nz, h) ws =
    let f : (mem fmt == 0) ≡ false = ground arith in
    elim (Bool-cases (mem fmt == b'%')) [
      | inr other ↦
          let (text, run, means) =
            format_loop_lem rounds s fuel (fmt + 1) buf (v ∷ va) mem (addchar (mem fmt) ps) r
              (omega arith) (omega arith) (omega arith) h ws in
          (
            mem fmt ∷ text,
            rw (f, other) run,
            literal_at c (mem fmt) s (v ∷ va) text mem e (is_not c b'%' (rw e at other)) means,
          )
      | inl special ↦
          let (text1, fmt', s', va', run1, str, len, ws', lv, means1) =
            directive_lem fuel s fuel (fmt + 1) 0 v plain buf va mem ps r (omega arith)
              (omega arith) h (omega arith) ws in
          let (text2, run2, means2) =
            format_loop_lem rounds s' fuel fmt' buf va' mem (add_all text1 ps) r (omega arith)
              (omega arith) (omega arith) str ws' in
          (
            text1 ++ text2,
            rw (f, special, run1) (run2 ∙ ap some (sym (add_all-append text1 text2 ps))),
            directed_at c s s' (v ∷ va) va' text1 text2 mem (is c b'%' (rw e at special)) means1
                means2,
          )
    ]

store_end : (b e : ℕ) (out : Bytes) → b ≡ e → store_byte b 0 out e ≡ 0
store_end b e out h = ground arith

-- The NUL stands behind what was written.
last_byte :
    (b dest n a : ℕ) (out : Bytes) (x y : ℕ)
    → b ≡ dest + n
    → out a ≡ (if leb dest a && ltb a (dest + n) then x else y)
    → store_byte b 0 out a
      ≡ (if leb dest a && ltb a (dest + n) then x else if a == dest + n then 0 else y)
last_byte b dest n a out x y h e = elim (Bool-cases (a == dest + n)) [
  | inl at ↦
      let t : (a == b) ≡ true = ground arith in
      let t' : (leb dest a && ltb a (dest + n)) ≡ false = ground arith in rw (t, t', at)
  | inr off ↦ let t : (a == b) ≡ false = ground arith in rw (t, e, off)
]

-- What `vsnprintf` leaves in `out'` when the whole text is `text`.
pub record Formatted (text : List ℕ) (dest size : ℕ) (out out' : Bytes) : Type 0 where
  pub nul : out' (dest + min (size - 1) (length text)) ≡ 0
  pub chars :
      (a : ℕ)
      → out' a ≡ (
          if leb dest a && ltb a (dest + min (size - 1) (length text))
          then get_or text (a - dest) 0 % 2 ^ 8
          else if a == dest + min (size - 1) (length text)
          then 0
          else out a)

pub vsnprintf-Formatted :
    (s : List ℕ) (fuel dest size fmt : ℕ) (buf : Bytes) (va : List ℕ) (mem out : Bytes)
    → IsReadable fuel mem
    → length s < fuel
    → length s ≤ length va
    → IsString s fmt mem
    → Words va
    → 0 < size
    → size < 2 ^ 31
    → (text : List ℕ) × (out' : Bytes) × (vsnprintf fuel dest size fmt buf va mem out
        ≡ some (length text % 2 ^ 32, out'))
      × Formatted text dest size out out'
      × Formats mem s va text
unfolding vsnprintf
vsnprintf-Formatted s fuel dest size fmt buf va mem out r lf le h ws pos small =
    let room : (size + 2 ^ 32 - 1) % 2 ^ 32 ≡ size - 1 = omega arith in
    let start : PStream = record { out = out; buffer = dest; remain = size - 1; added = 0 } in
    let (text, run, means) = format_loop_lem fuel s fuel fmt buf va mem start r lf lf le h ws in
    let T = add_all-Truncated text dest (size - 1) 0 out (omega arith) in
    let p = add_all text start in
    let len : p.added ≡ length text % 2 ^ 32 = omega (arith, T.length_mod) in
    (
      text,
      store_byte p.buffer 0 p.out,
      rw (room, run, len),
      record {
        nul = store_end p.buffer (dest + min (size - 1) (length text)) p.out T.end;
        chars = λ a.
            last_byte p.buffer dest (min (size - 1) (length text)) a p.out _ _ T.end (T.chars a);
      },
      means,
    )
