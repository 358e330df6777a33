-- ===== src/Printf/Convert.antt =====
-- The directives of lib/printf.c that end with an output: each sends the text that it stands for.
use asor.Base.{
  zero, suc, ◌%◌, ◌∙◌, ap, refl, not, ◌&&◌, leb, if◌then◌else◌, ℕ, ◌+◌, ◌^◌, ◌≤◌, ◌<◌, ◌≡◌, ◌≢◌,
  inl, inr, Bool, true, Option, some, List, [], ◌∷◌, length, ◌==◌, Bool-cases, ◌>>=◌, arith,
}
use asor.CString.{Bytes}
use asor.Printf.{
  PStream, StrProps, print_str, print_int, print_unsigned, signed_arg, unsigned_arg, convert,
}
use asor.Printf.Stream.{add_all, justify, print_str-add_all}
use asor.Printf.Numbers.{unsigned_text, signed_text, magnitude, print_unsigned_lem, print_int_lem}
use asor.CString.Strings.Compare.{IsString}
use asor.Printf.Number.{IsReadable, Words}
use asor.Printf.Rendering.{
  IsNumeral, width, minus?, absolute, Renders, percent, char, signed, unsigned, hex, pointer,
  string, other,
}

-- What one directive sends, and the arguments that it leaves.
abbrev pub Converts : ℕ → ℕ → ℕ → StrProps → Bytes → List ℕ → Bytes → PStream → Type 0
Converts fuel f nlong props buf va mem ps =
    (text : List ℕ) × (va' : List ℕ) × (convert fuel f nlong props buf va mem ps
      ≡ some (va', add_all text ps))
    × Words va'
    × (length va ≤ length va' + 1)
    × Renders mem f nlong props va text va'

signed_arg-Words :
    (nlong v : ℕ)
    → v < 2 ^ 64
    → v ≢ 2 ^ 63
    → (signed_arg nlong v < 2 ^ 64) × (signed_arg nlong v ≢ 2 ^ 63)
signed_arg-Words nlong v lt ne = ground arith

-- The value of the argument of %d, by its width.
magnitude-signed_arg :
    (nlong v : ℕ) → v < 2 ^ 64 → magnitude (signed_arg nlong v) ≡ absolute (width nlong) v
magnitude-signed_arg zero v lt = ground arith
magnitude-signed_arg (suc nlong) v lt = ground arith

minus-signed_arg :
    (nlong v : ℕ) → v < 2 ^ 64 → leb (2 ^ 63) (signed_arg nlong v) ≡ minus? (width nlong) v
minus-signed_arg zero v lt = ground arith
minus-signed_arg (suc nlong) v lt = ground arith

unsigned_arg-width : (nlong v : ℕ) → v < 2 ^ 64 → unsigned_arg nlong v ≡ v % 2 ^ width nlong
unsigned_arg-width zero v lt = refl
unsigned_arg-width (suc nlong) v lt = ground arith

IsNumeral-same : (base n n' : ℕ) (s : List ℕ) → n ≡ n' → IsNumeral base n s → IsNumeral base n' s
IsNumeral-same base n n' s e (val, digits, can) = (val ∙ e, digits, can)

unsigned_arg-lt : (nlong v : ℕ) → v < 2 ^ 64 → unsigned_arg nlong v < 2 ^ 64
unsigned_arg-lt nlong v lt = ground arith

module _ (fuel : ℕ) (mem : Bytes) (r : IsReadable fuel mem) (props : StrProps)
    (hw : props.npad < 2 ^ 32) where
  sends_int :
      (nlong v : ℕ) (va : List ℕ) (buf : Bytes) (ps : PStream)
      → v < 2 ^ 64
      → v ≢ 2 ^ 63
      → (text : List ℕ) × (print_int fuel (signed_arg nlong v) 10 buf props ps
          ≡ some (add_all text ps))
        × Renders mem b'd' nlong props (v ∷ va) text va
  sends_int nlong v va buf ps lt ne =
      let (ok, ok') = signed_arg-Words nlong v lt ne in
      let (s, val, digits, can, len, run) =
        print_int_lem fuel (signed_arg nlong v) 10 buf props ps (omega arith) (omega arith) ok ok'
          r.enough hw in
      (
        justify props.npad props.pad (signed_text (signed_arg nlong v) s),
        run,
        signed v va s _ refl (val ∙ magnitude-signed_arg nlong v lt, digits, can)
            (ap (λ (b : Bool). justify props.npad props.pad (if b then b'-' ∷ s else s))
              (minus-signed_arg nlong v lt)),
      )

  sends_unsigned :
      (n base : ℕ) (alternate : Bool) (buf : Bytes) (ps : PStream)
      → n < 2 ^ 64
      → 8 ≤ base
      → base ≤ 16
      → (s : List ℕ) × IsNumeral base n s
        × (print_unsigned fuel n base buf (record props { alternate = alternate }) ps
            ≡ some (add_all (unsigned_text n base (record props { alternate = alternate }) s) ps))
  sends_unsigned n base alternate buf ps lt lo hi =
      let props' = record props { alternate = alternate } in
      let (s, val, digits, can, len, run) =
        print_unsigned_lem fuel n base buf props' ps lo hi lt r.enough hw in
      (s, (val, digits, can), run)

  sends_pointed :
      (v : ℕ) (ps : PStream)
      → (s : List ℕ) × IsString s v mem
        × (print_str fuel v mem props ps ≡ some (add_all (justify props.npad props.pad s) ps))
  sends_pointed v ps =
      let (s, str, len) = r.strings v in
      let small = r.small in
      (s, str, print_str-add_all s fuel v mem props ps len (omega arith) hw str)

then_va :
    (o : Option PStream) (va text : List ℕ) (ps : PStream)
    → o ≡ some (add_all text ps)
    → ◌>>=◌ {B = List ℕ × PStream} o (λ ps'. some (va, ps')) ≡ some (va, add_all text ps)
then_va o va text ps e = rw e

pub convert_lem :
    (fuel f nlong v : ℕ) (props : StrProps) (buf : Bytes) (va : List ℕ) (mem : Bytes) (ps : PStream)
    → IsReadable fuel mem
    → props.npad < 2 ^ 32
    → Words (v ∷ va)
    → Converts fuel f nlong props buf (v ∷ va) mem ps
unfolding convert add_all
convert_lem fuel f nlong v props buf va mem ps r hw (lt, ne, ws) = elim (Bool-cases (f == b'%')) [
  | inl y ↦ (b'%' ∷ [], v ∷ va, rw y, (lt, ne, ws), omega arith, percent (v ∷ va) (ground arith))
  | inr n1 ↦ elim (Bool-cases (f == b'c')) [
    | inl y ↦ (v ∷ [], va, rw (n1, y), ws, omega arith, char v va (ground arith))
    | inr n2 ↦ elim (Bool-cases (f == b'd')) [
      | inl y ↦
          let (text, run, means) = sends_int fuel mem r props hw nlong v va buf ps lt ne in
          let at : f ≡ b'd' = ground arith in
          (text, va, rw (n1, n2, y) (then_va _ va text ps run), ws, omega arith, rw at means)
      | inr n3 ↦ elim (Bool-cases (f == b'u')) [
        | inl y ↦
            let w = unsigned_arg-width nlong v lt in
            let (s, num, run) =
              sends_unsigned fuel mem r props hw (unsigned_arg nlong v) 10 props.alternate buf ps
                (unsigned_arg-lt nlong v lt) (omega arith) (omega arith) in
            let text = justify props.npad props.pad s in
            (
              text,
              va,
              rw (n1, n2, n3, y)
                  (then_va _ va text ps
                    (run ∙ ap (λ (t : List ℕ). some (add_all t ps)) (in_ten _ props s))),
              ws,
              omega arith,
              unsigned v va s (ground arith) (IsNumeral-same 10 _ _ s w num),
            )
        | inr n4 ↦ elim (Bool-cases (f == b'x')) [
          | inl y ↦
              let w = unsigned_arg-width nlong v lt in
              let (s, num, run) =
                sends_unsigned fuel mem r props hw (unsigned_arg nlong v) 16 props.alternate buf ps
                  (unsigned_arg-lt nlong v lt) (omega arith) (omega arith) in
              let text = unsigned_text (unsigned_arg nlong v) 16 props s in
              (
                text,
                va,
                rw (n1, n2, n3, n4, y) (then_va _ va text ps run),
                ws,
                omega arith,
                hex v va s text (ground arith) (IsNumeral-same 16 _ _ s w num)
                    (ap (λ (n : ℕ). unsigned_text n 16 props s) w),
              )
          | inr n5 ↦ elim (Bool-cases (f == b'p')) [
            | inl y ↦
                let (s, num, run) =
                  sends_unsigned fuel mem r props hw v 16 true buf ps lt (omega arith)
                    (omega arith) in
                let text = unsigned_text v 16 (record props { alternate = true }) s in
                (
                  text,
                  va,
                  rw (n1, n2, n3, n4, n5, y) (then_va _ va text ps run),
                  ws,
                  omega arith,
                  pointer v va s (ground arith) num,
                )
            | inr n6 ↦ elim (Bool-cases (f == b's')) [
              | inl y ↦
                  let (s, str, run) = sends_pointed fuel mem r props hw v ps in
                  let text = justify props.npad props.pad s in
                  (
                    text,
                    va,
                    rw (n1, n2, n3, n4, n5, n6, y) (then_va _ va text ps run),
                    ws,
                    omega arith,
                    string v va s (ground arith) str,
                  )
              | inr n7 ↦ (
                f ∷ [],
                v ∷ va,
                rw (n1, n2, n3, n4, n5, n6, n7),
                (lt, ne, ws),
                omega arith,
                other (v ∷ va) (
                  ground arith,
                  ground arith,
                  ground arith,
                  ground arith,
                  ground arith,
                  ground arith,
                  ground arith,
                ),
              )
            ]
          ]
        ]
      ]
    ]
  ]
]
  where
    in_ten :
        (n : ℕ) (props : StrProps) (s : List ℕ)
        → unsigned_text n 10 (record props { alternate = props.alternate }) s
          ≡ justify props.npad props.pad s
    in_ten n props s = elim (Bool-cases (not (n == 0) && (props.alternate && 10 == 16))) [
      | inl bad ↦ absurd (ground arith)
      | inr good ↦ rw good refl
    ]
