-- ===== src/Stdio/Render.antt =====
-- The text that a format stands for, with no buffer: what a call is to print.
use dvnetos.Base.{ℕ, zero, suc, ◌%◌, false, not, ◌||◌, List, [], ◌∷◌, ◌++◌, ◌==◌, if◌then◌else◌}
use dvnetos.Stdio.{
  Run, ok, panic, undefined, ◌>>=◌, Spec, Arg, digits_loop, temp_size, decimal_digit, hex_digit,
  minus, text_or_null, pointer_digits,
}
use dvnetos.Stdio.Print.{
  is_long, take_signed, take_unsigned, take_text, take_pointer, numbers_fit, read_spec,
}

-- The digits of an unsigned argument.
abbrev pub unsigned_text : Spec → ℕ → Run (List ℕ)
unsigned_text spec v =
    if spec.type == b'u'
    then digits_loop temp_size 10 decimal_digit v []
    else if spec.type == b'o'
    then digits_loop temp_size 8 decimal_digit v []
    else digits_loop temp_size 16 (hex_digit (if spec.type == b'X' then b'A' else b'a')) v []

-- The text of one directive, and the arguments left.
unfoldable pub directive_text : Spec → List Arg → Run (List ℕ × List Arg)
directive_text spec args =
    let t = spec.type in
    let number : Run (List ℕ × List Arg) = (do
      (v, rest) ← take_signed (is_long spec) args
      ds ← digits_loop temp_size 10 decimal_digit v.1 []
      ok (minus v.0 ds, rest)) in
    let unsigned : Run (List ℕ × List Arg) = (do
      (v, rest) ← take_unsigned (is_long spec) args
      ds ← unsigned_text spec v
      ok (ds, rest)) in
    let string : Run (List ℕ × List Arg) = (do
      (cs, rest) ← take_text args
      ok (text_or_null cs, rest)) in
    let char : Run (List ℕ × List Arg) = (do
      (c, rest) ← take_unsigned false args
      ok (c % 256 ∷ [], rest)) in
    let address : Run (List ℕ × List Arg) = (do
      (p, rest) ← take_pointer args
      ok (b'0' ∷ b'x' ∷ pointer_digits 16 p, rest)) in
    if not (numbers_fit spec)
    then undefined
    else if t == b'd' || t == b'i'
    then number
    else if t == b'x' || (t == b'X' || (t == b'o' || t == b'u'))
    then unsigned
    else if t == b's'
    then string
    else if t == b'c'
    then char
    else if t == b'p'
    then address
    else panic t

-- The text of a format, with fuel above its length.
unfoldable pub render : ℕ → List ℕ → List Arg → Run (List ℕ)
render zero format args = undefined
render (suc fuel) [] args = ok []
render (suc fuel) (c ∷ []) args = do cs ← render fuel [] args; ok (c ∷ cs)
render (suc fuel) (c ∷ d ∷ format) args =
    let plain : Run (List ℕ) = (do cs ← render fuel (d ∷ format) args; ok (c ∷ cs)) in
    let percent : Run (List ℕ) = (do cs ← render fuel format args; ok (b'%' ∷ cs)) in
    let spec = read_spec (d ∷ format) in
    let formatted : Run (List ℕ) = (do
      (cs, rest) ← directive_text spec.0 args
      ds ← render fuel spec.1 rest
      ok (cs ++ ds)) in
    if c == b'%' then if d == b'%' then percent else formatted else plain
