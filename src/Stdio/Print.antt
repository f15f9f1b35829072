-- ===== src/Stdio/Print.antt =====
-- The loop of kvsnprintf over the format.
use dvnetos.Base.{
  ℕ, zero, suc, ◌+◌, ◌-◌, ◌*◌, ◌^◌, Bool, true, false, not, ◌&&◌, ◌||◌, Option, List, [], ◌∷◌, ltb,
  leb, ◌==◌, if◌then◌else◌, length, ℤ, pos, negsuc,
}
use dvnetos.CString.{Mem, write}
use dvnetos.Stdio.{
  Run, ok, panic, undefined, ◌>>=◌, Spec, Arg, int, long, text, pointer, put, format_decimal,
  format_hex, format_oct, format_string, format_char, format_pointer,
}

-- The value of a signed argument of `2 * half` bit patterns: is it negative, and its magnitude.
-- Negating the least value overflows.
unfoldable pub signed : (half w : ℕ) → Run (Bool × ℕ)
signed half w =
    if ltb w half then ok (false, w) else if w == half then undefined else ok (true, 2 * half - w)

abbrev pub is_long : Spec → Bool
is_long spec = spec.length_mod == b'l'

-- `va_arg` for %d and %i.
unfoldable pub take_signed : Bool → List Arg → Run ((Bool × ℕ) × List Arg)
unfolding signed
take_signed false (int w ∷ args) = do v ← signed (2 ^ 31) w; ok (v, args)
take_signed true (long w ∷ args) = do v ← signed (2 ^ 63) w; ok (v, args)
take_signed _ _ = undefined

-- `va_arg` for %u, %o, %x and %X.
unfoldable pub take_unsigned : Bool → List Arg → Run (ℕ × List Arg)
take_unsigned false (int w ∷ args) = ok (w, args)
take_unsigned true (long w ∷ args) = ok (w, args)
take_unsigned _ _ = undefined

unfoldable pub take_text : List Arg → Run (Option (List ℕ) × List Arg)
take_text (text cs ∷ args) = ok (cs, args)
take_text _ = undefined

unfoldable pub take_pointer : List Arg → Run (ℕ × List Arg)
take_pointer (pointer p ∷ args) = ok (p, args)
take_pointer _ = undefined

abbrev pub is_digit : ℕ → Bool
is_digit c = leb b'0' c && leb c b'9'

-- The loops that read `minLength` and `precision`.
unfoldable pub read_number : ℕ → List ℕ → ℕ × List ℕ
read_number v [] = (v, [])
read_number v (c ∷ cs) = if is_digit c then read_number (v * 10 + (c - b'0')) cs else (v, c ∷ cs)

-- `if (format[i] == c) { …; i++; }`: whether the format goes on with `c`, and what is behind it.
unfoldable pub skip : ℕ → List ℕ → Bool × List ℕ
skip c [] = (false, [])
skip c (d ∷ cs) = if d == c then (true, cs) else (false, d ∷ cs)

-- One character of the length modifier, or 0.
unfoldable pub read_mod : List ℕ → ℕ × List ℕ
read_mod [] = (0, [])
read_mod (c ∷ cs) = if c == b'l' || c == b'h' then (c, cs) else (0, c ∷ cs)

-- `spec.type = format[i]; i++;`
abbrev pub read_type : List ℕ → ℕ × List ℕ
read_type [] = (0, [])
read_type (c ∷ cs) = (c, cs)

-- The directive behind a `%`.
unfoldable pub read_spec : List ℕ → Spec × List ℕ
unfolding read_number skip read_mod
read_spec f0 =
    let (zeros, f1) = skip b'0' f0 in
    let (sign, f2) = skip b'+' f1 in
    let (left, f3) = skip b'-' f2 in
    let (width, f4) = read_number 0 f3 in
    let (dot, f5) = skip b'.' f4 in
    let (precision, f6) = if dot then read_number 0 f5 else (0, f5) in
    let (mod1, f7) = read_mod f6 in
    let (mod2, f8) = if mod1 == 0 then (0, f7) else read_mod f7 in
    let (type, f9) = read_type f8 in
    (
      record {
        type = type;
        padding = if zeros then b'0' else b' ';
        length_mod = mod1;
        length_mod_2 = mod2;
        left_justify = left;
        force_sign = sign;
        min_length = width;
        precision = precision;
      },
      f9,
    )

-- `minLength` and `precision` are of type int, and their loops overflow from 2^31 on.
abbrev pub numbers_fit : Spec → Bool
numbers_fit spec = ltb spec.min_length (2 ^ 31) && ltb spec.precision (2 ^ 31)

-- The branches on `spec.type`, at a place with `n` bytes left: the memory, the number of characters
-- and the arguments left.
unfoldable pub directive : Mem → (buf n : ℕ) → Spec → List Arg → Run ((Mem × ℕ) × List Arg)
unfolding take_signed take_unsigned take_text take_pointer
directive m buf n spec args =
    let t = spec.type in
    let number = (do
      (v, rest) ← take_signed (is_long spec) args
      r ← format_decimal m buf n v.0 v.1
      ok (r, rest)) in
    let unsigned = (do
      (v, rest) ← take_unsigned (is_long spec) args
      r ←
          if t == b'u'
          then format_decimal m buf n false v
          else if t == b'o'
          then format_oct m buf n v
          else format_hex m buf n spec v
      ok (r, rest)) in
    let string = (do (cs, rest) ← take_text args; ok (format_string m buf n cs, rest)) in
    let char = (do (c, rest) ← take_unsigned false args; ok (format_char m buf n c, rest)) in
    let address = (do (p, rest) ← take_pointer args; ok (format_pointer m buf n p, rest)) in
    if not (numbers_fit spec)
    then undefined
    else if t == b'd' || t == b'i'
    then number
    else if t == b'x' || (t == b'X' || (t == b'o' || t == b'u'))
    then unsigned
    else if t == b's'
    then string
    else if t == b'c'
    then char
    else if t == b'p'
    then address
    else panic t

-- The macro `rem`.
abbrev pub rem : (n j : ℕ) → ℕ
rem n j = if leb n j then 0 else n - j

-- `total_chars` is of type int, as are `j` and the counters of the formatters, which are not larger
-- and only grow too: a run in which a counter passes the largest int is undefined.
abbrev pub checked : (total : ℕ) → Run (Mem × ℕ × ℕ) → Run (Mem × ℕ × ℕ)
checked total run = if ltb total (2 ^ 31) then run else undefined

-- The loop of kvsnprintf over the format that is left, with `j` and `total_chars`. It takes as fuel
-- one more than the length of the format.
unfoldable pub print_loop :
    ℕ → Mem → (buf n : ℕ) → List ℕ → List Arg → (j total : ℕ) → Run (Mem × ℕ × ℕ)
unfolding put read_spec directive
print_loop zero m buf n format args j total = undefined
print_loop (suc fuel) m buf n [] args j total = checked total (ok (m, j, total))
print_loop (suc fuel) m buf n (c ∷ []) args j total = checked total (
    print_loop fuel (if ltb 1 (rem n j) then write m (buf + j) c else m) buf n [] args (j + 1)
      (total + 1))
print_loop (suc fuel) m buf n (c ∷ d ∷ format) args j total =
    let plain =
      print_loop fuel (if ltb 1 (rem n j) then write m (buf + j) c else m) buf n (d ∷ format) args
        (j + 1) (total + 1) in
    let percent = print_loop fuel (put m buf n j b'%') buf n format args (j + 1) (total + 1) in
    let spec = read_spec (d ∷ format) in
    let formatted = (do
      ((m', k), rest) ← directive m (buf + j) (rem n j) spec.0 args
      print_loop fuel m' buf n spec.1 rest (j + k) (total + k)) in
    checked total (if c == b'%' then if d == b'%' then percent else formatted else plain)

-- The terminator.
unfoldable pub terminate : Mem → (buf n j : ℕ) → Mem
terminate m buf n j =
    if ltb j n then write m (buf + j) 0 else if ltb 0 n then write m (buf + (n - 1)) 0 else m

-- The index into the format is an int as well.
unfoldable pub kvsnprintf : Mem → (buf n : ℕ) → List ℕ → List Arg → Run (Mem × ℕ)
unfolding print_loop terminate
kvsnprintf m buf n format args = do
  (m', j, total) ←
      if ltb (length format) (2 ^ 31)
      then print_loop (length format + 1) m buf n format args 0 0
      else undefined
  ok (terminate m' buf n j, total)

-- The result of ksnprintf, as an int: at most `n - 1`, which is -1 for an empty buffer.
unfoldable pub capped : (n result : ℕ) → ℤ
capped n result = if leb n result then if n == 0 then negsuc 0 else pos (n - 1) else pos result

unfoldable pub ksnprintf : Mem → (buf n : ℕ) → List ℕ → List Arg → Run (Mem × ℤ)
unfolding kvsnprintf capped
ksnprintf m buf n format args = do
  (m', result) ← kvsnprintf m buf n format args
  ok (m', capped n result)
