-- ===== src/Stdio/Output.antt =====
-- kvsnprintf prints the text of its format.
use dvnetos.Base.{
  ℕ, ◌%◌, ◌<◌, ◌^◌, ◌≡◌, refl, ◌∙◌, ap, Bool, not, true, false, ◌||◌, List, [], ◌∷◌, Option, arith,
  ◌==◌, if◌then◌else◌, length, Bool-cases, inl, inr,
}
use dvnetos.CString.{Mem}
use dvnetos.Stdio.{
  Run, ok, panic, undefined, ◌>>=◌, Spec, Arg, emit, digits_loop, temp_size, decimal_digit,
  hex_digit, minus, text_or_null, pointer_digits, format_decimal, format_hex, format_oct,
  format_string, format_char, format_pointer,
}
use dvnetos.Stdio.Print.{
  is_long, numbers_fit, take_signed, take_unsigned, take_text, take_pointer, directive,
}
use dvnetos.Stdio.Render.{unsigned_text, directive_text}
use dvnetos.Stdio.Emit.{store, emit-count, emit-store}

-- A formatter has put `cs` into a buffer of `n` bytes: it returns their number, and if a byte is
-- left behind them they are all stored.
pub record Placed (m : Mem) (buf n : ℕ) (cs : List ℕ) (r : Mem × ℕ) : Type 0 where
  pub count : r.1 ≡ length cs
  pub stored : length cs < n → n < 2 ^ 64 → r.0 ≡ store m buf cs

emit-Placed : (m : Mem) (buf n : ℕ) (cs : List ℕ) → Placed m buf n cs (emit m buf n 0 cs)
emit-Placed m buf n cs = record {
  count = omega (arith, emit-count m buf n 0 cs);
  stored = λ h w. emit-store m buf n 0 cs (omega arith) w ∙ ap (λ a. store m a cs) (omega arith);
}

char-Placed : (m : Mem) (buf n c : ℕ) → Placed m buf n (c % 256 ∷ []) (format_char m buf n c)
unfolding format_char store
char-Placed m buf n c = record { count = refl; stored = λ h w. ground arith }

module _ (m : Mem) (buf n : ℕ) where
  -- Where the text is defined, the formatter returns, and has placed it.
  abbrev pub Agrees : Run (List ℕ × List Arg) → Run ((Mem × ℕ) × List Arg) → Type 0
  Agrees t d =
      (cs : List ℕ) (rest : List Arg)
      → t ≡ ok (cs, rest)
      → (r : Mem × ℕ) × (d ≡ ok (r, rest)) × Placed m buf n cs r

  Agrees-if :
      (b : Bool) (t t' : Run (List ℕ × List Arg)) (d d' : Run ((Mem × ℕ) × List Arg))
      → Agrees t d
      → Agrees t' d'
      → Agrees (if b then t else t') (if b then d else d')
  Agrees-if true t t' d d' h h' = h
  Agrees-if false t t' d d' h h' = h'

  -- A formatter that emits the text `cs`.
  Agrees-emit :
      (cs : List ℕ) (rest : List Arg) → Agrees (ok (cs, rest)) (ok (emit m buf n 0 cs, rest))
  Agrees-emit cs rest ds rest' h =
      let same : ds ≡ cs = ground arith in
      let same' : rest' ≡ rest = ground arith in
      rw (same, same') (emit m buf n 0 cs, refl, emit-Placed m buf n cs)

  Agrees-digits :
      (o : Run (List ℕ)) (pre : List ℕ → List ℕ) (rest : List Arg)
      → Agrees
          (o >>= λ ds. ok (pre ds, rest))
          ((o >>= λ ds. ok (emit m buf n 0 (pre ds))) >>= λ r. ok (r, rest))
  Agrees-digits (ok ds) pre rest cs rest' h = Agrees-emit (pre ds) rest cs rest' h
  Agrees-digits (panic c) pre rest cs rest' h = cc
  Agrees-digits undefined pre rest cs rest' h = cc

  number-Agrees :
      (o : Run ((Bool × ℕ) × List Arg))
      → Agrees
          (do
            (v, rest) ← o
            ds ← digits_loop temp_size 10 decimal_digit v.1 []
            ok (minus v.0 ds, rest))
          (do (v, rest) ← o; r ← format_decimal m buf n v.0 v.1; ok (r, rest))
  unfolding format_decimal
  number-Agrees (ok (v, rest)) cs rest' h =
      Agrees-digits (digits_loop temp_size 10 decimal_digit v.1 []) (minus v.0) rest cs rest' h
  number-Agrees (panic c) cs rest' h = cc
  number-Agrees undefined cs rest' h = cc

  abbrev format_unsigned : Spec → ℕ → Run (Mem × ℕ)
  format_unsigned spec v =
      if spec.type == b'u'
      then format_decimal m buf n false v
      else if spec.type == b'o'
      then format_oct m buf n v
      else format_hex m buf n spec v

  unsigned-Agrees :
      (spec : Spec) (o : Run (ℕ × List Arg))
      → Agrees
          (do (v, rest) ← o; ds ← unsigned_text spec v; ok (ds, rest))
          (do (v, rest) ← o; r ← format_unsigned spec v; ok (r, rest))
  unfolding format_decimal format_oct format_hex
  unsigned-Agrees spec (ok (v, rest)) cs rest' h = elim (Bool-cases (spec.type == b'u')) [
    | inl e ↦
        let h' = rw e at h in
        rw e
          (Agrees-digits (digits_loop temp_size 10 decimal_digit v []) (λ ds. ds) rest cs rest' h')
    | inr e ↦ elim (Bool-cases (spec.type == b'o')) [
      | inl e' ↦
          let h' = rw (e, e') at h in
          rw (e, e')
            (Agrees-digits (digits_loop temp_size 8 decimal_digit v []) (λ ds. ds) rest cs rest' h')
      | inr e' ↦
          let h' = rw (e, e') at h in
          rw (e, e') (Agrees-digits (hex_run spec v) (λ ds. ds) rest cs rest' h')
    ]
  ]
    where
      hex_run : Spec → ℕ → Run (List ℕ)
      hex_run spec v =
          digits_loop temp_size 16 (hex_digit (if spec.type == b'X' then b'A' else b'a')) v []
  unsigned-Agrees spec (panic c) cs rest' h = cc
  unsigned-Agrees spec undefined cs rest' h = cc

  string-Agrees :
      (o : Run (Option (List ℕ) × List Arg))
      → Agrees
          (do (cs, rest) ← o; ok (text_or_null cs, rest))
          (do (cs, rest) ← o; ok (format_string m buf n cs, rest))
  unfolding format_string
  string-Agrees (ok (text, rest)) cs rest' h = Agrees-emit (text_or_null text) rest cs rest' h
  string-Agrees (panic c) cs rest' h = cc
  string-Agrees undefined cs rest' h = cc

  char-Agrees :
      (o : Run (ℕ × List Arg))
      → Agrees
          (do (c, rest) ← o; ok (c % 256 ∷ [], rest))
          (do (c, rest) ← o; ok (format_char m buf n c, rest))
  char-Agrees (ok (c, rest)) cs rest' h =
      let same : cs ≡ c % 256 ∷ [] = ground arith in
      let same' : rest' ≡ rest = ground arith in
      rw (same, same') (format_char m buf n c, refl, char-Placed m buf n c)
  char-Agrees (panic c) cs rest' h = cc
  char-Agrees undefined cs rest' h = cc

  address-Agrees :
      (o : Run (ℕ × List Arg))
      → Agrees
          (do (p, rest) ← o; ok (b'0' ∷ b'x' ∷ pointer_digits 16 p, rest))
          (do (p, rest) ← o; ok (format_pointer m buf n p, rest))
  unfolding format_pointer
  address-Agrees (ok (p, rest)) cs rest' h =
      Agrees-emit (b'0' ∷ b'x' ∷ pointer_digits 16 p) rest cs rest' h
  address-Agrees (panic c) cs rest' h = cc
  address-Agrees undefined cs rest' h = cc

  pub directive-Agrees :
      (spec : Spec) (args : List Arg)
      → Agrees (directive_text spec args) (directive m buf n spec args)
  unfolding directive_text directive
  directive-Agrees spec args =
      Agrees-if (not (numbers_fit spec)) _ _ _ _ (λ cs rest h. cc)
        (Agrees-if (t == b'd' || t == b'i') _ _ _ _
          (number-Agrees (take_signed (is_long spec) args))
          (Agrees-if (t == b'x' || (t == b'X' || (t == b'o' || t == b'u'))) _ _ _ _
            (unsigned-Agrees spec (take_unsigned (is_long spec) args))
            (Agrees-if (t == b's') _ _ _ _ (string-Agrees (take_text args)) (
              Agrees-if (t == b'c') _ _ _ _ (char-Agrees (take_unsigned false args)) (
                Agrees-if (t == b'p') _ _ _ _ (address-Agrees (take_pointer args))
                  (λ cs rest h. cc))))))
    where
      t : ℕ
      t = spec.type
