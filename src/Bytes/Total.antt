-- ===== src/Bytes/Total.antt =====
-- bytesToHumanReadable always ends with a text.
use native.Mathlib.Nat.{div-le_self}
use dvnetos.Base.{
  ℕ, suc, ◌+◌, ◌*◌, ◌/◌, ◌%◌, ◌≤◌, ◌<◌, ◌^◌, ◌≡◌, refl, Bool, true, false, List, [], ◌∷◌, ◌++◌,
  arith, ltb, if◌then◌else◌, length, length-append, String, codes, Bool-cases, inl, inr, ltb→lt,
}
use dvnetos.CString.{Mem}
use dvnetos.Stdio.{ok, long, decimal_digit, digits_loop}
use dvnetos.Stdio.Print.{read_spec, take_unsigned}
use dvnetos.Stdio.Digits.{digits_loop-ok, length-digits_loop}
use dvnetos.Stdio.Render.{render, directive_text}
use dvnetos.Stdio.Emit.{store}
use dvnetos.Bytes.{unit_of, bytes_to_human_readable}
use dvnetos.Bytes.Text.{human, bytes_to_human_readable-text}

-- The format has a short text for every 64-bit number.
abbrev IsPrinted : String → Type 0
IsPrinted format =
    (v : ℕ)
    → v < 2 ^ 64
    → (cs : List ℕ) × (render (length (codes format) + 1) (codes format) (long v ∷ []) ≡ ok cs)
      × (length cs ≤ 24)

module _ (v : ℕ) (h : v < 2 ^ 64) where
  numeral : (ds : List ℕ) × (digits_loop 20 10 decimal_digit v [] ≡ ok ds)
  numeral = digits_loop-ok 10 decimal_digit (omega arith) 19 v [] (omega arith)

  suffix : (cs : List ℕ) → length cs ≤ 4 → length (numeral.0 ++ cs) ≤ 24
  suffix cs short = omega (
    arith,
    short,
    length-append numeral.0 cs,
    length-digits_loop 20 10 decimal_digit v [] numeral.0 numeral.1,
  )

bytes-IsPrinted : IsPrinted "%lu B"
unfolding render directive_text read_spec take_unsigned
bytes-IsPrinted v h =
    ((numeral v h).0 ++ codes " B", rw (numeral v h).1 refl, suffix v h (codes " B") (omega arith))

kib-IsPrinted : IsPrinted "%lu KiB"
unfolding render directive_text read_spec take_unsigned
kib-IsPrinted v h = (
  (numeral v h).0 ++ codes " KiB",
  rw (numeral v h).1 refl,
  suffix v h (codes " KiB") (omega arith),
)

mib-IsPrinted : IsPrinted "%lu MiB"
unfolding render directive_text read_spec take_unsigned
mib-IsPrinted v h = (
  (numeral v h).0 ++ codes " MiB",
  rw (numeral v h).1 refl,
  suffix v h (codes " MiB") (omega arith),
)

gib-IsPrinted : IsPrinted "%lu GiB"
unfolding render directive_text read_spec take_unsigned
gib-IsPrinted v h = (
  (numeral v h).0 ++ codes " GiB",
  rw (numeral v h).1 refl,
  suffix v h (codes " GiB") (omega arith),
)

if-IsPrinted :
    (b : Bool) (u u' : ℕ × String)
    → IsPrinted u.1
    → IsPrinted u'.1
    → IsPrinted (if b then u else u').1
if-IsPrinted true u u' h h' = h
if-IsPrinted false u u' h h' = h'

unit-IsPrinted : (bytes : ℕ) → IsPrinted (unit_of bytes).1
unfolding unit_of
unit-IsPrinted bytes = if-IsPrinted (ltb bytes 1024) _ _ bytes-IsPrinted (
    if-IsPrinted (ltb bytes (1024 * 1024)) _ _ kib-IsPrinted
      (if-IsPrinted (ltb bytes (1024 * 1024 * 1024)) _ _ mib-IsPrinted gib-IsPrinted))

abbrev HasText : (fuel bytes : ℕ) → Type 0
HasText fuel bytes = (cs : List ℕ) × (human fuel bytes ≡ ok cs) × (length cs ≤ fuel * 25)

-- A number of bytes has a text if what is left of it has one.
step-HasText :
    (fuel bytes : ℕ)
    → bytes < 2 ^ 64
    → (0 < bytes % (unit_of bytes).0 → HasText fuel (bytes % (unit_of bytes).0))
    → HasText (suc fuel) bytes
unfolding human
step-HasText fuel bytes h more =
    let (ds, text, size) =
      unit-IsPrinted bytes (bytes / (unit_of bytes).0) (omega (arith, div-le bytes)) in
    elim (Bool-cases (ltb 0 (bytes % (unit_of bytes).0))) [
      | inl some_left ↦
          let (es, rest, size') = more (ltb→lt 0 (bytes % (unit_of bytes).0) some_left) in
          (
            ds ++ b' ' ∷ es,
            rw (text, some_left, rest) refl,
            omega (arith, length-append ds (b' ' ∷ es), size, size'),
          )
      | inr none_left ↦ (ds, rw (text, none_left) refl, omega (arith, size))
    ]
  where
    div-le : (bytes : ℕ) → bytes / (unit_of bytes).0 ≤ bytes
    div-le bytes = div-le_self bytes (unit_of bytes).0

rest_b : (bytes : ℕ) → bytes < 1024 → bytes % (unit_of bytes).0 ≡ 0
unfolding unit_of
rest_b bytes h = ground arith

rest_kib : (bytes : ℕ) → bytes < 1024 * 1024 → bytes % (unit_of bytes).0 < 1024
unfolding unit_of
rest_kib bytes h = ground arith

rest_mib : (bytes : ℕ) → bytes < 1024 * 1024 * 1024 → bytes % (unit_of bytes).0 < 1024 * 1024
unfolding unit_of
rest_mib bytes h = ground arith

rest_gib : (bytes : ℕ) → bytes % (unit_of bytes).0 < 1024 * 1024 * 1024
unfolding unit_of
rest_gib bytes = ground arith

h1 : (bytes : ℕ) → bytes < 1024 → HasText 1 bytes
h1 bytes h = step-HasText 0 bytes (omega arith) (λ p. absurd (omega (arith, rest_b bytes h)))

h2 : (bytes : ℕ) → bytes < 1024 * 1024 → HasText 2 bytes
h2 bytes h =
    step-HasText 1 bytes (omega arith) (λ p. h1 (bytes % (unit_of bytes).0) (rest_kib bytes h))

h3 : (bytes : ℕ) → bytes < 1024 * 1024 * 1024 → HasText 3 bytes
h3 bytes h =
    step-HasText 2 bytes (omega arith) (λ p. h2 (bytes % (unit_of bytes).0) (rest_mib bytes h))

human-HasText : (bytes : ℕ) → bytes < 2 ^ 64 → HasText 4 bytes
human-HasText bytes h =
    step-HasText 3 bytes h (λ p. h3 (bytes % (unit_of bytes).0) (rest_gib bytes))

-- For every 64-bit number of bytes, four calls are enough: there is a text such that for each
-- buffer, of a size below 2^64, that holds it with a terminator the call returns and has stored
-- exactly these.
pub bytes_to_human_readable-total :
    (bytes : ℕ)
    → bytes < 2 ^ 64
    → (cs : List ℕ) × (human 4 bytes ≡ ok cs)
      × ((m : Mem) (buf len : ℕ)
          → length cs < len
          → len < 2 ^ 64
          → bytes_to_human_readable 4 m buf len bytes ≡ ok (store m buf (cs ++ 0 ∷ [])))
bytes_to_human_readable-total bytes h =
    let (cs, text, size) = human-HasText bytes h in
    (
      cs,
      text,
      λ m buf len fits small.
          bytes_to_human_readable-text 4 m buf len bytes cs text (omega (arith, size)) fits small,
    )
