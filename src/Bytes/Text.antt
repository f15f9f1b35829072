-- ===== src/Bytes/Text.antt =====
-- The text that bytesToHumanReadable leaves in its buffer.
use std.Path.{fun_ext}
use dvnetos.Base.{
  ℕ, zero, suc, ◌+◌, ◌-◌, ◌/◌, ◌*◌, ◌%◌, ◌<◌, ◌^◌, ◌≡◌, refl, ◌∙◌, sym, ap, Bool, true, false, List,
  [], ◌∷◌, ◌++◌, arith, ltb, if◌then◌else◌, length, length-append, append_assoc, codes, sub64,
  Bool-cases, inl, inr, ◌⊎◌, ℤ, pos,
}
use dvnetos.CString.{Mem, write}
use dvnetos.Stdio.{Run, ok, panic, undefined, ◌>>=◌, long}
use dvnetos.Stdio.Print.{ksnprintf}
use dvnetos.Stdio.Render.{render}
use dvnetos.Stdio.Emit.{store, store-append}
use dvnetos.Stdio.Loop.{bind-ok}
use dvnetos.Stdio.Return.{ksnprintf-text}
use dvnetos.Bytes.{unit_of, llen_of, bytes_to_human_readable}

-- The text of a number of bytes, without a buffer.
unfoldable pub human : ℕ → (bytes : ℕ) → Run (List ℕ)
unfolding unit_of render
human zero bytes = undefined
human (suc fuel) bytes = do
  let unit = unit_of bytes
  ds ← render (length (codes unit.1) + 1) (codes unit.1) (long (bytes / unit.0) ∷ [])
  let more : Run (List ℕ) = (do es ← human fuel (bytes % unit.0); ok (ds ++ b' ' ∷ es))
  if ltb 0 (bytes % unit.0) then more else ok ds

-- A blank written over the terminator, and then a text.
store-blank :
    (m : Mem) (a : ℕ) (ds es : List ℕ)
    → store
        (write (store m a (ds ++ 0 ∷ [])) (a + length ds) b' ')
        (a + (length ds + 1))
        (es ++ 0 ∷ [])
      ≡ store m a ((ds ++ b' ' ∷ es) ++ 0 ∷ [])
unfolding store
store-blank m a ds es =
    let blank : write (store m a (ds ++ 0 ∷ [])) (a + length ds) b' '
        ≡ store m a (ds ++ b' ' ∷ []) =
      ap (λ m'. write m' (a + length ds) b' ') (store-append m a ds (0 ∷ []))
      ∙ fun_ext (λ x. ground arith)
      ∙ sym (store-append m a ds (b' ' ∷ [])) in
    let place : a + (length ds + 1) ≡ a + length (ds ++ b' ' ∷ []) =
      rw (length-append ds (b' ' ∷ [])) refl in
    ap (λ m'. store m' (a + (length ds + 1)) (es ++ 0 ∷ [])) blank
    ∙ ap (λ b. store (store m a (ds ++ b' ' ∷ [])) b (es ++ 0 ∷ [])) place
    ∙ sym (store-append m a (ds ++ b' ' ∷ []) (es ++ 0 ∷ []))
    ∙ ap (store m a)
        (append_assoc ds (b' ' ∷ []) (es ++ 0 ∷ []) ∙ sym (append_assoc ds (b' ' ∷ es) (0 ∷ [])))

-- What the text of the second part can be.
if-ok :
    (b : Bool) (o : Run (List ℕ)) (ds cs : List ℕ)
    → (if b then (do es ← o; ok (ds ++ b' ' ∷ es)) else ok ds) ≡ ok cs
    → ((b ≡ true) × ((es : List ℕ) × (o ≡ ok es) × (cs ≡ ds ++ b' ' ∷ es)))
      ⊎ ((b ≡ false) × (cs ≡ ds))
if-ok true (ok es) ds cs h = inl (refl, (es, refl, cc))
if-ok true (panic c) ds cs h = cc
if-ok true undefined ds cs h = cc
if-ok false o ds cs h = inr (refl, cc)

no_rest : (bytes : ℕ) → ltb 0 (bytes % (unit_of bytes).0) ≡ true → ltb bytes 1024 ≡ false
unfolding unit_of
no_rest bytes h = elim (Bool-cases (ltb bytes 1024)) [
  | inl small ↦
      let one : (unit_of bytes).0 ≡ 1 = rw small refl in
      let h' = rw one at h in absurd (ground (arith, h'))
  | inr large ↦ large
]

format-short : (bytes : ℕ) → length (codes (unit_of bytes).1) < 2 ^ 31
unfolding unit_of
format-short bytes = elim (Bool-cases (ltb bytes 1024)) [
  | inl e ↦ rw e (omega arith)
  | inr e ↦ rw e (elim (Bool-cases (ltb bytes (1024 * 1024))) [
    | inl e' ↦ rw e' (omega arith)
    | inr e' ↦ rw e' (elim (Bool-cases (ltb bytes (1024 * 1024 * 1024))) [
      | inl e'' ↦ rw e'' (omega arith)
      | inr e'' ↦ rw e'' (omega arith)
    ])
  ])
]

-- Where something is left, the place of the rest is behind the text.
llen_rest :
    (bytes : ℕ) (r : ℤ) (k : ℕ)
    → ltb 0 (bytes % (unit_of bytes).0) ≡ true
    → r ≡ pos k
    → llen_of bytes r ≡ k
unfolding unit_of
llen_rest bytes r k some_left result = rw (no_rest bytes some_left, result) refl

module _ (fuel : ℕ) (m : Mem) (buf len bytes : ℕ) (ds : List ℕ) {m' : Mem} {r : ℤ}
    (returns : ksnprintf m buf len (codes (unit_of bytes).1) (long (bytes / (unit_of bytes).0) ∷ [])
      ≡ ok (m', r))
    (memory : m' ≡ store m buf (ds ++ 0 ∷ [])) where
  -- The call ends with the text `ds`.
  whole-text :
      (cs : List ℕ)
      → ltb 0 (bytes % (unit_of bytes).0) ≡ false
      → cs ≡ ds
      → bytes_to_human_readable (suc fuel) m buf len bytes ≡ ok (store m buf (cs ++ 0 ∷ []))
  unfolding bytes_to_human_readable
  whole-text cs none_left whole = rw (returns, none_left, memory, whole) refl

  abbrev blank : Mem
  blank = write (store m buf (ds ++ 0 ∷ [])) (buf + length ds) b' '

  -- The text `ds` is followed by the text of a second call.
  front-text :
      (cs es : List ℕ)
      → ltb 0 (bytes % (unit_of bytes).0) ≡ true
      → r ≡ pos (length ds)
      → cs ≡ ds ++ b' ' ∷ es
      → length ds < len
      → len < 2 ^ 64
      → bytes_to_human_readable fuel blank
          (buf + (length ds + 1))
          (len - (length ds + 1))
          (bytes % (unit_of bytes).0)
        ≡ ok (store blank (buf + (length ds + 1)) (es ++ 0 ∷ []))
      → bytes_to_human_readable (suc fuel) m buf len bytes ≡ ok (store m buf (cs ++ 0 ∷ []))
  unfolding bytes_to_human_readable
  front-text cs es some_left result whole fits small more =
      let llen : llen_of bytes r ≡ length ds = llen_rest bytes r (length ds) some_left result in
      let room : ltb (length ds) len ≡ true = ground arith in
      let left : sub64 len (length ds + 1) ≡ len - (length ds + 1) = omega arith in
      rw (returns, some_left, llen, room, left, whole, memory)
        (more ∙ ap ok (store-blank m buf ds es))

-- Where the text is shorter than 2^31 and fits in the buffer with its terminator, the call returns
-- and has stored exactly these.
pub bytes_to_human_readable-text :
    (fuel : ℕ) (m : Mem) (buf len bytes : ℕ) (cs : List ℕ)
    → human fuel bytes ≡ ok cs
    → length cs < 2 ^ 31
    → length cs < len
    → len < 2 ^ 64
    → bytes_to_human_readable fuel m buf len bytes ≡ ok (store m buf (cs ++ 0 ∷ []))
unfolding human
bytes_to_human_readable-text zero m buf len bytes cs h short fits small = cc
bytes_to_human_readable-text (suc fuel) m buf len bytes cs h short fits small =
    let unit = unit_of bytes in
    let (ds, text, e) = bind-ok _ _ cs h in
    let call =
      ksnprintf-text m buf len (codes unit.1) (long (bytes / unit.0) ∷ []) ds text
        (format-short bytes) in
    elim (if-ok (ltb 0 (bytes % unit.0)) (human fuel (bytes % unit.0)) ds cs e) [
      | inl (some_left, (es, rest, whole)) ↦
          let total : length cs ≡ length ds + suc (length es) =
            ap length whole ∙ length-append ds (b' ' ∷ es) in
          let (m', r, returns, stored, _, _) = call (omega (arith, short, total)) in
          let (result, memory) = stored (omega (arith, fits, total)) small in
          front-text fuel m buf len bytes ds returns memory cs es some_left result whole
            (omega (arith, fits, total)) small
            (bytes_to_human_readable-text fuel _ (buf + (length ds + 1)) (len - (length ds + 1))
              (bytes % unit.0) es rest (omega (arith, short, total)) (omega (arith, fits, total))
              (omega arith))
      | inr (none_left, whole) ↦
          let (m', r, returns, stored, _, _) = call (rw (sym whole) short) in
          let (result, memory) = stored (rw (sym whole) fits) small in
          whole-text fuel m buf len bytes ds returns memory cs none_left whole
    ]
