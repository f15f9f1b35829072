-- ===== src/Stdio/Overrun.antt =====
-- What kvsnprintf stores behind the end of its buffer.
use dvnetos.Base.{
  ℕ, ◌+◌, ◌≤◌, ◌<◌, ◌^◌, ◌≡◌, refl, ◌∙◌, ap, List, [], ◌∷◌, some, arith, ltb, true, length,
  get_elem?,
}
use dvnetos.CString.{Mem}
use dvnetos.Stdio.{ok, text, emit, format_string}
use dvnetos.Stdio.Print.{read_spec, directive, rem, print_loop, terminate, kvsnprintf}
use dvnetos.Stdio.Emit.{store, store_at, emit-count, emit_zero}

abbrev pub two_texts : List ℕ
two_texts = b'%' ∷ b's' ∷ b'%' ∷ b's' ∷ []

abbrev first : Mem → (buf n : ℕ) → List ℕ → Mem
first m buf n xs = (emit m buf n 0 xs).0

text-count : (m : Mem) (buf n : ℕ) (xs : List ℕ) → (format_string m buf n (some xs)).1 ≡ length xs
unfolding format_string
text-count m buf n xs = emit-count m buf n 0 xs ∙ omega arith

terminate_after : (m : Mem) (buf n j x : ℕ) → n ≤ j → buf + n ≤ x → terminate m buf n j x ≡ m x
unfolding terminate
terminate_after m buf n j x h w = ground arith

-- The call, written out.
two_texts-run :
    (m : Mem) (buf n : ℕ) (xs ys : List ℕ)
    → n ≤ length xs
    → length xs + length ys < 2 ^ 31
    → kvsnprintf m buf n two_texts (text (some xs) ∷ text (some ys) ∷ [])
      ≡ ok (
        terminate
            (emit (first m buf n xs) (buf + length xs) 0 0 ys).0
            buf
            n
            (length xs + length ys),
        length xs + length ys,
      )
unfolding kvsnprintf print_loop read_spec directive format_string
two_texts-run m buf n xs ys h w =
    let all : rem n 0 ≡ n = ground arith in
    let none_left : rem n (length xs) ≡ 0 = ground arith in
    let start : buf + 0 ≡ buf = omega arith in
    let sum : (k : ℕ) → 0 + k ≡ k = λ k. omega arith in
    let first_counts : ltb (length xs) (2 ^ 31) ≡ true = ground arith in
    let both_count : ltb (length xs + length ys) (2 ^ 31) ≡ true = ground arith in
    rw
      (
        all,
        start,
        text-count m buf n xs,
        sum (length xs),
        none_left,
        first_counts,
        text-count (first m buf n xs) (buf + length xs) 0 ys,
        both_count,
      )
      refl

-- Where the text of a first %s fills the buffer, a second %s is formatted with no byte left, and
-- every character of its text is stored behind the end of the buffer, both texts together being
-- shorter than 2^31.
pub two_texts-overrun :
    (m : Mem) (buf n : ℕ) (xs ys : List ℕ)
    → n ≤ length xs
    → length xs + length ys < 2 ^ 31
    → (m' : Mem) × (kvsnprintf m buf n two_texts (text (some xs) ∷ text (some ys) ∷ [])
        ≡ ok (m', length xs + length ys))
      × ((i c : ℕ) → get_elem? ys i ≡ some c → m' (buf + length xs + i) ≡ c)
two_texts-overrun m buf n xs ys h w = (
  terminate stored buf n (length xs + length ys),
  two_texts-run m buf n xs ys h w,
  λ i c e.
      terminate_after stored buf n (length xs + length ys) (buf + length xs + i) (omega arith)
        (omega arith)
      ∙ ap (λ k. k (buf + length xs + i))
          (emit_zero (first m buf n xs) (buf + length xs) 0 ys (omega arith)
            ∙ ap (λ a. store (first m buf n xs) a ys) (omega arith))
      ∙ store_at (first m buf n xs) (buf + length xs) i c ys e,
)
  where
    stored : Mem
    stored = (emit (first m buf n xs) (buf + length xs) 0 0 ys).0
