-- ===== src/Stdio/Tests.antt =====
-- stdio_test.cpp as tests, and the theorems at concrete formats.
use Prim.Native.Char.{code}
use Prim.Native.String.{String}
use dvnetos.Base.{
  ℕ, zero, suc, ◌+◌, ◌≤◌, ◌<◌, ◌^◌, ◌≡◌, refl, List, [], ◌∷◌, ◌++◌, some, true, ℤ, pos, negsuc,
  arith, get_elem?, All,
}
use dvnetos.CString.{Mem}
use dvnetos.Stdio.{
  Run, ok, undefined, ◌>>=◌, Arg, int, text, pointer, emit, minus, digits_loop, format_decimal,
  format_hex, format_oct, format_string, format_pointer,
}
use dvnetos.Stdio.Print.{ksnprintf, kvsnprintf, read_spec, take_signed, take_text}
use dvnetos.Stdio.Render.{render, directive_text}
use dvnetos.Stdio.Emit.{store}
use dvnetos.Stdio.Return.{kvsnprintf-text, ksnprintf-text}
use dvnetos.Stdio.Digits.{value}
use dvnetos.Stdio.Numbers.{decimal_value, IsDecimal, format_decimal-value, format_oct-bound}
use dvnetos.Stdio.Overrun.{two_texts, two_texts-overrun}

abbrev codes : String → List ℕ
codes String.[] = []
codes (String.◌∷◌ c s) = code c ∷ codes s

abbrev blank : Mem
blank x = 255

abbrev dump : ℕ → ℕ → Mem → List ℕ
dump zero a m = []
dump (suc k) a m = m a ∷ dump k (a + 1) m

-- The first `k` bytes of the buffer after a call, and its result.
abbrev prints : (k n : ℕ) → String → List Arg → Run (List ℕ × ℤ)
prints k n format args = do
  (m, r) ← ksnprintf blank 1000 n (codes format) args
  ok (dump k 1000 m, r)

abbrev expect : String → ℕ → Run (List ℕ × ℤ)
expect s r = ok (codes s, pos r)

decimal_and_text :
    prints 9 256 "abc%d%s" (int 123 ∷ text (some (codes "def")) ∷ []) ≡ expect "abc123def" 9
unfolding ksnprintf format_decimal format_string
decimal_and_text = refl

hexadecimal : prints 7 256 "abc%X" (int 4107 ∷ []) ≡ expect "abc100B" 7
unfolding ksnprintf format_hex
hexadecimal = refl

octal : prints 5 256 "abc%o" (int 9 ∷ []) ≡ expect "abc11" 5
unfolding ksnprintf format_oct
octal = refl

address : prints 21 256 "abc%p" (pointer 456 ∷ []) ≡ expect "abc0x00000000000001c8" 21
unfolding ksnprintf format_pointer
address = refl

-- The buffer of five bytes, and four bytes behind it.
overflow :
    prints 9 5 "abc%d%sx" (int 123 ∷ text (some (codes "def")) ∷ [])
    ≡ ok (97 ∷ 98 ∷ 99 ∷ 49 ∷ 0 ∷ 255 ∷ 100 ∷ 101 ∷ 102 ∷ [], pos 4)
unfolding ksnprintf format_decimal format_string
overflow = refl

abbrev greeting : List ℕ
greeting = codes "abc%d%s"

abbrev greeting_args : List Arg
greeting_args = int 123 ∷ text (some (codes "def")) ∷ []

abbrev five : ℕ
five = 5

kvsnprintf-text_example :
    (m' : Mem) × (kvsnprintf blank 1000 256 greeting greeting_args ≡ ok (m', 9))
    × (9 < 256 → 256 < 2 ^ 64 → m' ≡ store blank 1000 (codes "abc123def" ++ 0 ∷ []))
unfolding render digits_loop directive_text read_spec take_signed take_text
kvsnprintf-text_example =
    kvsnprintf-text blank 1000 256 greeting greeting_args (codes "abc123def") refl (omega arith)
      (omega arith)

ksnprintf-text_example :
    (m' : Mem) × (r : ℤ) × (ksnprintf blank 1000 5 greeting greeting_args ≡ ok (m', r))
    × (9 < 5 → 5 < 2 ^ 64 → (r ≡ pos 9) × (m' ≡ store blank 1000 (codes "abc123def" ++ 0 ∷ [])))
    × (0 < 5 → 5 ≤ 9 → r ≡ pos 4)
    × (five ≡ 0 → r ≡ negsuc 0)
unfolding render digits_loop directive_text read_spec take_signed take_text
ksnprintf-text_example =
    ksnprintf-text blank 1000 5 greeting greeting_args (codes "abc123def") refl (omega arith)
      (omega arith)

format_decimal-value_example :
    (ds : List ℕ) × (format_decimal blank 1000 256 true 123
      ≡ ok (emit blank 1000 256 0 (minus true ds)))
    × All IsDecimal ds
    × (value 10 decimal_value 0 ds ≡ 123)
format_decimal-value_example = format_decimal-value blank 1000 256 true 123 (omega arith)

format_oct-bound_example :
    (2 ^ 60 ≤ 2 ^ 63 → format_oct blank 1000 256 (2 ^ 63) ≡ undefined)
    × (2 ^ 63 < 2 ^ 60
        → (ds : List ℕ) × (format_oct blank 1000 256 (2 ^ 63) ≡ ok (emit blank 1000 256 0 ds))
          × (value 8 decimal_value 0 ds ≡ 2 ^ 63))
format_oct-bound_example = format_oct-bound blank 1000 256 (2 ^ 63)

two_texts-overrun_example :
    (m' : Mem) × (kvsnprintf blank 1000 2 two_texts
        (text (some (codes "ab")) ∷ text (some (codes "cd")) ∷ [])
      ≡ ok (m', 4))
    × ((i c : ℕ) → get_elem? (codes "cd") i ≡ some c → m' (1002 + i) ≡ c)
two_texts-overrun_example =
    two_texts-overrun blank 1000 2 (codes "ab") (codes "cd") (omega arith) (omega arith)
