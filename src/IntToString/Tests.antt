-- ===== src/IntToString/Tests.antt =====
-- Numbers as texts.
use dvnetos.Base.{
  ℕ, ◌+◌, ◌-◌, ◌/◌, ◌%◌, ◌^◌, ◌≤◌, ◌<◌, ◌≡◌, ◌⊎◌, refl, arith, Option, none, some, List, [], ◌∷◌,
  negsuc,
}
use dvnetos.CString.{Mem}
use dvnetos.IntToString.{int_to_string}
use dvnetos.IntToString.Convert.{char}
use dvnetos.IntToString.Digits.{magnitude, IsTail, int_to_string-digits}

abbrev empty_memory : Mem
empty_memory x = 0

abbrev or_empty : Option Mem → Mem
or_empty none = empty_memory
or_empty (some m) = m

abbrev text_of : Mem → List ℕ
text_of m = m 0 ∷ m 1 ∷ m 2 ∷ m 3 ∷ []

-- -12 comes out as 12-.
minus_twelve :
    text_of (or_empty (int_to_string 20 empty_memory (negsuc 11) 0 10))
    ≡ b'1' ∷ b'2' ∷ b'-' ∷ 0 ∷ []
unfolding int_to_string
minus_twelve = refl

int_to_string-digits_example :
    (n : ℕ) × (m' : Mem) × (int_to_string 13 empty_memory (negsuc 11) 0 10 ≡ some m')
    × (magnitude (negsuc 11) < 10 ^ n)
    × ((n ≡ 1) ⊎ (10 ^ (n - 1) ≤ magnitude (negsuc 11)))
    × ((i : ℕ) → i < n → m' (0 + i) ≡ char (magnitude (negsuc 11) / 10 ^ (n - 1 - i) % 10))
    × IsTail (negsuc 11) m' (0 + n)
int_to_string-digits_example =
    int_to_string-digits 13 empty_memory (negsuc 11) 0 10 (omega arith) (omega arith) (omega arith)
      (refl, omega arith)
