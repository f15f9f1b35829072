-- ===== src/Smbios/Lookup.antt =====
-- getString finds the string of its number.
use dvnetos.Base.{
  ℕ, zero, suc, ◌+◌, ◌-◌, ◌<◌, ◌≡◌, ◌≢◌, refl, ◌∙◌, sym, ap, true, false, some, List, [], ◌∷◌,
  arith, ◌==◌, length, get_elem?, All,
}
use dvnetos.CString.{Mem}
use dvnetos.Smbios.Strings.{string_end, skip_strings, get_string}

-- The text `cs` and its terminator stand at `a`.
unfoldable pub IsText : Mem → ℕ → List ℕ → Type 0
IsText m a [] = m a ≡ 0
IsText m a (c ∷ cs) = (m a ≡ c) × (c ≢ 0) × IsText m (a + 1) cs

-- The strings of a structure, one behind the other.
unfoldable pub IsTable : Mem → ℕ → List (List ℕ) → Type 0
unfolding IsText
IsTable m a [] = Unit
IsTable m a (s ∷ ss) = IsText m a s × IsTable m (a + length s + 1) ss

string_end-length :
    (fuel : ℕ) (m : Mem) (a : ℕ) (cs : List ℕ)
    → IsText m a cs
    → length cs < fuel
    → string_end fuel m a ≡ some (a + length cs)
unfolding string_end IsText
string_end-length zero m a cs h w = absurd (omega arith)
string_end-length (suc fuel) m a [] h w =
    let stop : (m a == 0) ≡ true = ground arith in rw stop (ap some (omega arith))
string_end-length (suc fuel) m a (c ∷ cs) (here, nonzero, rest) w =
    let go : (m a == 0) ≡ false = ground arith in
    rw go (string_end-length fuel m (a + 1) cs rest (omega arith) ∙ ap some (omega arith))

skip_strings-lookup :
    (fuel : ℕ) (m : Mem) (k a : ℕ) (ss : List (List ℕ)) (s : List ℕ)
    → IsTable m a ss
    → All (λ t. length t < fuel) ss
    → get_elem? ss k ≡ some s
    → (p : ℕ) × (skip_strings k fuel m a ≡ some p) × IsText m p s
unfolding skip_strings IsTable
skip_strings-lookup fuel m k a [] s h short found = cc
skip_strings-lookup fuel m zero a (t ∷ ss) s (here, rest) short found =
    let same : t ≡ s = ground (arith, found) in (a, refl, rw (sym same) here)
skip_strings-lookup fuel m (suc k) a (t ∷ ss) s (here, rest) (first, short) found =
    let (p, skips, text) = skip_strings-lookup fuel m k (a + length t + 1) ss s rest short found in
    (p, rw (string_end-length fuel m a t here first) skips, text)

-- For the number of a string behind a structure, counted from 1, getString returns the place of that
-- string, on fuel above the length of every string; for the number 0 it returns the null pointer.
pub get_string-lookup :
    (fuel : ℕ) (m : Mem) (entry index : ℕ) (ss : List (List ℕ)) (s : List ℕ)
    → IsTable m (entry + m (entry + 1)) ss
    → All (λ t. length t < fuel) ss
    → get_elem? ss index ≡ some s
    → (get_string fuel m entry 0 ≡ some 0)
      × ((p : ℕ) × (get_string fuel m entry (suc index) ≡ some p) × IsText m p s)
unfolding get_string
get_string-lookup fuel m entry index ss s h short found =
    let nonzero : (suc index == 0) ≡ false = ground arith in
    let rounds : suc index - 1 ≡ index = omega arith in
    (
      refl,
      rw (nonzero, rounds)
          (skip_strings-lookup fuel m index (entry + m (entry + 1)) ss s h short found),
    )
