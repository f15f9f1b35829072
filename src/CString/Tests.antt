-- ===== src/CString/Tests.antt =====
-- Runs of the string functions, and their theorems at concrete memories.
use dvnetos.Base.{
  ℕ, zero, suc, ◌+◌, ◌-◌, ◌<◌, ◌≡◌, ◌≢◌, refl, ◌⊎◌, inr, some, List, [], ◌∷◌, arith, ◌==◌,
  if◌then◌else◌, pos, negsuc, ◌-ℤ◌,
}
use dvnetos.CString.{Mem, strncpy, copy_up, copy_down, memmove, memcmp, strcmp, strncmp}
use dvnetos.CString.Copy.{inside, memmove_lem}
use dvnetos.CString.Text.{IsString, strncpy_lem}
use dvnetos.CString.Compare.{
  Same, Decides, GoesOn, memcmp_lem, strncmp_past_bound, strncmp-eq-strcmp,
}

-- A memory that starts with the given bytes.
abbrev bytes : List ℕ → Mem
bytes [] x = 0
bytes (b ∷ bs) zero = b
bytes (b ∷ bs) (suc x) = bytes bs x

-- "abc" at 0, "abd" at 4, "a" at 8.
abbrev texts : Mem
texts = bytes (97 ∷ 98 ∷ 99 ∷ 0 ∷ 97 ∷ 98 ∷ 100 ∷ 0 ∷ 97 ∷ 0 ∷ [])

abc : IsString texts 0 3
abc = record { ends = refl; no_zero = at }
  where
    at : (i : ℕ) → i < 3 → texts (0 + i) ≢ 0
    at zero h = omega arith
    at (suc zero) h = omega arith
    at (suc (suc zero)) h = omega arith
    at (suc (suc (suc i))) h = absurd (omega arith)

a_at_8 : IsString texts 8 1
a_at_8 = record { ends = refl; no_zero = at }
  where
    at : (i : ℕ) → i < 1 → texts (8 + i) ≢ 0
    at zero h = omega arith
    at (suc i) h = absurd (omega arith)

overlapping : memmove texts 1 0 3 2 ≡ 98
unfolding memmove copy_up copy_down
overlapping = refl

compares : memcmp texts 0 4 3 ≡ negsuc 0
unfolding memcmp
compares = refl

past_bound : strncmp pos 9 texts 0 4 2 ≡ some (negsuc 0)
unfolding strncmp
past_bound = refl

strncpy_lem_example :
    (m' : Mem) × (strncpy 9 texts 20 0 2 ≡ some m')
    × ((x : ℕ)
        → m' x
          ≡ (if inside 20 2 x then texts (0 + (x - 20)) else if x == 20 + 2 then 0 else texts x))
strncpy_lem_example = strncpy_lem 9 20 2 abc (inr (omega arith)) (omega arith)

memmove_lem_example :
    memmove texts 1 0 3 2 ≡ (if inside 1 3 2 then texts (0 + (2 - 1)) else texts 2)
memmove_lem_example = memmove_lem texts 1 0 3 2

memcmp_lem_example :
    (memcmp texts 0 4 3 ≡ pos 0) × Same texts 0 4 3
    ⊎ ((j : ℕ) × Decides texts 0 4 3 (memcmp texts 0 4 3) j)
memcmp_lem_example = memcmp_lem texts 0 4 3

alike : (j : ℕ) → j < 2 → GoesOn texts 0 4 j
alike zero h = omega arith
alike (suc zero) h = omega arith
alike (suc (suc j)) h = absurd (omega arith)

unlike : ¬ GoesOn texts 0 4 2
unlike g = omega arith

strncmp_past_bound_example : strncmp pos 9 texts 0 4 2 ≡ some (pos 99 -ℤ pos 100)
strncmp_past_bound_example = strncmp_past_bound pos 9 texts 0 4 2 alike (omega arith)

strncmp-eq-strcmp_example : strncmp pos 9 texts 0 4 3 ≡ strcmp pos 9 texts 0 4
strncmp-eq-strcmp_example =
    strncmp-eq-strcmp pos 9 texts 0 4 3 2 alike unlike (omega arith) (omega arith)
