-- ===== src/Smbios/Scan.antt =====
-- smbiosStructLen finds the end of the strings behind a structure.
use mathlib.Core.Path.{subst}
use dvnetos.Base.{
  ℕ, zero, suc, ◌+◌, ◌-◌, ◌<◌, ◌≡◌, ◌≢◌, refl, ◌∙◌, ap, some, List, [], ◌∷◌, arith, length, ◌⊎◌,
  inl, inr,
}
use dvnetos.CString.{Mem}
use dvnetos.Smbios.Strings.{struct_end, smbios_struct_len}
use dvnetos.Smbios.Lookup.{IsText}

-- Texts that are not empty, one behind the other, and a zero behind them.
unfoldable pub IsStringSet : Mem → ℕ → List (List ℕ) → Type 0
unfolding IsText
IsStringSet m a [] = m a ≡ 0
IsStringSet m a ([] ∷ ss) = ⊥
IsStringSet m a ((c ∷ cs) ∷ ss) = IsText m a (c ∷ cs) × IsStringSet m (a + length cs + 2) ss

-- The bytes of the texts with their terminators.
abbrev pub set_size : List (List ℕ) → ℕ
set_size [] = 0
set_size (s ∷ ss) = length s + 1 + set_size ss

-- The bytes behind the formatted part of a structure: with no text, two zeros.
abbrev pub area_size : List (List ℕ) → ℕ
area_size [] = 2
area_size (s ∷ ss) = set_size (s ∷ ss) + 1

unfoldable pub IsArea : Mem → ℕ → List (List ℕ) → Type 0
unfolding IsStringSet
IsArea m a [] = (m a ≡ 0) × (m (a + 1) ≡ 0)
IsArea m a (s ∷ ss) = IsStringSet m a (s ∷ ss)

struct_end-stops :
    (fuel : ℕ) (m : Mem) (strtab i : ℕ)
    → m (strtab + (i - 1)) ≡ 0
    → m (strtab + i) ≡ 0
    → struct_end (suc fuel) m strtab i ≡ some i
unfolding struct_end
struct_end-stops fuel m strtab i before here = rw (before, here) refl

struct_end-goes :
    (fuel : ℕ) (m : Mem) (strtab i : ℕ)
    → (m (strtab + (i - 1)) ≢ 0) ⊎ (m (strtab + i) ≢ 0)
    → struct_end (suc fuel) m strtab i ≡ struct_end fuel m strtab (i + 1)
unfolding struct_end
struct_end-goes fuel m strtab i nonzero = ground arith

-- From inside a text, whose rest is `cs`, to the end of the set.
struct_end-text :
    (fuel : ℕ) (m : Mem) (strtab i : ℕ) (cs : List ℕ) (ss : List (List ℕ))
    → m (strtab + (i - 1)) ≢ 0
    → IsText m (strtab + i) cs
    → IsStringSet m (strtab + i + length cs + 1) ss
    → length cs + 1 + set_size ss < fuel
    → struct_end fuel m strtab i ≡ some (i + length cs + 1 + set_size ss)
unfolding IsText IsStringSet
struct_end-text zero m strtab i cs ss before here rest w = absurd (omega arith)
struct_end-text (suc zero) m strtab i cs ss before here rest w = absurd (omega arith)
struct_end-text (suc (suc fuel)) m strtab i [] [] before here rest w =
    struct_end-goes (suc fuel) m strtab i (inl before)
    ∙ struct_end-stops fuel m strtab (i + 1) (ground (arith, here)) (ground (arith, rest))
    ∙ ap some (omega arith)
struct_end-text (suc (suc fuel)) m strtab i [] ([] ∷ ss) before here rest w = absurd rest
struct_end-text (suc (suc fuel)) m strtab i [] ((c ∷ cs) ∷ ss) before here
      ((first, nonzero, text), rest) w =
    let now : m (strtab + (i + 1)) ≢ 0 = ground (arith, first, nonzero) in
    struct_end-goes (suc fuel) m strtab i (inl before)
    ∙ struct_end-goes fuel m strtab (i + 1) (inr now)
    ∙ struct_end-text fuel m strtab (i + 1 + 1) cs ss (ground (arith, now))
        (subst (λ a. IsText m a cs) (omega arith) text)
        (subst (λ a. IsStringSet m a ss) (omega arith) rest) (omega arith)
    ∙ ap some (omega arith)
struct_end-text (suc (suc fuel)) m strtab i (c ∷ cs) ss before (first, nonzero, text) rest w =
    struct_end-goes (suc fuel) m strtab i (inl before)
    ∙ struct_end-text (suc fuel) m strtab (i + 1) cs ss (ground (arith, first, nonzero))
        (subst (λ a. IsText m a cs) (omega arith) text)
        (subst (λ a. IsStringSet m a ss) (omega arith) rest) (omega arith)
    ∙ ap some (omega arith)

-- The scan finds the end of the texts behind the formatted part.
pub smbios_struct_len-IsArea :
    (fuel : ℕ) (m : Mem) (hd : ℕ) (ss : List (List ℕ))
    → IsArea m (hd + m (hd + 1)) ss
    → set_size ss + 1 < fuel
    → smbios_struct_len fuel m hd ≡ some (m (hd + 1) + area_size ss)
unfolding smbios_struct_len IsArea IsStringSet IsText
smbios_struct_len-IsArea zero m hd ss area w = absurd (omega arith)
smbios_struct_len-IsArea (suc fuel) m hd [] (zero0, zero1) w =
    rw (struct_end-stops fuel m (hd + m (hd + 1)) 1 (ground (arith, zero0)) zero1)
      (ap some (omega arith))
smbios_struct_len-IsArea (suc fuel) m hd ([] ∷ ss) area w = absurd area
smbios_struct_len-IsArea (suc fuel) m hd ((c ∷ cs) ∷ ss) ((first, nonzero, text), rest) w =
    rw
      (struct_end-text (suc fuel) m (hd + m (hd + 1)) 1 cs ss (ground (arith, first, nonzero)) text
        (subst (λ a. IsStringSet m a ss) (omega arith) rest) (omega arith))
      (ap some (omega arith))
