-- ===== src/Smbios/Types/Named.antt =====
-- The values that have a name.
use dvnetos.Base.{
  ℕ, zero, suc, ◌≡◌, ◌≢◌, ◌↔◌, refl, ◌∙◌, sym, ap, arith, true, none, some, List, [], ◌∷◌, ◌==◌,
  get_elem?, All, codes, Bool-cases, inl, inr, some-injective, none-some,
}
use dvnetos.Smbios.Names.{Cases, find_name}
use dvnetos.Smbios.Types.{
  Enumeration, enumerations, table_type, firmware_characteristics, chassis_state,
  chassis_security_status, processor_type, processor_family, processor_status,
  physical_memory_array_location, physical_memory_array_use, memory_error_correction,
}

abbrev values : {A : Type 0} → (A → ℕ) → List A → List ℕ
values f [] = []
values f (x ∷ xs) = f x ∷ values f xs

abbrev firsts : Cases → List ℕ
firsts [] = []
firsts ((v, name) ∷ cs) = v ∷ firsts cs

find_name-place :
    (cs : Cases) (v : ℕ) → find_name cs v ≢ none → (i : ℕ) × (get_elem? (firsts cs) i ≡ some v)
unfolding find_name
find_name-place [] v found = absurd (found refl)
find_name-place ((w, name) ∷ cs) v found = elim (Bool-cases (w == v)) [
  | inl here ↦ let same : w ≡ v = ground (arith, here) in (0, ap some same)
  | inr other ↦
      let (i, there) = find_name-place cs v (λ missing. found (rw other missing)) in (suc i, there)
]

place-find_name : (cs : Cases) (v i : ℕ) → get_elem? (firsts cs) i ≡ some v → find_name cs v ≢ none
unfolding find_name
place-find_name [] v i there missing = none-some there
place-find_name ((w, name) ∷ cs) v zero there missing =
    let here : (w == v) ≡ true = ground (arith, some-injective there) in
    let is : find_name ((w, name) ∷ cs) v ≡ some (codes name) = rw here refl in
    none-some (sym missing ∙ is)
place-find_name ((w, name) ∷ cs) v (suc i) there missing = elim (Bool-cases (w == v)) [
  | inl here ↦
      let is : find_name ((w, name) ∷ cs) v ≡ some (codes name) = rw here refl in
      none-some (sym missing ∙ is)
  | inr other ↦ place-find_name cs v i there (sym (rw other refl) ∙ missing)
]

values-place :
    {A : Type 0} (f : A → ℕ) (xs : List A) (i v : ℕ)
    → get_elem? (values f xs) i ≡ some v
    → (x : A) × (f x ≡ v)
values-place f [] i v there = none-some there
values-place f (x ∷ xs) zero v there = (x, some-injective there)
values-place f (x ∷ xs) (suc i) v there = values-place f xs i v there

place-values :
    {A : Type 0} (f : A → ℕ) (xs : List A) (i : ℕ) (x : A)
    → get_elem? xs i ≡ some x
    → get_elem? (values f xs) i ≡ some (f x)
place-values f [] i x there = none-some there
place-values f (y ∷ xs) zero x there = ap (λ z. some (f z)) (some-injective there)
place-values f (y ∷ xs) (suc i) x there = place-values f xs i x there

-- toString has a name for a value exactly when it is that of an enumerator.
abbrev pub IsNamed : Enumeration → Type 0
IsNamed e = (v : ℕ) → (find_name e.names v ≢ none) ↔ ((t : e.T) × (e.value t ≡ v))

Enumeration-IsNamed : (e : Enumeration) → firsts e.names ≡ values e.value e.all → IsNamed e
Enumeration-IsNamed e same v = (
  λ found.
      let (i, there) = find_name-place e.names v found in
      values-place e.value e.all i v (rw (sym same) there),
  λ known.
      let (t, is) = known in
      let (i, there) = e.place t in
      place-find_name e.names v i (rw (same, sym is) (place-values e.value e.all i t there)),
)

-- For each of the ten enumerations, toString has a name for the values of the enumerators, all of them,
-- and for no other value.
pub enumerations-IsNamed : All IsNamed enumerations
unfolding dvnetos.Smbios.Types.TableType.value dvnetos.Smbios.Types.FirmwareCharacteristics.value
    dvnetos.Smbios.Types.ChassisState.value dvnetos.Smbios.Types.ChassisSecurityStatus.value
    dvnetos.Smbios.Types.ProcessorType.value dvnetos.Smbios.Types.ProcessorFamily.value
    dvnetos.Smbios.Types.ProcessorStatus.value
    dvnetos.Smbios.Types.PhysicalMemoryArrayLocation.value
    dvnetos.Smbios.Types.PhysicalMemoryArrayUse.value
    dvnetos.Smbios.Types.MemoryErrorCorrection.value
enumerations-IsNamed = (
  Enumeration-IsNamed table_type refl,
  (
    Enumeration-IsNamed firmware_characteristics refl,
    (
      Enumeration-IsNamed chassis_state refl,
      (
        Enumeration-IsNamed chassis_security_status refl,
        (
          Enumeration-IsNamed processor_type refl,
          (
            Enumeration-IsNamed processor_family refl,
            (
              Enumeration-IsNamed processor_status refl,
              (
                Enumeration-IsNamed physical_memory_array_location refl,
                (
                  Enumeration-IsNamed physical_memory_array_use refl,
                  (Enumeration-IsNamed memory_error_correction refl, tt),
                ),
              ),
            ),
          ),
        ),
      ),
    ),
  ),
)
