-- ===== src/MemMap/Totals.antt =====
-- The totals by type.
use dvnetos.Base.{
  ℕ, ◌+◌, ◌%◌, ◌^◌, ◌<◌, ◌≡◌, ◌∙◌, inl, inr, arith, List, [], ◌∷◌, leb, ◌==◌, if◌then◌else◌, add64,
  Bool-cases,
}
use dvnetos.Paging.Memmap.{MemmapEntry}
use dvnetos.MemMap.{per_type_memory}

-- The number of bytes of a type in the memory map.
abbrev pub bytes_of_type : ℕ → List MemmapEntry → ℕ
bytes_of_type t [] = 0
bytes_of_type t (e ∷ es) = (if t == e.type then e.length else 0) + bytes_of_type t es

-- The total of each type that has one is the sum of the lengths of its entries, modulo 2^64; the entries
-- of later types count nowhere.
pub per_type_memory-total :
    (last_type t : ℕ) (es : List MemmapEntry) (totals : ℕ → ℕ)
    → totals t < 2 ^ 64
    → per_type_memory last_type es totals t
      ≡ (if leb t last_type then (totals t + bytes_of_type t es) % 2 ^ 64 else totals t)
unfolding per_type_memory
per_type_memory-total last_type t [] totals h = ground arith
per_type_memory-total last_type t (e ∷ es) totals h = elim (Bool-cases (leb e.type last_type)) [
  | inl counted ↦ rw counted (
      per_type_memory-total last_type t es
        (λ t. if t == e.type then add64 (totals t) e.length else totals t) (ground arith)
      ∙ ground (arith, counted))
  | inr later ↦ rw later (per_type_memory-total last_type t es totals h ∙ ground (arith, later))
]
