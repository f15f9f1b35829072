-- ===== src/CString/Compare.antt =====
-- `memcmp`, `strcmp` and `strncmp`.
use dvnetos.Base.{
  ℕ, zero, suc, ◌+◌, ◌-◌, ◌≤◌, ◌<◌, ◌≡◌, ◌≢◌, refl, sym, ◌∙◌, ◌⊎◌, some, arith, ◌==◌, ℤ, pos,
  negsuc, ◌-ℤ◌, Bool-cases, inl, inr,
}
use dvnetos.CString.{Mem, memcmp_loop, memcmp, strcmp_loop, strcmp, strncmp_loop, strncmp}

-- The first `n` bytes at the two addresses are the same.
abbrev pub Same : Mem → (s1 s2 n : ℕ) → Type 0
Same m s1 s2 n = (i : ℕ) → i < n → m (s1 + i) ≡ m (s2 + i)

-- The bytes at `i` decide the comparison, with the result `r`.
pub record Decides (m : Mem) (s1 s2 n : ℕ) (r : ℤ) (i : ℕ) : Type 0 where
  pub within : i < n
  pub same : Same m s1 s2 i
  pub sign : (m (s1 + i) < m (s2 + i)) × (r ≡ negsuc 0) ⊎ (m (s2 + i) < m (s1 + i)) × (r ≡ pos 1)

Same-suc : (m : Mem) (s1 s2 i : ℕ) → Same m s1 s2 i → m (s1 + i) ≡ m (s2 + i) → Same m s1 s2 (i + 1)
Same-suc m s1 s2 i same e j h = ground (arith, same j)

memcmp_loop_lem :
    (k : ℕ) (m : Mem) (s1 s2 i : ℕ)
    → Same m s1 s2 i
    → (memcmp_loop k m s1 s2 i ≡ pos 0) × Same m s1 s2 (i + k)
      ⊎ ((j : ℕ) × Decides m s1 s2 (i + k) (memcmp_loop k m s1 s2 i) j)
unfolding memcmp_loop
memcmp_loop_lem zero m s1 s2 i same = inl (refl, λ j h. same j (omega arith))
memcmp_loop_lem (suc k) m s1 s2 i same = elim (Bool-cases (m (s1 + i) == m (s2 + i))) [
  | inl e ↦
      rw e (elim (memcmp_loop_lem k m s1 s2 (i + 1) (Same-suc m s1 s2 i same (ground arith))) [
        | inl (z, all) ↦ inl (z, λ j h. all j (omega arith))
        | inr (j, d) ↦
            inr (j, record { within = omega (arith, d.within); same = d.same; sign = d.sign })
      ])
  | inr e ↦ inr (i, record { within = omega arith; same = same; sign = ground arith })
]

-- `memcmp` is 0 where the `n` bytes are the same; otherwise it is -1 or 1, by the order of the first
-- two bytes that differ.
pub memcmp_lem :
    (m : Mem) (s1 s2 n : ℕ)
    → (memcmp m s1 s2 n ≡ pos 0) × Same m s1 s2 n
      ⊎ ((j : ℕ) × Decides m s1 s2 n (memcmp m s1 s2 n) j)
unfolding memcmp
memcmp_lem m s1 s2 n = elim (memcmp_loop_lem n m s1 s2 0 (λ i h. absurd (omega arith))) [
  | inl (z, all) ↦ inl (z, λ j h. all j (omega arith))
  | inr (j, d) ↦ inr (j, record { within = omega (arith, d.within); same = d.same; sign = d.sign })
]

-- Two texts go on alike at `i`: the same character, which is not the terminator.
abbrev pub GoesOn : Mem → (s1 s2 i : ℕ) → Type 0
GoesOn m s1 s2 i = (m (s1 + i) ≢ 0) × (m (s1 + i) ≡ m (s2 + i))

module _ (char_value : ℕ → ℤ) where
  strcmp_loop_lem :
      (fuel : ℕ) (m : Mem) (s1 s2 k i : ℕ)
      → ((j : ℕ) → j < k → GoesOn m s1 s2 j)
      → ¬ GoesOn m s1 s2 k
      → i ≤ k
      → k - i < fuel
      → strcmp_loop char_value fuel m s1 s2 i
        ≡ some (char_value (m (s1 + k)) -ℤ char_value (m (s2 + k)))
  unfolding strcmp_loop
  strcmp_loop_lem zero m s1 s2 k i on stop le h = absurd (omega arith)
  strcmp_loop_lem (suc fuel) m s1 s2 k i on stop le h = elim (Bool-cases (i == k)) [
    | inl e ↦ let at : i ≡ k = ground arith in rw at (ground (arith, stop))
    | inr e ↦
        let (ne, same) = on i (ground arith) in
        let rest = strcmp_loop_lem fuel m s1 s2 k (i + 1) on stop (ground arith) (ground arith) in
        ground (arith, ne, same, rest)
  ]

  -- `strcmp` is the difference of the characters at the first place where the texts do not go on
  -- alike, with fuel above that place.
  pub strcmp_lem :
      (fuel : ℕ) (m : Mem) (s1 s2 k : ℕ)
      → ((j : ℕ) → j < k → GoesOn m s1 s2 j)
      → ¬ GoesOn m s1 s2 k
      → k < fuel
      → strcmp char_value fuel m s1 s2 ≡ some (char_value (m (s1 + k)) -ℤ char_value (m (s2 + k)))
  unfolding strcmp
  strcmp_lem fuel m s1 s2 k on stop h =
      strcmp_loop_lem fuel m s1 s2 k 0 on stop (omega arith) (omega arith)

  -- The same for `strncmp`: the place is the first at or below `n` where the texts do not go on
  -- alike, or `n` itself.
  strncmp_loop_lem :
      (fuel : ℕ) (m : Mem) (s1 s2 n k i : ℕ)
      → ((j : ℕ) → j < k → GoesOn m s1 s2 j)
      → (k ≡ n) ⊎ (¬ GoesOn m s1 s2 k)
      → k ≤ n
      → i ≤ k
      → k - i < fuel
      → strncmp_loop char_value fuel m s1 s2 n i
        ≡ some (char_value (m (s1 + k)) -ℤ char_value (m (s2 + k)))
  unfolding strncmp_loop
  strncmp_loop_lem zero m s1 s2 n k i on stop bound le h = absurd (omega arith)
  strncmp_loop_lem (suc fuel) m s1 s2 n k i on stop bound le h = elim (Bool-cases (i == k)) [
    | inl e ↦ let at : i ≡ k = ground arith in rw at (ground (arith, stop))
    | inr e ↦
        let (ne, same) = on i (ground arith) in
        let rest =
          strncmp_loop_lem fuel m s1 s2 n k (i + 1) on stop bound (ground arith) (ground arith) in
        ground (arith, ne, same, rest)
  ]

  -- `strncmp` of two texts that go on alike for `n` characters is the difference of the characters
  -- behind those `n`, which the bound should keep out of the comparison.
  pub strncmp_past_bound :
      (fuel : ℕ) (m : Mem) (s1 s2 n : ℕ)
      → ((j : ℕ) → j < n → GoesOn m s1 s2 j)
      → n < fuel
      → strncmp char_value fuel m s1 s2 n
        ≡ some (char_value (m (s1 + n)) -ℤ char_value (m (s2 + n)))
  unfolding strncmp
  strncmp_past_bound fuel m s1 s2 n on h =
      strncmp_loop_lem fuel m s1 s2 n n 0 on (inl refl) (omega arith) (omega arith) (omega arith)

  -- Where the texts stop going on alike before the bound, `strncmp` is `strcmp`.
  pub strncmp-eq-strcmp :
      (fuel : ℕ) (m : Mem) (s1 s2 n k : ℕ)
      → ((j : ℕ) → j < k → GoesOn m s1 s2 j)
      → ¬ GoesOn m s1 s2 k
      → k ≤ n
      → k < fuel
      → strncmp char_value fuel m s1 s2 n ≡ strcmp char_value fuel m s1 s2
  unfolding strncmp
  strncmp-eq-strcmp fuel m s1 s2 n k on stop le h =
      strncmp_loop_lem fuel m s1 s2 n k 0 on (inr stop) le (omega arith) (omega arith)
      ∙ sym (strcmp_lem fuel m s1 s2 k on stop h)
