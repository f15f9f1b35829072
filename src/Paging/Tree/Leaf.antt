-- ===== src/Paging/Tree/Leaf.antt =====
-- An entry that is no link is written.
use dvnetos.Base.{
  ℕ, ◌+◌, ◌*◌, ◌<◌, ◌≡◌, ◌≢◌, ◌⊎◌, inl, inr, refl, ◌∙◌, sym, ap, arith, true, Option, none, some,
  List, [], ◌∷◌, length, ltb, ◌==◌, Bool-cases, Option-cases, ltb→lt,
}
use dvnetos.Paging.{Words, entry_at, write_word}
use dvnetos.Paging.Tree.{table_at, follow, entry, IsTree, same_slot}

module _ (roots : ℕ → Option ℕ) (next : (depth entry : ℕ) → Option ℕ) (w : Words) (pool used : ℕ)
    (tree : IsTree roots next w pool used) (i₀ : ℕ) (is₀ : List ℕ) (t₀ e : ℕ)
    (at₀ : table_at roots next w is₀ ≡ some t₀) (bound₀ : i₀ < 512)
    (old_end : next (length is₀) (w (entry_at t₀ i₀)) ≡ none)
    (new_end : next (length is₀) e ≡ none) where
  abbrev written : Words
  written = write_word w (entry_at t₀ i₀) e

  slot_written : written (entry_at t₀ i₀) ≡ e
  unfolding write_word
  slot_written = ground arith

  slot-cases :
      (ks : List ℕ) (v i : ℕ)
      → table_at roots next w ks ≡ some v
      → i < 512
      → (written (entry_at v i) ≡ w (entry_at v i)) ⊎ ((ks ≡ is₀) × (v ≡ t₀) × (i ≡ i₀))
  unfolding write_word
  slot-cases ks v i at bound =
      let (k, less, place) = tree.inside ks v at in
      let (k', less', place') = tree.inside is₀ t₀ at₀ in
      elim (Bool-cases (entry_at v i == entry_at t₀ i₀)) [
        | inl same ↦
            let slots : entry_at (pool + 4096 * k) i ≡ entry_at (pool + 4096 * k') i₀ =
              ground (arith, same) in
            let (same_k, same_i) = same_slot pool k k' i i₀ bound bound₀ slots in
            let same_v : v ≡ t₀ = omega arith in
            inr (tree.unique ks is₀ t₀ (at ∙ ap some same_v) at₀, same_v, same_i)
        | inr other ↦ inl (rw other refl)
      ]

  follow-written :
      (ks : List ℕ) (v i : ℕ)
      → table_at roots next w ks ≡ some v
      → follow roots next written (length ks) v i ≡ follow roots next w (length ks) v i
  follow-written ks v i at = elim (Bool-cases (ltb i 512)) [
    | inl bound ↦ elim (slot-cases ks v i at (ltb→lt i 512 bound)) [
      | inl kept ↦ rw (bound, kept) refl
      | inr (same_ks, same_v, same_i) ↦
          rw (bound, same_ks, same_v, same_i, slot_written, old_end, new_end) refl
    ]
    | inr beyond ↦ rw beyond refl
  ]

  -- No table moves.
  pub table_at-written : (is : List ℕ) → table_at roots next written is ≡ table_at roots next w is
  unfolding table_at
  table_at-written [] = refl
  table_at-written (r ∷ []) = refl
  table_at-written (i ∷ j ∷ is) = elim (Option-cases (table_at roots next w (j ∷ is))) [
    | inl gone ↦ rw (table_at-written (j ∷ is), gone) refl
    | inr (t, at) ↦ rw (table_at-written (j ∷ is), at) (follow-written (j ∷ is) t i at)
  ]

  pub written-IsTree : IsTree roots next written pool used
  written-IsTree = record {
    inside = λ is t at. tree.inside is t (sym (table_at-written is) ∙ at);
    unique = λ is js t at at'.
        tree.unique is js t (sym (table_at-written is) ∙ at) (sym (table_at-written js) ∙ at');
  }

  pub entry-written_self : entry roots next written (i₀ ∷ is₀) ≡ e
  unfolding entry
  entry-written_self =
      let bounded : ltb i₀ 512 ≡ true = ground arith in
      rw (table_at-written is₀, at₀, bounded) slot_written

  pub entry-written_other :
      (js : List ℕ) → js ≢ i₀ ∷ is₀ → entry roots next written js ≡ entry roots next w js
  unfolding entry
  entry-written_other [] other = refl
  entry-written_other (i ∷ is) other =
      rw (table_at-written is) (elim (Option-cases (table_at roots next w is)) [
        | inl gone ↦ rw gone refl
        | inr (t, at) ↦ rw at (elim (Bool-cases (ltb i 512)) [
          | inl bound ↦ elim (slot-cases is t i at (ltb→lt i 512 bound)) [
            | inl kept ↦ rw bound kept
            | inr (same_ks, same_v, same_i) ↦ absurd (other (rw (same_i, same_ks) refl))
          ]
          | inr beyond ↦ rw beyond refl
        ])
      ])
