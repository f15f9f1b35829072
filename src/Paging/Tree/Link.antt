-- ===== src/Paging/Tree/Link.antt =====
-- A fresh page is linked into the tree.
use dvnetos.Base.{
  ℕ, ◌+◌, ◌*◌, ◌<◌, ◌≡◌, ◌≢◌, ◌⊎◌, inl, inr, refl, ◌∙◌, sym, ap, arith, Bool, true, false, Option,
  none, some, List, [], ◌∷◌, length, ltb, ◌==◌, Bool-cases, Option-cases, ltb→lt, some-injective,
  none-some, bind-some,
}
use dvnetos.Paging.{Words, entry_at, write_word, clear_page}
use dvnetos.Paging.Tree.{table_at, table_at-cons, follow, entry, entry_of, IsTree, same_slot}

module _ (roots : ℕ → Option ℕ) (next : (depth entry : ℕ) → Option ℕ)
    (zero_ends : (n : ℕ) → next n 0 ≡ none) (w : Words) (pool used : ℕ)
    (tree : IsTree roots next w pool used) (i₀ : ℕ) (is₀ : List ℕ) (t₀ e : ℕ)
    (at₀ : table_at roots next w is₀ ≡ some t₀) (bound₀ : i₀ < 512)
    (free₀ : next (length is₀) (w (entry_at t₀ i₀)) ≡ none)
    (link₀ : next (length is₀) e ≡ some (pool + 4096 * used)) where
  abbrev new : ℕ
  new = pool + 4096 * used

  abbrev linked : Words
  linked = write_word (clear_page w new) (entry_at t₀ i₀) e

  bounded : ltb i₀ 512 ≡ true
  bounded = ground arith

  -- A slot of a page in use, other than the one that is written, keeps its entry.
  slot_kept :
      (k i : ℕ)
      → k < used
      → i < 512
      → entry_at (pool + 4096 * k) i ≢ entry_at t₀ i₀
      → linked (entry_at (pool + 4096 * k) i) ≡ w (entry_at (pool + 4096 * k) i)
  unfolding write_word clear_page
  slot_kept k i h b other = ground arith

  -- The slots of the new page are 0.
  slot_clear : (i : ℕ) → i < 512 → linked (entry_at new i) ≡ 0
  unfolding write_word clear_page
  slot_clear i b = let (k, less, place) = tree.inside is₀ t₀ at₀ in ground arith

  slot_linked : linked (entry_at t₀ i₀) ≡ e
  unfolding write_word
  slot_linked = ground arith

  -- A slot of a table of the old tree is another one than the slot that is written, or is that slot.
  slot-cases :
      (ks : List ℕ) (v i : ℕ)
      → table_at roots next w ks ≡ some v
      → i < 512
      → (linked (entry_at v i) ≡ w (entry_at v i)) ⊎ ((ks ≡ is₀) × (v ≡ t₀) × (i ≡ i₀))
  slot-cases ks v i at bound =
      let (k, less, place) = tree.inside ks v at in
      let (k', less', place') = tree.inside is₀ t₀ at₀ in
      elim (Bool-cases (entry_at v i == entry_at t₀ i₀)) [
        | inl same ↦
            let slots : entry_at (pool + 4096 * k) i ≡ entry_at (pool + 4096 * k') i₀ =
              ground (arith, same) in
            let (same_k, same_i) = same_slot pool k k' i i₀ bound bound₀ slots in
            let same_v : v ≡ t₀ = omega arith in
            inr (tree.unique ks is₀ t₀ (at ∙ ap some same_v) at₀, same_v, same_i)
        | inr other ↦
            let slots : entry_at (pool + 4096 * k) i ≢ entry_at t₀ i₀ = ground (arith, other) in
            inl (rw place (slot_kept k i less bound slots))
      ]

  follow-none : (n i : ℕ) → follow roots next linked n new i ≡ none
  follow-none n i = elim (Bool-cases (ltb i 512)) [
    | inl bound ↦ rw (bound, slot_clear i (ltb→lt i 512 bound)) (zero_ends n)
    | inr beyond ↦ rw beyond refl
  ]

  follow-old :
      (ks : List ℕ) (v i u : ℕ)
      → table_at roots next w ks ≡ some v
      → follow roots next w (length ks) v i ≡ some u
      → follow roots next linked (length ks) v i ≡ some u
  follow-old ks v i u at h = elim (Bool-cases (ltb i 512)) [
    | inl bound ↦ elim (slot-cases ks v i at (ltb→lt i 512 bound)) [
      | inl kept ↦ rw (bound, kept) (rw bound at h)
      | inr (same_ks, same_v, same_i) ↦
          let link : next (length is₀) (w (entry_at t₀ i₀)) ≡ some u =
            rw (bound, same_ks, same_v, same_i) at h in
          none-some (sym free₀ ∙ link)
    ]
    | inr beyond ↦ none-some (rw beyond at h)
  ]

  follow-new :
      (ks : List ℕ) (v i u : ℕ)
      → table_at roots next w ks ≡ some v
      → follow roots next linked (length ks) v i ≡ some u
      → (follow roots next w (length ks) v i ≡ some u) ⊎ ((i ∷ ks ≡ i₀ ∷ is₀) × (u ≡ new))
  follow-new ks v i u at h = elim (Bool-cases (ltb i 512)) [
    | inl bound ↦ elim (slot-cases ks v i at (ltb→lt i 512 bound)) [
      | inl kept ↦ inl (rw bound (rw (bound, kept) at h))
      | inr (same_ks, same_v, same_i) ↦
          let h' = rw (bound, same_ks, same_v, same_i, slot_linked) at h in
          let same_u : u ≡ new = some-injective (sym h' ∙ link₀) in
          inr (rw (same_i, same_ks) refl, same_u)
    ]
    | inr beyond ↦ none-some (rw beyond at h)
  ]

  -- Every table of the old tree stays in its place.
  pub table_at-old :
      (is : List ℕ) (u : ℕ)
      → table_at roots next w is ≡ some u
      → table_at roots next linked is ≡ some u
  unfolding table_at
  table_at-old [] u h = h
  table_at-old (r ∷ []) u h = h
  table_at-old (i ∷ j ∷ is) u h =
      let (v, at, f) = bind-some (table_at roots next w (j ∷ is)) _ u h in
      rw (table_at-old (j ∷ is) v at) (follow-old (j ∷ is) v i u at f)

  -- The new tree has one table more.
  pub table_at-new :
      (is : List ℕ) (u : ℕ)
      → table_at roots next linked is ≡ some u
      → (table_at roots next w is ≡ some u) ⊎ ((is ≡ i₀ ∷ is₀) × (u ≡ new))
  unfolding table_at
  table_at-new [] u h = inl h
  table_at-new (r ∷ []) u h = inl h
  table_at-new (i ∷ j ∷ is) u h =
      let (v, at, f) = bind-some (table_at roots next linked (j ∷ is)) _ u h in
      elim (table_at-new (j ∷ is) v at) [
        | inl old ↦ elim (follow-new (j ∷ is) v i u old f) [
          | inl old' ↦ inl (rw old old')
          | inr fresh ↦ inr fresh
        ]
        | inr (path, same_v) ↦ none-some (sym (follow-none (length (j ∷ is)) i) ∙ (rw same_v at f))
      ]

  pub table_at-linked : table_at roots next linked (i₀ ∷ is₀) ≡ some new
  table_at-linked =
      table_at-cons roots next linked i₀ is₀ t₀ (table_at-old is₀ t₀ at₀)
      ∙ rw (bounded, slot_linked) link₀

  table_at-unlinked : table_at roots next w (i₀ ∷ is₀) ≡ none
  table_at-unlinked = table_at-cons roots next w i₀ is₀ t₀ at₀ ∙ rw bounded free₀

  -- The tree stays a tree.
  pub linked-IsTree : IsTree roots next linked pool (used + 1)
  linked-IsTree = record {
    inside = λ is t at. elim (table_at-new is t at) [
      | inl old ↦ let (k, less, place) = tree.inside is t old in (k, omega arith, place)
      | inr (path, same) ↦ (used, omega arith, same)
    ];
    unique = λ is js t at at'. elim (table_at-new is t at) [
      | inl old ↦ elim (table_at-new js t at') [
        | inl old' ↦ tree.unique is js t old old'
        | inr (path, same) ↦ absurd (fresh-table is t old same)
      ]
      | inr (path, same) ↦ elim (table_at-new js t at') [
        | inl old' ↦ absurd (fresh-table js t old' same)
        | inr (path', same') ↦ path ∙ sym path'
      ]
    ];
  }
    where
      fresh-table : (is : List ℕ) (t : ℕ) → table_at roots next w is ≡ some t → t ≢ new
      fresh-table is t old same = let (k, less, place) = tree.inside is t old in omega arith

  -- Every other entry stays: those of the new table are 0.
  pub entry-linked :
      (i : ℕ) (is : List ℕ)
      → (entry roots next linked (i ∷ is) ≡ entry roots next w (i ∷ is)) ⊎ (i ∷ is ≡ i₀ ∷ is₀)
  unfolding entry
  entry-linked i is = elim (Option-cases (table_at roots next linked is)) [
    | inl gone ↦ elim (Option-cases (table_at roots next w is)) [
      | inl gone' ↦ inl (rw (gone, gone') refl)
      | inr (t, at) ↦ none-some (sym gone ∙ table_at-old is t at)
    ]
    | inr (t, at) ↦ elim (table_at-new is t at) [
      | inl old ↦ rw (at, old) (entry_of-old t old)
      | inr (path, same) ↦
          inl (rw (path, table_at-linked, table_at-unlinked) (entry_of-new (ltb i 512) refl))
    ]
  ]
    where
      entry_of-old :
          (t : ℕ)
          → table_at roots next w is ≡ some t
          → (entry_of roots next linked i (some t) ≡ entry_of roots next w i (some t))
            ⊎ (i ∷ is ≡ i₀ ∷ is₀)
      entry_of-old t old = elim (Bool-cases (ltb i 512)) [
        | inl bound ↦ elim (slot-cases is t i old (ltb→lt i 512 bound)) [
          | inl kept ↦ inl (rw bound kept)
          | inr (same_is, _, same_i) ↦ inr (rw (same_i, same_is) refl)
        ]
        | inr beyond ↦ inl (rw beyond refl)
      ]

      entry_of-new : (b : Bool) → ltb i 512 ≡ b → entry_of roots next linked i (some new) ≡ 0
      entry_of-new true bound = rw bound (slot_clear i (ltb→lt i 512 bound))
      entry_of-new false beyond = rw beyond refl

  pub entry-linked_self : entry roots next linked (i₀ ∷ is₀) ≡ e
  unfolding entry
  entry-linked_self = rw (table_at-old is₀ t₀ at₀, bounded) slot_linked
