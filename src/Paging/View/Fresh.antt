-- ===== src/Paging/View/Fresh.antt =====
-- The tables before anything is mapped.
use dvnetos.Base.{
  ℕ, ◌+◌, ◌-◌, ◌*◌, ◌%◌, ◌^◌, ◌≤◌, ◌<◌, ◌≡◌, refl, ◌∙◌, sym, ap, inl, inr, arith, Bool, true, false,
  ◌&&◌, Option, none, some, List, [], ◌∷◌, length, ltb, ◌==◌, if◌then◌else◌, zero-bit_and,
  Bool-cases, Option-cases, ltb→lt, some-injective, none-some, bind-some,
}
use dvnetos.Paging.{Paging, entry_at, page_size_flag, is_set, initial_pool_size}
use dvnetos.Paging.Tree.{table_at, entry}
use dvnetos.Paging.View.{tables, entries, IsGood}

-- The root is the first page of the pool, and is cleared.
pub record IsFresh (p : Paging) : Type 0 where
  pub first : p.root ≡ p.pool
  pub one : p.used_count ≡ 1
  pub cleared : (i : ℕ) → i < 512 → p.words (entry_at p.root i) ≡ 0
  pub above : p.page_table_offset ≤ p.pool
  pub aligned : (p.pool - p.page_table_offset) % 4096 ≡ 0
  pub physical : p.pool - p.page_table_offset + 4096 * initial_pool_size ≤ 2 ^ 52
  pub virtual : p.pool + 4096 * initial_pool_size ≤ 2 ^ 64

module _ (p : Paging) (fresh : IsFresh p) where
  -- There is no table but the root.
  only_root : (is : List ℕ) (t : ℕ) → tables p is ≡ some t → (is ≡ 0 ∷ []) × (t ≡ p.root)
  unfolding table_at
  only_root [] t h = cc
  only_root (r ∷ []) t h = elim (Bool-cases (r == 0)) [
    | inl root ↦
        let same : r ≡ 0 = ground (arith, root) in
        let here : p.root ≡ t = some-injective (rw root at h) in (ap (λ r. r ∷ []) same, sym here)
    | inr other ↦ none-some (rw other at h)
  ]
  only_root (i ∷ j ∷ is) t h =
      let (v, at, f) = bind-some (tables p (j ∷ is)) _ t h in
      let (path, same) = only_root (j ∷ is) v at in
      elim (Bool-cases (ltb i 512)) [
        | inl bound ↦
            let clear : p.words (entry_at v i) ≡ 0 =
              rw same (fresh.cleared i (ltb→lt i 512 bound)) in
            let f' = rw (bound, clear, zero-bit_and 1) at f in
            none-some (sym (no-link (ltb (length (j ∷ is)) 4) _) ∙ f')
        | inr beyond ↦ none-some (rw beyond at f)
      ]
    where
      no-link : (b : Bool) (o : Option ℕ) → (if b && false then o else none) ≡ none
      no-link true o = refl
      no-link false o = refl

  pub fresh-IsGood : IsGood p
  unfolding entry
  fresh-IsGood = record {
    tree = record {
      inside = λ is t at.
          (0, omega (arith, fresh.one), (only_root is t at).1 ∙ omega (arith, fresh.first));
      unique = λ is js t at at'. (only_root is t at).0 ∙ sym (only_root js t at').0;
    };
    small = λ i is three. elim (Option-cases (tables p is)) [
      | inl gone ↦
          let no_entry : entries p (i ∷ is) ≡ 0 = rw gone refl in
          ap (λ e. is_set e page_size_flag) no_entry
      | inr (t, at) ↦ absurd (omega (arith, three, ap length (only_root is t at).0))
    ];
    above = fresh.above;
    aligned = fresh.aligned;
    physical = fresh.physical;
    virtual = fresh.virtual;
    count = omega (arith, fresh.one);
  }
