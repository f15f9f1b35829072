-- ===== src/Aarch64/Invariant.antt =====
-- What the walk keeps: a predicate that the callbacks keep.
use dvnetos.Base.{
  ℕ, zero, suc, ◌+◌, ◌≡◌, refl, sym, Bool, true, false, not, ◌||◌, Option, none, some, ◌>>=◌, ◌==◌,
  if◌then◌else◌, Option-cases, inl, inr, bind-some, some-injective, none-some,
}
use dvnetos.Paging.Walk.{RangeData, Ranging, extends}
use dvnetos.Paging.{entry_at}
use dvnetos.Aarch64.{Paging, page_entries}
use dvnetos.Aarch64.Walk.{
  each_entry, visit_l4, visit_l3, visit_l2, visit_l1, walk_table, walk_page_table_leaf, finish,
  next_table, leaf_callback, missing_callback, page_table_to_ranges,
}

-- What a step returns, if it returns, has the property.
abbrev pub Returns : {A : Type 0} → (A → Type 0) → Option A → Type 0
Returns {A} P o = (a : A) → o ≡ some a → P a

module _ {A B : Type 0} (P : A → Type 0) (Q : B → Type 0) where
  pub bind-Returns :
      (o : Option A) (f : A → Option B)
      → Returns P o
      → ((a : A) → P a → Returns Q (f a))
      → Returns Q (o >>= f)
  bind-Returns none f h k b e = cc
  bind-Returns (some a) f h k b e = k a (h a refl) b e

module _ {A : Type 0} (P : A → Type 0) where
  pub some-Returns : (a : A) → P a → Returns P (some a)
  some-Returns a h b e = let same : a ≡ b = some-injective e in rw (sym same) h

  pub none-Returns : Returns P none
  none-Returns a e = none-some e

  pub if-Returns :
      (b : Bool) (o o' : Option A) → Returns P o → Returns P o' → Returns P (if b then o else o')
  if-Returns true o o' h h' = h
  if-Returns false o o' h h' = h'

module _ {S : Type 0} (I : S → Type 0) where
  abbrev pub Held : Bool × S → Type 0
  Held (b, s) = I s

  each_entry-Returns :
      (k : ℕ) (body : ℕ → S → Option (Bool × S)) (i : ℕ) (r : Bool × S)
      → ((i : ℕ) (s : S) → I s → Returns Held (body i s))
      → Held r
      → Returns Held (each_entry k body i r)
  unfolding each_entry
  each_entry-Returns zero body i r kept h = some-Returns Held r h
  each_entry-Returns (suc k) body i (true, s) kept h = some-Returns Held (true, s) h
  each_entry-Returns (suc k) body i (false, s) kept h =
      bind-Returns Held Held (body i s) (each_entry k body (i + 1)) (kept i s h)
        (λ r h'. each_entry-Returns k body (i + 1) r kept h')

  module _ (p : Paging) (read : S → ℕ → ℕ) (map_func : ℕ → ℕ)
      (leaf : (virtual physical flags size : ℕ) → S → Option (Bool × S))
      (missing : ℕ → S → Option (Bool × S))
      (leaf_kept : (v a f n : ℕ) (s : S) → I s → Returns Held (leaf v a f n s))
      (missing_kept : (v : ℕ) (s : S) → I s → Returns Held (missing v s)) where
    abbrev behind : S → ℕ → ℕ
    behind s slot = next_table p read map_func leaf missing (read s slot)

    finish-Returns :
        (o : Option (Bool × S))
        → Returns Held o
        → Returns Held (finish p read map_func leaf missing o)
    finish-Returns none h = none-Returns Held
    finish-Returns (some (b, s)) h = some-Returns Held (not b, s) (h (b, s) refl)

    visit_l4-Returns :
        (t : ℕ) (up : Bool) (i j k l : ℕ) (s : S)
        → I s
        → Returns Held (visit_l4 p read map_func leaf missing t up i j k l s)
    unfolding visit_l4
    visit_l4-Returns t up i j k l s h =
        finish-Returns _ (if-Returns Held _ _ _ (leaf_kept _ _ _ _ s h) (missing_kept _ s h))

    visit_l3-Returns :
        (t : ℕ) (up : Bool) (i j k : ℕ) (s : S)
        → I s
        → Returns Held (visit_l3 p read map_func leaf missing t up i j k s)
    unfolding visit_l3
    visit_l3-Returns t up i j k s h =
        if-Returns Held _ _ _ (finish-Returns _ (missing_kept _ s h)) (
          if-Returns Held _ _ _ (finish-Returns _ (leaf_kept _ _ _ _ s h)) (
            each_entry-Returns page_entries
              (visit_l4 p read map_func leaf missing (behind s (entry_at t k)) up i j k) 0
              (false, s) (visit_l4-Returns (behind s (entry_at t k)) up i j k) h))

    visit_l2-Returns :
        (t : ℕ) (up : Bool) (i j : ℕ) (s : S)
        → I s
        → Returns Held (visit_l2 p read map_func leaf missing t up i j s)
    unfolding visit_l2
    visit_l2-Returns t up i j s h = if-Returns Held _ _ _ (finish-Returns _ (missing_kept _ s h)) (
        if-Returns Held _ _ _ (none-Returns Held) (
          each_entry-Returns page_entries
            (visit_l3 p read map_func leaf missing (behind s (entry_at t j)) up i j) 0 (false, s)
            (visit_l3-Returns (behind s (entry_at t j)) up i j) h))

    visit_l1-Returns :
        (t : ℕ) (up : Bool) (i : ℕ) (s : S)
        → I s
        → Returns Held (visit_l1 p read map_func leaf missing t up i s)
    unfolding visit_l1
    visit_l1-Returns t up i s h = if-Returns Held _ _ _ (finish-Returns _ (missing_kept _ s h)) (
        if-Returns Held _ _ _ (none-Returns Held) (
          each_entry-Returns page_entries
            (visit_l2 p read map_func leaf missing (behind s (entry_at t i)) up i) 0 (false, s)
            (visit_l2-Returns (behind s (entry_at t i)) up i) h))

    walk_table-Returns :
        (t : ℕ) (up : Bool) (s : S)
        → I s
        → Returns Held (walk_table p read map_func leaf missing t up s)
    unfolding walk_table
    walk_table-Returns t up s h =
        each_entry-Returns page_entries (visit_l1 p read map_func leaf missing t up) 0 (false, s)
          (visit_l1-Returns t up) h

    pub walk_page_table_leaf-Returns :
        (s : S) → I s → Returns I (walk_page_table_leaf p read map_func leaf missing s)
    unfolding walk_page_table_leaf
    walk_page_table_leaf-Returns s h s' e =
        let (r, runs, last) =
          bind-some
            (if p.root1 == 0
              then some (false, s)
              else walk_table p read map_func leaf missing p.root1 false s)
            _ s' e in
        let held : Held r =
          if-Returns Held (p.root1 == 0) _ _ (some-Returns Held (false, s) h)
            (walk_table-Returns p.root1 false s h) r runs in
        if-Returns I (r.0 || p.root2 == 0) _ _ (some-Returns I r.1 held)
          (bind-Returns Held I _ (λ r'. some r'.1) (walk_table-Returns p.root2 true r.1 held)
            (λ r' h''. some-Returns I r'.1 h''))
          s' last

module _ {T : Type 0} (I : T → Type 0) (callback : RangeData → T → Option T)
    (callback_kept : (r : RangeData) (t : T) → I t → Returns I (callback r t)) where
  abbrev Caller : Ranging T → Type 0
  Caller s = I s.caller

  leaf_callback-Returns :
      (v a f n : ℕ) (s : Ranging T)
      → Caller s
      → Returns (Held Caller) (leaf_callback callback v a f n s)
  unfolding leaf_callback
  leaf_callback-Returns v a f n s h = elim (Option-cases s.current_block) [
    | inl closed ↦ rw closed (some-Returns (Held Caller) _ h)
    | inr (b, open_block) ↦ rw open_block (
        if-Returns (Held Caller) (extends b a f n) _ _ (some-Returns (Held Caller) _ h) (
          bind-Returns I (Held Caller) _ _ (callback_kept b s.caller h)
            (λ t' h'. some-Returns (Held Caller) _ h')))
  ]

  missing_callback-Returns :
      (v : ℕ) (s : Ranging T) → Caller s → Returns (Held Caller) (missing_callback callback v s)
  unfolding missing_callback
  missing_callback-Returns v s h = elim (Option-cases s.current_block) [
    | inl closed ↦ rw closed (some-Returns (Held Caller) _ h)
    | inr (b, open_block) ↦ rw open_block (
        bind-Returns I (Held Caller) _ _ (callback_kept b s.caller h)
          (λ t' h'. some-Returns (Held Caller) _ h'))
  ]

  pub page_table_to_ranges-Returns :
      (p : Paging) (read : T → ℕ → ℕ) (map_func : ℕ → ℕ) (t : T)
      → I t
      → Returns I (page_table_to_ranges callback p read map_func t)
  unfolding page_table_to_ranges
  page_table_to_ranges-Returns p read map_func t h =
      bind-Returns Caller I _ _
        (walk_page_table_leaf-Returns Caller p (λ s. read s.caller) map_func
          (leaf_callback callback) (missing_callback callback) leaf_callback-Returns
          missing_callback-Returns (record { current_block = none; caller = t }) h)
        (λ s h'. some-Returns I s.caller h')
