-- ===== src/Aarch64/Walk.antt =====
-- `walkPageTableLeaf` and `pageTableToRanges` of aarch64. The callbacks and what they change are
-- parameters; `read` reads the memory as they leave it, and `map_func` turns the address in an entry into
-- that of the table. `none` is a panic.
use dvnetos.Base.{
  ℕ, zero, suc, ◌+◌, ◌*◌, Bool, true, false, not, ◌||◌, Option, none, some, ◌>>=◌, [], ◌∷◌, ◌==◌,
  if◌then◌else◌, bit_and,
}
use dvnetos.Paging.{entry_at, complement, is_set, page_size}
use dvnetos.Paging.Walk.{RangeData, new_block, extends, extend_block, Ranging}
use dvnetos.Aarch64.{
  Paging, page_indexes_to_virtual, page_entries, page_valid, page_table, page_addr_mask,
  page_flags_mask,
}

module _ {S : Type 0} where
  -- A loop over the entries of a table, from `i` on, that ends with true when the body does.
  unfoldable pub each_entry : ℕ → (ℕ → S → Option (Bool × S)) → ℕ → Bool × S → Option (Bool × S)
  each_entry zero body i r = some r
  each_entry (suc k) body i (true, s) = some (true, s)
  each_entry (suc k) body i (false, s) = do r ← body i s; each_entry k body (i + 1) r

  module _ (p : Paging) (read : S → ℕ → ℕ) (map_func : ℕ → ℕ)
      (leaf_callback : (virtual physical flags size : ℕ) → S → Option (Bool × S))
      (missing_callback : ℕ → S → Option (Bool × S)) where
    -- `if (!callback(…)) return true;`
    abbrev pub finish : Option (Bool × S) → Option (Bool × S)
    finish o = do (go_on, s) ← o; some (not go_on, s)

    abbrev pub next_table : ℕ → ℕ
    next_table entry = map_func (bit_and entry page_addr_mask)

    unfoldable pub visit_l4 :
        (table : ℕ) → (higher_half : Bool) → (i j k l : ℕ) → S → Option (Bool × S)
    visit_l4 table higher_half i j k l s =
        let entry = read s (entry_at table l) in
        let at = page_indexes_to_virtual p (i ∷ j ∷ k ∷ l ∷ []) higher_half in
        let flags =
          bit_and (bit_and (bit_and entry page_flags_mask) (complement page_valid))
            (complement page_table) in
        finish (
          if is_set entry page_valid
          then leaf_callback at (bit_and entry page_addr_mask) flags page_size s
          else missing_callback at s)

    unfoldable pub visit_l3 :
        (table : ℕ) → (higher_half : Bool) → (i j k : ℕ) → S → Option (Bool × S)
    unfolding each_entry visit_l4
    visit_l3 table higher_half i j k s =
        let entry = read s (entry_at table k) in
        let at = page_indexes_to_virtual p (i ∷ j ∷ k ∷ []) higher_half in
        if not (is_set entry page_valid)
        then finish (missing_callback at s)
        else if not (is_set entry page_table)
        then finish (
            leaf_callback at (bit_and entry page_addr_mask) (bit_and entry page_flags_mask)
              (page_size * page_entries) s)
        else each_entry page_entries (visit_l4 (next_table entry) higher_half i j k) 0 (false, s)

    unfoldable pub visit_l2 : (table : ℕ) → (higher_half : Bool) → (i j : ℕ) → S → Option (Bool × S)
    unfolding each_entry visit_l3
    visit_l2 table higher_half i j s =
        let entry = read s (entry_at table j) in
        if not (is_set entry page_valid)
        then finish (missing_callback (page_indexes_to_virtual p (i ∷ j ∷ []) higher_half) s)
        else if not (is_set entry page_table)
        then none
        else each_entry page_entries (visit_l3 (next_table entry) higher_half i j) 0 (false, s)

    unfoldable pub visit_l1 : (table : ℕ) → (higher_half : Bool) → (i : ℕ) → S → Option (Bool × S)
    unfolding each_entry visit_l2
    visit_l1 table higher_half i s =
        let entry = read s (entry_at table i) in
        if not (is_set entry page_valid)
        then finish (missing_callback (page_indexes_to_virtual p (i ∷ []) higher_half) s)
        else if not (is_set entry page_table)
        then none
        else each_entry page_entries (visit_l2 (next_table entry) higher_half i) 0 (false, s)

    unfoldable pub walk_table : (table : ℕ) → (higher_half : Bool) → S → Option (Bool × S)
    unfolding each_entry visit_l1
    walk_table table higher_half s =
        each_entry page_entries (visit_l1 table higher_half) 0 (false, s)

    -- Both tables, the second only if the walk of the first is not ended by a callback.
    unfoldable pub walk_page_table_leaf : S → Option S
    unfolding walk_table
    walk_page_table_leaf s = do
      (ended, s1) ← if p.root1 == 0 then some (false, s) else walk_table p.root1 false s
      if ended || p.root2 == 0
          then some s1
          else (do (ended2, s2) ← walk_table p.root2 true s1; some s2)

module _ {T : Type 0} (callback : RangeData → T → Option T) where
  unfoldable pub leaf_callback :
      (virtual physical flags size : ℕ) → Ranging T → Option (Bool × Ranging T)
  leaf_callback virtual physical flags size s = elim s.current_block [
    | none ↦ some (true, record s { current_block = some (new_block virtual physical flags size) })
    | some b ↦
        if extends b physical flags size
        then some (true, record s { current_block = some (extend_block b virtual physical size) })
        else (do
          caller ← callback b s.caller
          some (
            true,
            record {
              current_block = some (new_block virtual physical flags size);
              caller = caller;
            },
          ))
  ]

  unfoldable pub missing_callback : ℕ → Ranging T → Option (Bool × Ranging T)
  missing_callback virtual s = elim s.current_block [
    | none ↦ some (true, s)
    | some b ↦ do
      caller ← callback b s.caller
      some (true, record { current_block = none; caller = caller })
  ]

  unfoldable pub page_table_to_ranges :
      Paging → (read : T → ℕ → ℕ) → (map_func : ℕ → ℕ) → T → Option T
  unfolding walk_page_table_leaf leaf_callback missing_callback
  page_table_to_ranges p read map_func caller = do
    s ←
        walk_page_table_leaf p (λ s. read s.caller) map_func leaf_callback missing_callback
          (record { current_block = none; caller = caller })
    some s.caller
