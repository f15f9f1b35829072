-- ===== src/Paging/Walk.antt =====
-- `walkPageTableLeaf` and `pageTableToRanges` of paging.h. `read` reads the memory as the callbacks
-- leave it, and `map_func` turns the address in an entry into that of the table; the callbacks, and what they
-- change, are parameters. `none` is a panic.
use dvnetos.Base.{
  ℕ, zero, suc, ◌+◌, ◌*◌, Bool, true, false, not, ◌&&◌, Option, none, some, ◌>>=◌, [], ◌∷◌, ◌==◌,
  if◌then◌else◌, add64, sub64, bit_and,
}
use dvnetos.Paging.{
  entry_at, page_entries, page_size, page_present, page_size_flag, page_flags_mask, page_addr_mask3,
  page_accessed, page_dirty, complement, is_set, page_indexes_to_virtual,
}

module _ {S : Type 0} where
  -- A loop over the entries of a table, from `i` on, that ends when `done` is set.
  unfoldable pub each_entry : ℕ → (ℕ → S → Option (Bool × S)) → ℕ → Bool × S → Option (Bool × S)
  each_entry zero body i r = some r
  each_entry (suc k) body i (true, s) = some (true, s)
  each_entry (suc k) body i (false, s) = do r ← body i s; each_entry k body (i + 1) r

  module _ (read : S → ℕ → ℕ) (map_func : ℕ → ℕ)
      (leaf_callback : (virtual physical flags size : ℕ) → S → Bool × S)
      (missing_callback : ℕ → S → Bool × S) where
    -- `if (!callback(…)) done = true;`
    abbrev pub finish : Bool × S → Option (Bool × S)
    finish (go_on, s) = some (not go_on, s)

    abbrev pub next_table : ℕ → ℕ
    next_table entry = map_func (bit_and entry (complement page_flags_mask))

    abbrev pub leaf_flags : ℕ → ℕ
    leaf_flags entry = bit_and (bit_and entry page_flags_mask) (complement page_size_flag)

    unfoldable pub visit_l4 : (table i j k l : ℕ) → S → Option (Bool × S)
    visit_l4 table i j k l s =
        let entry = read s (entry_at table l) in
        let at = page_indexes_to_virtual (i ∷ j ∷ k ∷ l ∷ []) in
        if is_set entry page_present
        then finish (
            leaf_callback at (bit_and entry (complement page_flags_mask)) (leaf_flags entry)
              page_size s)
        else finish (missing_callback at s)

    unfoldable pub visit_l3 : (table i j k : ℕ) → S → Option (Bool × S)
    unfolding each_entry visit_l4
    visit_l3 table i j k s =
        let entry = read s (entry_at table k) in
        let at = page_indexes_to_virtual (i ∷ j ∷ k ∷ []) in
        if not (is_set entry page_present)
        then finish (missing_callback at s)
        else if is_set entry page_size_flag
        then finish (
            leaf_callback at (bit_and entry page_addr_mask3) (leaf_flags entry)
              (page_size * page_entries) s)
        else each_entry page_entries (visit_l4 (next_table entry) i j k) 0 (false, s)

    unfoldable pub visit_l2 : (table i j : ℕ) → S → Option (Bool × S)
    unfolding each_entry visit_l3
    visit_l2 table i j s =
        let entry = read s (entry_at table j) in
        if not (is_set entry page_present)
        then finish (missing_callback (page_indexes_to_virtual (i ∷ j ∷ [])) s)
        else if is_set entry page_size_flag
        then none
        else each_entry page_entries (visit_l3 (next_table entry) i j) 0 (false, s)

    unfoldable pub visit_l1 : (table i : ℕ) → S → Option (Bool × S)
    unfolding each_entry visit_l2
    visit_l1 table i s =
        let entry = read s (entry_at table i) in
        if is_set entry page_present
        then each_entry page_entries (visit_l2 (next_table entry) i) 0 (false, s)
        else finish (missing_callback (page_indexes_to_virtual (i ∷ [])) s)

    unfoldable pub walk_page_table_leaf : (table : ℕ) → S → Option (Bool × S)
    unfolding each_entry visit_l1
    walk_page_table_leaf table s = each_entry page_entries (visit_l1 table) 0 (false, s)

-- `PageTableRangeData`
pub record RangeData : Type 0 where
  pub virtual_start : ℕ
  pub virtual_end : ℕ
  pub physical_start : ℕ
  pub physical_end : ℕ
  pub flags : ℕ
  pub page_count : ℕ
  pub size : ℕ

abbrev pub new_block : (virtual physical flags size : ℕ) → RangeData
new_block virtual physical flags size = record {
  virtual_start = virtual;
  virtual_end = sub64 (add64 virtual size) 1;
  physical_start = physical;
  physical_end = sub64 (add64 physical size) 1;
  flags = flags;
  page_count = 1;
  size = size;
}

abbrev pub extends : RangeData → (physical flags size : ℕ) → Bool
extends b physical flags size =
    add64 b.physical_end 1 == physical && (b.flags == flags && b.size == size)

abbrev pub extend_block : RangeData → (virtual physical size : ℕ) → RangeData
extend_block b virtual physical size = record b {
  physical_end = sub64 (add64 physical size) 1;
  virtual_end = sub64 (add64 virtual size) 1;
  page_count = add64 b.page_count 1;
}

-- `Data`, without the functions: the current block, if there is one, and the data of the caller.
pub record Ranging (T : Type 0) : Type 0 where
  pub current_block : Option RangeData
  pub caller : T

module _ {T : Type 0} where
  module _ (callback : RangeData → T → T) where
    -- The part of the callback behind `flags &= …`.
    unfoldable pub add_leaf : (virtual physical flags size : ℕ) → Ranging T → Ranging T
    add_leaf virtual physical flags size s = elim s.current_block [
      | none ↦ record s { current_block = some (new_block virtual physical flags size) }
      | some b ↦
          if extends b physical flags size
          then record s { current_block = some (extend_block b virtual physical size) }
          else record {
            current_block = some (new_block virtual physical flags size);
            caller = callback b s.caller;
          }
    ]

    unfoldable pub leaf_callback : (virtual physical flags size : ℕ) → Ranging T → Bool × Ranging T
    unfolding add_leaf
    leaf_callback virtual physical flags size s = (
      true,
      add_leaf virtual physical (bit_and flags (complement (page_accessed + page_dirty))) size s,
    )

    unfoldable pub missing_callback : ℕ → Ranging T → Bool × Ranging T
    missing_callback virtual s = (
      true,
      elim s.current_block [
        | none ↦ s
        | some b ↦ record { current_block = none; caller = callback b s.caller }
      ],
    )

    unfoldable pub page_table_to_ranges :
        (read : T → ℕ → ℕ) → (map_func : ℕ → ℕ) → (table : ℕ) → T → Option T
    unfolding walk_page_table_leaf leaf_callback missing_callback
    page_table_to_ranges read map_func table caller = do
      r ←
          walk_page_table_leaf (λ s. read s.caller) map_func leaf_callback missing_callback table
            (record { current_block = none; caller = caller })
      some r.1.caller
