-- ===== src/Paging/Calls.antt =====
-- The calls of its callbacks that walkPageTableLeaf makes.
pub mod Report
use mathlib.Core.Path.{subst}
use dvnetos.Base.{
  ℕ, zero, suc, ◌+◌, ◌-◌, ◌*◌, ◌/◌, ◌%◌, ◌^◌, ◌≤◌, ◌<◌, ◌≡◌, refl, ◌∙◌, sym, ap, inl, inr, arith,
  Bool, true, false, not, Option, none, some, ◌>>=◌, List, [], ◌∷◌, ◌++◌, append_assoc,
  if◌then◌else◌, bit_and, bit_and-shift, bit_and-ones, Bool-cases, Option-cases,
}
use dvnetos.Paging.{
  Words, entry_at, page_entries, page_size, page_present, page_size_flag, page_flags_mask,
  page_addr_mask3, complement, is_set, page_indexes_to_virtual,
}
use dvnetos.Paging.Walk.{
  each_entry, visit_l4, visit_l3, visit_l2, visit_l1, walk_page_table_leaf, RangeData, Ranging,
  leaf_callback, missing_callback, page_table_to_ranges,
}
use dvnetos.Paging.Ranges.{
  Call, leaf, missing, play, report, start, all_pages, open_pages, leaf_pages, Bounded, play_lem,
}

-- What the entries from `i` on yield, one behind the other.
unfoldable pub collect : ℕ → (ℕ → Option (List Call)) → ℕ → Option (List Call)
collect zero f i = some []
collect (suc k) f i = do cs ← f i; ds ← collect k f (i + 1); some (cs ++ ds)

-- The calls for the tables in the memory `w`; `none` stands for a page of 1 GB.
module _ (w : Words) (map_func : ℕ → ℕ) where
  abbrev pub next : ℕ → ℕ
  next entry = map_func (bit_and entry (complement page_flags_mask))

  abbrev flags : ℕ → ℕ
  flags entry = bit_and (bit_and entry page_flags_mask) (complement page_size_flag)

  abbrev pub l4_calls : (table i j k l : ℕ) → Option (List Call)
  l4_calls table i j k l =
      let entry = w (entry_at table l) in
      let at = page_indexes_to_virtual (i ∷ j ∷ k ∷ l ∷ []) in
      if is_set entry page_present
      then some (leaf at (bit_and entry (complement page_flags_mask)) (flags entry) page_size ∷ [])
      else some (missing at ∷ [])

  abbrev pub l3_calls : (table i j k : ℕ) → Option (List Call)
  l3_calls table i j k =
      let entry = w (entry_at table k) in
      let at = page_indexes_to_virtual (i ∷ j ∷ k ∷ []) in
      if not (is_set entry page_present)
      then some (missing at ∷ [])
      else if is_set entry page_size_flag
      then some
          (leaf at (bit_and entry page_addr_mask3) (flags entry) (page_size * page_entries) ∷ [])
      else collect page_entries (l4_calls (next entry) i j k) 0

  abbrev pub l2_calls : (table i j : ℕ) → Option (List Call)
  l2_calls table i j =
      let entry = w (entry_at table j) in
      if not (is_set entry page_present)
      then some (missing (page_indexes_to_virtual (i ∷ j ∷ [])) ∷ [])
      else if is_set entry page_size_flag
      then none
      else collect page_entries (l3_calls (next entry) i j) 0

  abbrev pub l1_calls : (table i : ℕ) → Option (List Call)
  l1_calls table i =
      let entry = w (entry_at table i) in
      if is_set entry page_present
      then collect page_entries (l2_calls (next entry) i) 0
      else some (missing (page_indexes_to_virtual (i ∷ [])) ∷ [])

  unfoldable pub table_calls : (table : ℕ) → Option (List Call)
  unfolding collect
  table_calls table = collect page_entries (l1_calls table) 0

abbrev State : Type 0
State = Ranging (List RangeData)

-- The outcome of a part of the walk: its calls are played, and the walk goes on.
abbrev played : Option (List Call) → State → Option (Bool × State)
played o s = do cs ← o; some (false, play cs s)

play-append : (cs ds : List Call) (s : State) → play (cs ++ ds) s ≡ play ds (play cs s)
unfolding play
play-append [] ds s = refl
play-append (leaf v p f z ∷ cs) ds s = play-append cs ds _
play-append (missing v ∷ cs) ds s = play-append cs ds _

each_entry-played :
    (k : ℕ) (body : ℕ → State → Option (Bool × State)) (f : ℕ → Option (List Call)) (i : ℕ)
    (s : State)
    → ((i : ℕ) (s : State) → body i s ≡ played (f i) s)
    → each_entry k body i (false, s) ≡ played (collect k f i) s
unfolding each_entry play collect
each_entry-played zero body f i s h = refl
each_entry-played (suc k) body f i s h = rw (h i s) (elim (Option-cases (f i)) [
  | inl gone ↦ rw gone refl
  | inr (cs, here) ↦ rw here (
      each_entry-played k body f (i + 1) (play cs s) h
      ∙ (elim (Option-cases (collect k f (i + 1))) [
        | inl gone ↦ rw gone refl
        | inr (ds, there) ↦ rw there (ap (λ s. some (false, s)) (sym (play-append cs ds s)))
      ]))
])

if-played :
    (b : Bool) (r r' : Option (Bool × State)) (o o' : Option (List Call)) (s : State)
    → r ≡ played o s
    → r' ≡ played o' s
    → (if b then r else r') ≡ played (if b then o else o') s
if-played true r r' o o' s h h' = h
if-played false r r' o o' s h h' = h'

module _ (w : Words) (map_func : ℕ → ℕ) where
  abbrev l4 : (table i j k l : ℕ) → State → Option (Bool × State)
  l4 = visit_l4 (λ s. w) map_func (leaf_callback report) (missing_callback report)

  abbrev l3 : (table i j k : ℕ) → State → Option (Bool × State)
  l3 = visit_l3 (λ s. w) map_func (leaf_callback report) (missing_callback report)

  abbrev l2 : (table i j : ℕ) → State → Option (Bool × State)
  l2 = visit_l2 (λ s. w) map_func (leaf_callback report) (missing_callback report)

  abbrev l1 : (table i : ℕ) → State → Option (Bool × State)
  l1 = visit_l1 (λ s. w) map_func (leaf_callback report) (missing_callback report)

  visit_l4-played :
      (table i j k l : ℕ) (s : State)
      → l4 table i j k l s ≡ played (l4_calls w map_func table i j k l) s
  unfolding visit_l4 play leaf_callback missing_callback
  visit_l4-played table i j k l s =
      if-played (is_set (w (entry_at table l)) page_present) _ _ _ _ s refl refl

  visit_l3-played :
      (table i j k : ℕ) (s : State) → l3 table i j k s ≡ played (l3_calls w map_func table i j k) s
  unfolding visit_l3 play leaf_callback missing_callback
  visit_l3-played table i j k s =
      let entry = w (entry_at table k) in
      if-played (not (is_set entry page_present)) _ _ _ _ s refl (
        if-played (is_set entry page_size_flag) _ _ _ _ s refl (
          each_entry-played page_entries (l4 (next w map_func entry) i j k)
            (l4_calls w map_func (next w map_func entry) i j k) 0 s
            (visit_l4-played (next w map_func entry) i j k)))

  visit_l2-played :
      (table i j : ℕ) (s : State) → l2 table i j s ≡ played (l2_calls w map_func table i j) s
  unfolding visit_l2 play missing_callback
  visit_l2-played table i j s =
      let entry = w (entry_at table j) in
      if-played (not (is_set entry page_present)) _ _ _ _ s refl (
        if-played (is_set entry page_size_flag) _ _ _ _ s refl (
          each_entry-played page_entries (l3 (next w map_func entry) i j)
            (l3_calls w map_func (next w map_func entry) i j) 0 s
            (visit_l3-played (next w map_func entry) i j)))

  visit_l1-played :
      (table i : ℕ) (s : State) → l1 table i s ≡ played (l1_calls w map_func table i) s
  unfolding visit_l1 play missing_callback
  visit_l1-played table i s =
      let entry = w (entry_at table i) in
      if-played (is_set entry page_present) _ _ _ _ s
        (each_entry-played page_entries (l2 (next w map_func entry) i)
          (l2_calls w map_func (next w map_func entry) i) 0 s
          (visit_l2-played (next w map_func entry) i))
        refl

  pub page_table_to_ranges-played :
      (table : ℕ)
      → page_table_to_ranges report (λ bs. w) map_func table []
        ≡ (table_calls w map_func table >>= λ cs. some (play cs start).caller)
  unfolding page_table_to_ranges walk_page_table_leaf table_calls
  page_table_to_ranges-played table =
      ap (λ o. o >>= λ r. some r.1.caller)
        (each_entry-played page_entries (l1 table) (l1_calls w map_func table) 0 start
          (visit_l1-played table))
      ∙ ended (table_calls w map_func table)
    where
      ended :
          (o : Option (List Call))
          → (played o start >>= λ r. some r.1.caller) ≡ (o >>= λ cs. some (play cs start).caller)
      ended none = refl
      ended (some cs) = refl
