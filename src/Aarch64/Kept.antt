-- ===== src/Aarch64/Kept.antt =====
-- init does not set the offset of the higher half: it is kept throughout.
use dvnetos.Base.{
  ℕ, zero, suc, ◌+◌, ◌*◌, ◌%◌, ◌^◌, ◌≡◌, inl, inr, not, ◌&&◌, none, some, List, [], ◌∷◌, leb, ◌==◌,
  if◌then◌else◌, add64, sub64, Bool-cases, bind-some, none-some,
}
use dvnetos.Paging.{entry_at, is_set, page_size}
use dvnetos.Paging.Walk.{RangeData}
use dvnetos.Aarch64.{
  Paging, Indexes, virtual_to_page_indexes, root_of, initial_pool_get_page, initial_pool_size,
  ensure_table, set_entry, table_of, page_valid, page_table, huge_size, map_page, map_loop,
  map_memory, set_page_table_entry,
}
use dvnetos.Paging.Memmap.{MemmapEntry}
use dvnetos.Aarch64.Init.{Boot, map_range, is_type_to_map, ranges_overlap, boot_paging, init}
use dvnetos.Aarch64.Invariant.{
  Returns, bind-Returns, some-Returns, none-Returns, if-Returns, page_table_to_ranges-Returns,
}
use dvnetos.Aarch64.Walk.{page_table_to_ranges}

module _ (h : ℕ) where
  -- The offset that halves the addresses.
  abbrev pub Offset : Paging → Type 0
  Offset p = p.higher_half_offset ≡ h

  ensure_table-Returns : (p : Paging) (slot : ℕ) → Offset p → Returns Offset (ensure_table p slot)
  unfolding ensure_table initial_pool_get_page
  ensure_table-Returns p slot same =
      if-Returns Offset (is_set (p.words slot) page_valid) _ _ (some-Returns Offset p same) (λ q e.
        elim (Bool-cases (leb initial_pool_size (p.used_count + 1))) [
          | inl full ↦ none-some (rw full at e)
          | inr room ↦ some-Returns Offset _ same q (rw room at e)
        ])

  set_entry-Returns :
      (p : Paging) (table index level pa flags : ℕ)
      → Offset p
      → Returns Offset (set_entry p table index level pa flags)
  unfolding set_entry
  set_entry-Returns p table index level pa flags same q e =
      let (w, runs, here) =
        bind-some (set_page_table_entry p.words table index level pa flags) _ q e in
      some-Returns Offset _ same q here

  pub map_page-Returns :
      (p : Paging) (pa va size flags : ℕ) → Offset p → Returns Offset (map_page p pa va size flags)
  unfolding map_page
  map_page-Returns p pa va size flags same =
      bind-Returns Offset Offset _ _ (ensure_table-Returns p (entry_at root i.l1) same) (λ p1 h1.
        let pdpt = table_of p1 (entry_at root i.l1) in
        bind-Returns Offset Offset _ _ (ensure_table-Returns p1 (entry_at pdpt i.l2) h1) (λ p2 h2.
          let pd = table_of p2 (entry_at pdpt i.l2) in
          let slot = entry_at pd i.l3 in
          if-Returns Offset (size == huge_size) _ _
            (if-Returns Offset (not (va % huge_size == 0)) _ _ (none-Returns Offset) (
              if-Returns Offset (not (pa % huge_size == 0)) _ _ (none-Returns Offset)
                (set_entry-Returns p2 pd i.l3 3 pa flags h2)))
            (if-Returns Offset
              (is_set (p2.words slot) page_valid && not (is_set (p2.words slot) page_table)) _ _
              (none-Returns Offset)
              (bind-Returns Offset Offset _ (λ p3. set_entry p3 (table_of p3 slot) i.l4 4 pa flags)
                (ensure_table-Returns p2 slot h2)
                (λ p3 h3. set_entry-Returns p3 (table_of p3 slot) i.l4 4 pa flags h3)))))
    where
      i : Indexes
      i = virtual_to_page_indexes p va

      root : ℕ
      root = root_of p i.higher_half

  map_loop-Returns :
      (n : ℕ) (p : Paging) (pa va size flags : ℕ)
      → Offset p
      → Returns Offset (map_loop n p pa va size flags)
  unfolding map_loop
  map_loop-Returns zero p pa va size flags same = some-Returns Offset p same
  map_loop-Returns (suc n) p pa va size flags same =
      bind-Returns Offset Offset _ _ (map_page-Returns p pa va size flags same)
        (λ p' h'. map_loop-Returns n p' (add64 pa size) (add64 va size) size flags h')

  map_memory-Returns :
      (p : Paging) (pa va size n flags : ℕ)
      → Offset p
      → Returns Offset (map_memory p pa va size n flags)
  unfolding map_memory
  map_memory-Returns p pa va size n flags same =
      if-Returns Offset (not (pa % size == 0)) _ _ (none-Returns Offset) (
        if-Returns Offset (not (va % size == 0)) _ _ (none-Returns Offset)
          (map_loop-Returns n p pa va size flags same))

  map_range-Returns :
      (boot : Boot) (ms : List MemmapEntry) (r : RangeData) (p : Paging)
      → Offset p
      → Returns Offset (map_range boot ms r p)
  unfolding map_range
  map_range-Returns boot [] r p same = some-Returns Offset p same
  map_range-Returns boot (m ∷ ms) r p same =
      if-Returns Offset (ranges_overlap r m && is_type_to_map boot m.type) _ _
        (map_memory-Returns p r.physical_start r.virtual_start r.size r.page_count r.flags same)
        (map_range-Returns boot ms r p same)

  abbrev Taken : ℕ × Paging → Type 0
  Taken (page, p) = Offset p

  abbrev pub Ended : Paging × ℕ × ℕ → Type 0
  Ended (p, t0, t1) = Offset p

  initial_pool_get_page-Returns :
      (p : Paging) → Offset p → Returns Taken (initial_pool_get_page p 1)
  unfolding initial_pool_get_page
  initial_pool_get_page-Returns p same =
      if-Returns Taken (leb initial_pool_size (p.used_count + 1)) _ _ (none-Returns Taken) (
        some-Returns Taken
          (p.pool + page_size * p.used_count, record p { used_count = (p.used_count + 1) % 2 ^ 8 })
          same)

  pub init-Returns :
      (boot : Boot) (ms : List MemmapEntry) (hhdm kernel : ℕ) (p : Paging)
      → Offset p
      → Returns Ended (init boot ms hhdm kernel p)
  unfolding init
  init-Returns boot ms hhdm kernel p same r e =
      let (mode, runs, e0) =
        bind-some (if hhdm % page_size == 0 then boot.response_mode else none) _ r e in
      let (r1, runs1, e1) =
        bind-some (if mode == boot.mode_4lvl then initial_pool_get_page p 1 else none) _ r e0 in
      let same1 : Taken r1 =
        if-Returns Taken (mode == boot.mode_4lvl) _ _ (initial_pool_get_page-Returns p same)
          (none-Returns Taken) r1 runs1 in
      let (r2, runs2, e2) = bind-some (initial_pool_get_page r1.1 1) _ r e1 in
      let same2 : Taken r2 = initial_pool_get_page-Returns r1.1 same1 r2 runs2 in
      bind-Returns Offset Ended
        (page_table_to_ranges (map_range boot ms) (boot_paging boot hhdm p) (λ q. q.words)
          (λ v. add64 v hhdm) _)
        (λ p3. some (p3, sub64 p3.root1 kernel, sub64 p3.root2 kernel))
        (page_table_to_ranges-Returns Offset (map_range boot ms) (map_range-Returns boot ms)
          (boot_paging boot hhdm p) (λ q. q.words) (λ v. add64 v hhdm) _ same2)
        (λ p3 same3. some-Returns Ended (p3, sub64 p3.root1 kernel, sub64 p3.root2 kernel) same3) r
        e2
