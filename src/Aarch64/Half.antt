-- ===== src/Aarch64/Half.antt =====
-- The half of an address, after init.
use dvnetos.Base.{
  ℕ, zero, suc, ◌+◌, ◌%◌, ◌≡◌, refl, ◌∙◌, sym, ap, inl, inr, arith, Bool, true, false, not, ◌&&◌,
  Option, none, some, ◌>>=◌, List, leb, ◌==◌, if◌then◌else◌, add64, Bool-cases, Option-cases,
}
use dvnetos.Paging.{entry_at, is_set}
use dvnetos.Aarch64.{
  Paging, Indexes, virtual_to_page_indexes, root_of, initial_pool_get_page, initial_pool_size,
  ensure_table, set_entry, table_of, page_valid, page_table, huge_size, map_page, map_loop,
  map_memory, virtual_to_physical, physical_to_virtual, set_page_table_entry,
}
use dvnetos.Paging.Memmap.{MemmapEntry}
use dvnetos.Aarch64.Init.{Boot, init}
use dvnetos.Aarch64.Kept.{Offset, map_page-Returns, init-Returns}

-- The lower root replaced.
abbrev pub with_root1 : ℕ → Paging → Paging
with_root1 r p = record p { root1 = r }

module _ (r : ℕ) where
  -- What a step does with another lower root in place.
  abbrev pub over : Option Paging → Option Paging
  over o = o >>= λ q. some (with_root1 r q)

  bind-over :
      (o o' : Option Paging) (f f' : Paging → Option Paging)
      → o' ≡ over o
      → ((q : Paging) → o ≡ some q → f' (with_root1 r q) ≡ over (f q))
      → (o' >>= f') ≡ over (o >>= f)
  bind-over none o' f f' h k = rw h refl
  bind-over (some q) o' f f' h k = rw h (k q refl)

  if-over :
      (b : Bool) (o1 o2 o1' o2' : Option Paging)
      → o1' ≡ over o1
      → o2' ≡ over o2
      → (if b then o1' else o2') ≡ over (if b then o1 else o2)
  if-over true o1 o2 o1' o2' h h' = h
  if-over false o1 o2 o1' o2' h h' = h'

  ensure_table-over :
      (p : Paging) (slot : ℕ) → ensure_table (with_root1 r p) slot ≡ over (ensure_table p slot)
  unfolding ensure_table initial_pool_get_page virtual_to_physical
  ensure_table-over p slot =
      if-over (is_set (p.words slot) page_valid) _ _ _ _ refl
        (elim (Bool-cases (leb initial_pool_size (p.used_count + 1))) [
          | inl full ↦ rw full refl
          | inr room ↦ rw room refl
        ])

  set_entry-over :
      (p : Paging) (table index level pa flags : ℕ)
      → set_entry (with_root1 r p) table index level pa flags
        ≡ over (set_entry p table index level pa flags)
  unfolding set_entry
  set_entry-over p table index level pa flags =
      elim (Option-cases (set_page_table_entry p.words table index level pa flags)) [
        | inl clash ↦ rw clash refl
        | inr (w, runs) ↦ rw runs refl
      ]

  virtual_to_page_indexes-with_root1 :
      (p : Paging) (va : ℕ)
      → virtual_to_page_indexes (with_root1 r p) va ≡ virtual_to_page_indexes p va
  unfolding virtual_to_page_indexes
  virtual_to_page_indexes-with_root1 p va = refl

  table_of-with_root1 : (p : Paging) (slot : ℕ) → table_of (with_root1 r p) slot ≡ table_of p slot
  unfolding table_of physical_to_virtual
  table_of-with_root1 p slot = refl

  -- With an offset of 0 every address belongs to the higher half.
  root_of-with_root1 :
      (p : Paging) (va : ℕ)
      → Offset 0 p
      → root_of (with_root1 r p) (virtual_to_page_indexes p va).higher_half
        ≡ root_of p (virtual_to_page_indexes p va).higher_half
  unfolding root_of virtual_to_page_indexes
  root_of-with_root1 p va zero_offset =
      let all_higher : leb p.higher_half_offset va ≡ true = rw zero_offset (ground arith) in
      rw all_higher refl

  -- The part of a round behind the second table.
  abbrev last : (pa va size flags pd l3 l4 : ℕ) → Paging → Option Paging
  last pa va size flags pd l3 l4 p2 =
      let slot = entry_at pd l3 in
      if size == huge_size
      then (if not (va % huge_size == 0)
          then none
          else if not (pa % huge_size == 0)
          then none
          else set_entry p2 pd l3 3 pa flags)
      else if is_set (p2.words slot) page_valid && not (is_set (p2.words slot) page_table)
      then none
      else (do p3 ← ensure_table p2 slot; set_entry p3 (table_of p3 slot) l4 4 pa flags)

  last-over :
      (pa va size flags pd l3 l4 : ℕ) (p : Paging)
      → last pa va size flags pd l3 l4 (with_root1 r p) ≡ over (last pa va size flags pd l3 l4 p)
  last-over pa va size flags pd l3 l4 p =
      let slot = entry_at pd l3 in
      if-over (size == huge_size) _ _ _ _
        (if-over (not (va % huge_size == 0)) _ _ _ _ refl
          (if-over (not (pa % huge_size == 0)) _ _ _ _ refl (set_entry-over p pd l3 3 pa flags)))
        (if-over (is_set (p.words slot) page_valid && not (is_set (p.words slot) page_table)) _ _ _
          _ refl
          (bind-over _ _ (λ p3. set_entry p3 (table_of p3 slot) l4 4 pa flags)
            (λ p3. set_entry p3 (table_of p3 slot) l4 4 pa flags) (ensure_table-over p slot)
            (λ q runs.
              rw (table_of-with_root1 q slot) (set_entry-over q (table_of q slot) l4 4 pa flags))))

  -- A round from the root on.
  abbrev third : (pa va size flags : ℕ) → Indexes → ℕ → Paging → Option Paging
  third pa va size flags i pdpt p2 =
      last pa va size flags (table_of p2 (entry_at pdpt i.l2)) i.l3 i.l4 p2

  abbrev second : (pa va size flags : ℕ) → Indexes → ℕ → Paging → Option Paging
  second pa va size flags i slot p1 = do
    p2 ← ensure_table p1 (entry_at (table_of p1 slot) i.l2)
    third pa va size flags i (table_of p1 slot) p2

  abbrev first : (pa va size flags : ℕ) → Indexes → ℕ → Paging → Option Paging
  first pa va size flags i root p = do
    p1 ← ensure_table p (entry_at root i.l1)
    second pa va size flags i (entry_at root i.l1) p1

  map_page-first :
      (p : Paging) (pa va size flags : ℕ)
      → map_page p pa va size flags
        ≡ first pa va size flags
            (virtual_to_page_indexes p va)
            (root_of p (virtual_to_page_indexes p va).higher_half)
            p
  unfolding map_page
  map_page-first p pa va size flags = refl

  third-over :
      (pa va size flags : ℕ) (i : Indexes) (pdpt : ℕ) (p : Paging)
      → third pa va size flags i pdpt (with_root1 r p) ≡ over (third pa va size flags i pdpt p)
  third-over pa va size flags i pdpt p =
      rw (table_of-with_root1 p (entry_at pdpt i.l2))
        (last-over pa va size flags (table_of p (entry_at pdpt i.l2)) i.l3 i.l4 p)

  second-over :
      (pa va size flags : ℕ) (i : Indexes) (slot : ℕ) (p : Paging)
      → second pa va size flags i slot (with_root1 r p) ≡ over (second pa va size flags i slot p)
  second-over pa va size flags i slot p = rw (table_of-with_root1 p slot) (
      bind-over _ _ (third pa va size flags i (table_of p slot))
        (third pa va size flags i (table_of p slot))
        (ensure_table-over p (entry_at (table_of p slot) i.l2))
        (λ q runs. third-over pa va size flags i (table_of p slot) q))

  first-over :
      (pa va size flags : ℕ) (i : Indexes) (root : ℕ) (p : Paging)
      → first pa va size flags i root (with_root1 r p) ≡ over (first pa va size flags i root p)
  first-over pa va size flags i root p =
      bind-over _ _ (second pa va size flags i (entry_at root i.l1))
        (second pa va size flags i (entry_at root i.l1)) (ensure_table-over p (entry_at root i.l1))
        (λ q runs. second-over pa va size flags i (entry_at root i.l1) q)

  map_page-over :
      (p : Paging) (pa va size flags : ℕ)
      → Offset 0 p
      → map_page (with_root1 r p) pa va size flags ≡ over (map_page p pa va size flags)
  map_page-over p pa va size flags zero_offset =
      let i = virtual_to_page_indexes p va in
      map_page-first (with_root1 r p) pa va size flags
      ∙ ap (λ j. first pa va size flags j (root_of (with_root1 r p) j.higher_half) (with_root1 r p))
          (virtual_to_page_indexes-with_root1 p va)
      ∙ ap (λ root. first pa va size flags i root (with_root1 r p))
          (root_of-with_root1 p va zero_offset)
      ∙ first-over pa va size flags i (root_of p i.higher_half) p
      ∙ ap over (sym (map_page-first p pa va size flags))

  map_loop-over :
      (n : ℕ) (p : Paging) (pa va size flags : ℕ)
      → Offset 0 p
      → map_loop n (with_root1 r p) pa va size flags ≡ over (map_loop n p pa va size flags)
  unfolding map_loop
  map_loop-over zero p pa va size flags zero_offset = refl
  map_loop-over (suc n) p pa va size flags zero_offset =
      bind-over _ _ (rest n) (rest n) (map_page-over p pa va size flags zero_offset) (λ q runs.
        map_loop-over n q (add64 pa size) (add64 va size) size flags
          (map_page-Returns 0 p pa va size flags zero_offset q runs))
    where
      rest : ℕ → Paging → Option Paging
      rest n q = map_loop n q (add64 pa size) (add64 va size) size flags

  map_memory-over :
      (p : Paging) (pa va size n flags : ℕ)
      → Offset 0 p
      → map_memory (with_root1 r p) pa va size n flags ≡ over (map_memory p pa va size n flags)
  unfolding map_memory
  map_memory-over p pa va size n flags zero_offset =
      if-over (not (pa % size == 0)) _ _ _ _ refl (
        if-over (not (va % size == 0)) _ _ _ _ refl
          (map_loop-over n p pa va size flags zero_offset))

-- init leaves the offset of the higher half at 0, the value of a zeroed object. Thereafter mapMemory
-- never uses the lower root: for every address, page size and range it does the same, panics included,
-- whatever table stands there.
pub init-map_memory :
    (boot : Boot) (ms : List MemmapEntry) (hhdm kernel : ℕ) (p p' : Paging) (t0 t1 : ℕ)
    → p.higher_half_offset ≡ 0
    → init boot ms hhdm kernel p ≡ some (p', t0, t1)
    → (p'.higher_half_offset ≡ 0)
      × ((r pa va size n flags : ℕ)
          → map_memory (with_root1 r p') pa va size n flags
            ≡ (map_memory p' pa va size n flags >>= λ q. some (with_root1 r q)))
init-map_memory boot ms hhdm kernel p p' t0 t1 zeroed runs =
    let zero_offset : p'.higher_half_offset ≡ 0 =
      init-Returns 0 boot ms hhdm kernel p zeroed (p', t0, t1) runs in
    (zero_offset, λ r pa va size n flags. map_memory-over r p' pa va size n flags zero_offset)
