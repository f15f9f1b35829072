-- ===== src/Aarch64.antt =====
-- kernel/arch/aarch64/memory/paging.cpp and paging.h, on the memory of words of Paging; `none` is a
-- kernel panic. The messages and the instructions that flush the caches are left out.
pub mod Walk
pub mod Init
pub mod Flags
pub mod View
pub mod Unmap
pub mod Invariant
pub mod Kept
pub mod Half
mod Tests
use dvnetos.Base.{
  ℕ, zero, suc, ◌+◌, ◌-◌, ◌*◌, ◌/◌, ◌%◌, ◌^◌, Bool, true, false, not, ◌&&◌, ◌||◌, Option, none,
  some, ◌>>=◌, List, [], ◌∷◌, ltb, leb, ◌==◌, if◌then◌else◌, add64, sub64, mul64, bit_and, bit_or,
}
use dvnetos.Paging.{
  Words, entry_at, write_word, clear_page, complement, is_set, page_size, shift_left,
}

abbrev pub page_valid : ℕ
page_valid = 1

abbrev pub page_table : ℕ
page_table = 2

abbrev pub page_addr_mask : ℕ
page_addr_mask = 0x000FFFFFFFFFF000

abbrev pub page_flags_mask : ℕ
page_flags_mask = complement page_addr_mask

abbrev pub page_entries : ℕ
page_entries = 512

-- `Paging` and the tables, with the number of pages taken from `initialPool`, which stands at `pool`.
pub record Paging : Type 0 where
  pub root1 : ℕ
  pub root2 : ℕ
  pub tcr_el1 : ℕ
  pub page_table_offset : ℕ
  pub higher_half_offset : ℕ
  pub words : Words
  pub pool : ℕ
  pub used_count : ℕ

abbrev pub initial_pool_size : ℕ
initial_pool_size = 128

unfoldable pub initial_pool_get_page : Paging → (count : ℕ) → Option (ℕ × Paging)
initial_pool_get_page p count =
    if leb initial_pool_size (p.used_count + count)
    then none
    else some (
      p.pool + page_size * p.used_count,
      record p { used_count = (p.used_count + count) % 2 ^ 8 },
    )

unfoldable pub make_page_aligned : ℕ → ℕ
make_page_aligned address = bit_and address (complement 0xFFF)

unfoldable pub physical_to_virtual : Paging → ℕ → ℕ
physical_to_virtual p a = add64 a p.page_table_offset

unfoldable pub virtual_to_physical : Paging → ℕ → ℕ
virtual_to_physical p a = sub64 a p.page_table_offset

-- `virtualToPageIndexes_t`
pub record Indexes : Type 0 where
  pub higher_half : Bool
  pub l1 : ℕ
  pub l2 : ℕ
  pub l3 : ℕ
  pub l4 : ℕ

unfoldable pub virtual_to_page_indexes : Paging → ℕ → Indexes
virtual_to_page_indexes p v = record {
  higher_half = leb p.higher_half_offset v;
  l1 = bit_and (v / 2 ^ 39) 0x1FF;
  l2 = bit_and (v / 2 ^ 30) 0x1FF;
  l3 = bit_and (v / 2 ^ 21) 0x1FF;
  l4 = bit_and (v / 2 ^ 12) 0x1FF;
}

-- The bits of the indexes, `address |= l[i] << shift`, for the next shift.
unfoldable pub join_indexes : (address shift : ℕ) → List ℕ → ℕ
join_indexes address shift [] = address
join_indexes address shift (l ∷ ls) =
    join_indexes (bit_or address (shift_left l shift)) (shift - 9) ls

-- For at most four indexes.
unfoldable pub page_indexes_to_virtual : Paging → List ℕ → (higher_half : Bool) → ℕ
unfolding join_indexes
page_indexes_to_virtual p l higher_half =
    let address = join_indexes 0 39 l in
    if higher_half then add64 address p.higher_half_offset else address

unfoldable pub set_page_table_entry :
    Words → (table index level physical_address flags : ℕ) → Option Words
unfolding write_word
set_page_table_entry w table index level physical_address flags =
    let new_value =
      bit_or (bit_or (bit_or (bit_and physical_address page_addr_mask) page_valid) flags)
        (if level == 4 then page_table else 0) in
    let old = w (entry_at table index) in
    if not (old == 0) && not (old == new_value)
    then none
    else some (write_word w (entry_at table index) new_value)

unfoldable pub clear_page_table_entry : Words → (table index : ℕ) → Words
unfolding write_word
clear_page_table_entry w table index = write_word w (entry_at table index) 0

-- `setPageTableEntry` and `clearPageTableEntry` on the tables of `p`.
unfoldable pub set_entry : Paging → (table index level physical_address flags : ℕ) → Option Paging
unfolding set_page_table_entry
set_entry p table index level physical_address flags = do
  w ← set_page_table_entry p.words table index level physical_address flags
  some (record p { words = w })

unfoldable pub clear_entry : Paging → (table index : ℕ) → Paging
unfolding clear_page_table_entry
clear_entry p table index = record p { words = clear_page_table_entry p.words table index }

-- A table for the entry `slot`: a new one, if there is none.
unfoldable pub ensure_table : Paging → (slot : ℕ) → Option Paging
unfolding write_word clear_page virtual_to_physical initial_pool_get_page
ensure_table p slot = if is_set (p.words slot) page_valid then some p else do
  (table, p') ← initial_pool_get_page p 1
  let entry = bit_or (bit_or (virtual_to_physical p' table) page_valid) page_table
  some (record p' { words = write_word (clear_page p'.words table) slot entry })

-- The table that the entry `slot` points to.
unfoldable pub table_of : Paging → (slot : ℕ) → ℕ
unfolding physical_to_virtual
table_of p slot = physical_to_virtual p (bit_and (p.words slot) (complement page_flags_mask))

-- `idx.higherHalf ? root2 : root1`
unfoldable pub root_of : Paging → (higher_half : Bool) → ℕ
root_of p higher_half = if higher_half then p.root2 else p.root1

abbrev pub huge_size : ℕ
huge_size = page_size * page_entries

-- A round of the loop of mapMemory.
unfoldable pub map_page : Paging → (physical_address virtual_address size flags : ℕ) → Option Paging
unfolding virtual_to_page_indexes root_of ensure_table table_of set_entry
map_page p pa va size flags = do
  let idx = virtual_to_page_indexes p va
  let root = root_of p idx.higher_half
  p1 ← ensure_table p (entry_at root idx.l1)
  let pdpt = table_of p1 (entry_at root idx.l1)
  p2 ← ensure_table p1 (entry_at pdpt idx.l2)
  let pd = table_of p2 (entry_at pdpt idx.l2)
  let slot = entry_at pd idx.l3
  if size == huge_size
      then (if not (va % huge_size == 0)
          then none
          else if not (pa % huge_size == 0)
          then none
          else set_entry p2 pd idx.l3 3 pa flags)
      else if is_set (p2.words slot) page_valid && not (is_set (p2.words slot) page_table)
      then none
      else (do p3 ← ensure_table p2 slot; set_entry p3 (table_of p3 slot) idx.l4 4 pa flags)

-- The loop with the rounds left.
unfoldable pub map_loop :
    ℕ → Paging → (physical_address virtual_address size flags : ℕ) → Option Paging
unfolding map_page
map_loop zero p pa va size flags = some p
map_loop (suc rounds) p pa va size flags = do
  p' ← map_page p pa va size flags
  map_loop rounds p' (add64 pa size) (add64 va size) size flags

unfoldable pub map_memory :
    Paging → (physical_address virtual_address size num_pages flags : ℕ) → Option Paging
unfolding map_loop
map_memory p pa va size num_pages flags =
    if not (pa % size == 0)
    then none
    else if not (va % size == 0)
    then none
    else map_loop num_pages p pa va size flags

-- The size that mapPartial maps.
unfoldable pub partial_size : (physical_address size : ℕ) → ℕ
unfolding make_page_aligned
partial_size pa size =
    let new_size = sub64 (add64 size page_size) (size % page_size) in
    if ltb (add64 (make_page_aligned pa) new_size) (add64 pa size)
    then add64 new_size page_size
    else new_size

unfoldable pub map_partial :
    Paging → (physical_address virtual_address size flags : ℕ) → Option Paging
unfolding partial_size map_memory make_page_aligned
map_partial p pa va size flags =
    map_memory p (make_page_aligned pa) (make_page_aligned va) page_size
      (partial_size pa size / page_size) flags

-- A round of the loop of unmapMemory.
unfoldable pub unmap_page : Paging → (virtual_address size : ℕ) → Option Paging
unfolding virtual_to_page_indexes root_of table_of clear_entry
unmap_page p va size =
    let idx = virtual_to_page_indexes p va in
    let slot1 = entry_at (root_of p idx.higher_half) idx.l1 in
    let slot2 = entry_at (table_of p slot1) idx.l2 in
    let pd = table_of p slot2 in
    let slot3 = entry_at pd idx.l3 in
    if not (is_set (p.words slot1) page_valid)
    then some p
    else if not (is_set (p.words slot2) page_valid)
    then some p
    else if size == huge_size
    then (if not (va % size == 0)
        then none
        else if is_set (p.words slot3) page_table
        then none
        else some (clear_entry p pd idx.l3))
    else if not (is_set (p.words slot3) page_valid)
    then some p
    else if not (is_set (p.words slot3) page_table)
    then some p
    else some (clear_entry p (table_of p slot3) idx.l4)

-- The loop with the rounds left.
unfoldable pub unmap_loop : ℕ → Paging → (virtual_address size : ℕ) → Option Paging
unfolding unmap_page
unmap_loop zero p va size = some p
unmap_loop (suc rounds) p va size = do
  p' ← unmap_page p va size
  unmap_loop rounds p' (add64 va size) size

unfoldable pub unmap_memory : Paging → (virtual_address num_pages size : ℕ) → Option Paging
unfolding unmap_loop
unmap_memory p va num_pages size =
    if not (va % page_size == 0) then none else unmap_loop num_pages p va size
