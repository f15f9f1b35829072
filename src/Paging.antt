-- ===== src/Paging.antt =====
-- kernel/arch/x86_64/memory/paging.cpp and paging.h. The tables stand in a memory of 64-bit words,
-- addressed by their first byte; `none` is a kernel panic. The messages are left out.
pub mod Walk
pub mod Memmap
pub mod Init
pub mod Flags
pub mod Tree
pub mod View
pub mod Ranges
pub mod Runs
pub mod Calls
pub mod Addresses
pub mod Entry
mod Tests
use dvnetos.Base.{
  ℕ, zero, suc, ◌+◌, ◌-◌, ◌*◌, ◌/◌, ◌%◌, ◌^◌, Bool, true, false, not, ◌&&◌, ◌||◌, Option, none,
  some, ◌>>=◌, List, [], ◌∷◌, ltb, leb, ◌==◌, if◌then◌else◌, add64, sub64, mul64, bit_and, bit_or,
}

abbrev pub Words : Type 0
Words = ℕ → ℕ

-- `table[index]`
abbrev pub entry_at : (table index : ℕ) → ℕ
entry_at table index = table + 8 * index

unfoldable pub write_word : Words → ℕ → ℕ → Words
write_word w a v x = if x == a then v else w x

-- `memset(table, 0, PAGE_SIZE)`
unfoldable pub clear_page : Words → ℕ → Words
clear_page w table x = if leb table x && ltb x (table + 4096) then 0 else w x

-- `1 << 0`, and so on: the flags of an entry.
abbrev pub page_present : ℕ
page_present = 1

abbrev pub page_write : ℕ
page_write = 2

abbrev pub page_user : ℕ
page_user = 4

abbrev pub page_accessed : ℕ
page_accessed = 0x20

abbrev pub page_dirty : ℕ
page_dirty = 0x40

abbrev pub page_size_flag : ℕ
page_size_flag = 0x80

abbrev pub page_addr_mask : ℕ
page_addr_mask = 0x000FFFFFFFFFF000

abbrev pub page_addr_mask3 : ℕ
page_addr_mask3 = 0x000FFFFFFFF00000

abbrev pub page_flags_mask : ℕ
page_flags_mask = 0xFFF0000000000FFF

-- The complement of a mask, in 64 bits.
abbrev pub complement : ℕ → ℕ
complement mask = 0xFFFFFFFFFFFFFFFF - mask

abbrev pub page_size : ℕ
page_size = 4096

abbrev pub page_entries : ℕ
page_entries = 512

abbrev pub is_set : (entry flag : ℕ) → Bool
is_set entry flag = not (bit_and entry flag == 0)

-- `Paging` and the tables, with the number of pages taken from `initialPool`, which stands at `pool`.
pub record Paging : Type 0 where
  pub root : ℕ
  pub page_table_offset : ℕ
  pub words : Words
  pub pool : ℕ
  pub used_count : ℕ

-- `virtualToPageIndexes_t`
pub record Indexes : Type 0 where
  pub l1 : ℕ
  pub l2 : ℕ
  pub l3 : ℕ
  pub l4 : ℕ

unfoldable pub virtual_to_page_indexes : ℕ → Indexes
virtual_to_page_indexes v = record {
  l1 = bit_and (v / 2 ^ 39) 0x1FF;
  l2 = bit_and (v / 2 ^ 30) 0x1FF;
  l3 = bit_and (v / 2 ^ 21) 0x1FF;
  l4 = bit_and (v / 2 ^ 12) 0x1FF;
}

abbrev pub shift_left : (a k : ℕ) → ℕ
shift_left a k = a * 2 ^ k % 2 ^ 64

-- The bits of the indexes, `address |= l[i] << shift`, for the next shift.
unfoldable pub join_indexes : (address shift : ℕ) → List ℕ → ℕ
join_indexes address shift [] = address
join_indexes address shift (l ∷ ls) =
    join_indexes (bit_or address (shift_left l shift)) (shift - 9) ls

unfoldable pub sign_extend : ℕ → ℕ
sign_extend address = if is_set address (2 ^ 47) then bit_or address 0xFFFF000000000000 else address

-- For at most four indexes.
unfoldable pub page_indexes_to_virtual : List ℕ → ℕ
unfolding join_indexes sign_extend
page_indexes_to_virtual l = sign_extend (join_indexes 0 39 l)

unfoldable pub make_page_aligned : ℕ → ℕ
make_page_aligned address = bit_and address (complement 0xFFF)

unfoldable pub physical_to_virtual : Paging → ℕ → ℕ
physical_to_virtual p a = add64 a p.page_table_offset

unfoldable pub virtual_to_physical : Paging → ℕ → ℕ
virtual_to_physical p a = sub64 a p.page_table_offset

abbrev pub initial_pool_size : ℕ
initial_pool_size = 128

unfoldable pub initial_pool_get_page : Paging → (count : ℕ) → Option (ℕ × Paging)
initial_pool_get_page p count =
    if leb initial_pool_size (p.used_count + count)
    then none
    else some (
      p.pool + page_size * p.used_count,
      record p { used_count = (p.used_count + count) % 2 ^ 8 },
    )

unfoldable pub set_page_table_entry :
    Words → (table index physical_address flags : ℕ) → Option Words
unfolding write_word
set_page_table_entry w table index physical_address flags =
    let new_value = bit_or (bit_or (bit_and physical_address page_addr_mask) page_present) flags in
    let old = w (entry_at table index) in
    if not (old == 0) && not (old == new_value)
    then none
    else some (write_word w (entry_at table index) new_value)

-- A table for the entry `slot`: a new one, if there is none.
unfoldable pub ensure_table : Paging → (slot : ℕ) → Option Paging
unfolding write_word clear_page virtual_to_physical initial_pool_get_page
ensure_table p slot = if is_set (p.words slot) page_present then some p else do
  (table, p') ← initial_pool_get_page p 1
  let entry =
      bit_or (bit_or (bit_or (virtual_to_physical p' table) page_present) page_write) page_user
  some (record p' { words = write_word (clear_page p'.words table) slot entry })

-- The table that the entry `slot` points to.
unfoldable pub table_of : Paging → (slot : ℕ) → ℕ
unfolding physical_to_virtual
table_of p slot = physical_to_virtual p (bit_and (p.words slot) (complement page_flags_mask))

-- `setPageTableEntry` on the tables of `p`.
unfoldable pub set_entry : Paging → (table index physical_address flags : ℕ) → Option Paging
unfolding set_page_table_entry
set_entry p table index physical_address flags = do
  w ← set_page_table_entry p.words table index physical_address flags
  some (record p { words = w })

-- The loop of mapMemory with the rounds left.
unfoldable pub map_loop :
    ℕ → Paging → (physical_address virtual_address size flags : ℕ) → Option Paging
unfolding virtual_to_page_indexes ensure_table table_of set_entry
map_loop zero p pa va size flags = some p
map_loop (suc rounds) p pa va size flags = do
  let idx = virtual_to_page_indexes va
  p1 ← ensure_table p (entry_at p.root idx.l1)
  let pdpt = table_of p1 (entry_at p1.root idx.l1)
  p2 ← ensure_table p1 (entry_at pdpt idx.l2)
  let pd = table_of p2 (entry_at pdpt idx.l2)
  let slot = entry_at pd idx.l3
  let huge =
      (if not (va % size == 0) then none else do
        p3 ← set_entry p2 pd idx.l3 pa (bit_or flags page_size_flag)
        map_loop rounds p3 (add64 pa (page_size * page_entries))
            (add64 va (page_size * page_entries)) size flags)
  let skipped = map_loop rounds p2 pa va size flags
  let small = (do
    p3 ← ensure_table p2 slot
    p4 ← set_entry p3 (table_of p3 slot) idx.l4 pa flags
    map_loop rounds p4 (add64 pa page_size) (add64 va page_size) size flags)
  if size == page_size * page_entries
      then huge
      else if is_set (p2.words slot) page_present && is_set (p2.words slot) page_size_flag
      then skipped
      else small

unfoldable pub map_memory :
    Paging → (physical_address virtual_address size num_pages flags : ℕ) → Option Paging
unfolding map_loop
map_memory p pa va size num_pages flags =
    if not (pa % page_size == 0)
    then none
    else if not (va % page_size == 0)
    then none
    else map_loop num_pages p pa va size flags

-- The size that mapPartial maps.
unfoldable pub partial_size : (physical_address size : ℕ) → ℕ
unfolding make_page_aligned
partial_size pa size =
    let new_size = sub64 (add64 size page_size) (size % page_size) in
    if ltb (add64 (make_page_aligned pa) new_size) (add64 pa size)
    then add64 new_size page_size
    else new_size

unfoldable pub map_partial :
    Paging → (physical_address virtual_address size flags : ℕ) → Option Paging
unfolding partial_size map_memory make_page_aligned
map_partial p pa va size flags =
    map_memory p (make_page_aligned pa) (make_page_aligned va) page_size
      (partial_size pa size / page_size) flags
