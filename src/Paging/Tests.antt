-- ===== src/Paging/Tests.antt =====
-- The theorems on page tables at concrete tables and addresses.
use dvnetos.Base.{
  ℕ, zero, suc, ◌+◌, ◌*◌, ◌%◌, ◌≤◌, ◌<◌, ◌≡◌, ◌≢◌, refl, inr, arith, Option, none, some, List, [],
  ◌∷◌, length,
}
use dvnetos.Paging.{
  Words, Paging, page_indexes_to_virtual, virtual_to_page_indexes, make_page_aligned, partial_size,
  page_size, map_memory, map_loop,
}
use dvnetos.Paging.Addresses.{page_indexes_to_virtual-indexes, partial_size-covers}
use dvnetos.Paging.Entry.{Keeps, map_memory-Keeps}
use dvnetos.Paging.Walk.{page_table_to_ranges}
use dvnetos.Paging.Ranges.{report}
use dvnetos.Paging.Calls.{table_calls}
use dvnetos.Paging.Calls.Report.{Reports, page_table_to_ranges-Reports}
use dvnetos.Paging.Tree.{entry}
use dvnetos.Paging.View.{entries, IsGood, path}
use dvnetos.Paging.View.Fresh.{IsFresh, fresh-IsGood}
use dvnetos.Paging.View.Write.{new_entry}
use dvnetos.Paging.View.Map.{map_view, RunShows, map_loop-RunShows}
use dvnetos.Paging.View.Translate.{map_memory-translates}

abbrev empty_words : Words
empty_words x = 0

-- The first page of the pool is the root.
abbrev fresh : Paging
fresh = record {
  root = 0x100000;
  page_table_offset = 0;
  words = empty_words;
  pool = 0x100000;
  used_count = 1;
}

abbrev or_fresh : Option Paging → Paging
or_fresh none = fresh
or_fresh (some p) = p

abbrev mapped : Paging
mapped = or_fresh (map_memory fresh 0x7000 0x5000 4096 2 2)

-- The second of two pages is mapped with its flags, in the fourth page of the pool.
second_page : mapped.words (0x103000 + 8 * 6) ≡ 0x8003
unfolding map_memory
second_page = refl

map_memory-Keeps_example : Keeps fresh mapped
unfolding map_memory
map_memory-Keeps_example = map_memory-Keeps fresh mapped 0x7000 0x5000 4096 2 2 refl

page_indexes_to_virtual-indexes_example :
    (let i = virtual_to_page_indexes 0xFFFF800000123456 in
      page_indexes_to_virtual (i.l1 ∷ i.l2 ∷ i.l3 ∷ i.l4 ∷ []))
    ≡ make_page_aligned 0xFFFF800000123456
page_indexes_to_virtual-indexes_example =
    page_indexes_to_virtual-indexes 0xFFFF800000123456 (inr (omega arith, omega arith))

partial_size-covers_example :
    (0x1FF0 + 0x20 ≤ make_page_aligned 0x1FF0 + partial_size 0x1FF0 0x20)
    × (partial_size 0x1FF0 0x20 % page_size ≡ 0)
    × (partial_size 0x1FF0 0x20 ≤ 0x20 + 8192)
    × (0x1FF0 % page_size ≡ 0 → 0x20 % page_size ≡ 0 → partial_size 0x1FF0 0x20 ≡ 0x20 + page_size)
partial_size-covers_example = partial_size-covers 0x1FF0 0x20 (omega arith)

-- The ranges of the tables in which one page is mapped.
page_table_to_ranges-Reports_example :
    Reports
      (table_calls mapped.words (λ a. a) 0x100000)
      (page_table_to_ranges report (λ bs. mapped.words) (λ a. a) 0x100000 [])
page_table_to_ranges-Reports_example = page_table_to_ranges-Reports mapped.words (λ a. a) 0x100000

fresh-IsFresh : IsFresh fresh
fresh-IsFresh = record {
  first = refl;
  one = refl;
  cleared = λ i less. refl;
  above = omega arith;
  aligned = refl;
  physical = omega arith;
  virtual = omega arith;
}

free_range : (j : ℕ) → j < 2 → entries fresh (path (0x5000 + 4096 * j)) ≡ 0
unfolding path entry
free_range zero less = refl
free_range (suc zero) less = refl
free_range (suc (suc j)) less = absurd (omega arith)

map_memory-translates_example :
    (p' : Paging) × (map_memory fresh 0x7000 0x5000 4096 2 2 ≡ some p')
    × IsGood p'
    × ((j : ℕ) → j < 2 → entries p' (path (0x5000 + 4096 * j)) ≡ new_entry (0x7000 + 4096 * j) 2)
    × ((js : List ℕ)
        → length js ≡ 5
        → ((j : ℕ) → j < 2 → js ≢ path (0x5000 + 4096 * j))
        → entries p' js ≡ entries fresh js)
map_memory-translates_example =
    map_memory-translates fresh 0x7000 0x5000 2 2 (fresh-IsGood fresh fresh-IsFresh) refl refl
      (omega arith) (omega arith) (omega arith) free_range

map_loop-RunShows_example :
    RunShows
      (map_view 2 (entries fresh) 0x7000 0x5000 2)
      (map_loop 2 fresh 0x7000 0x5000 page_size 2)
map_loop-RunShows_example =
    map_loop-RunShows 2 fresh (entries fresh) 0x7000 0x5000 2
      (record { good = fresh-IsGood fresh fresh-IsFresh; mapped = λ js five. refl }) (omega arith)
