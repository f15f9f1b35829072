-- ===== src/Paging/View.antt =====
-- The tables of x86-64 as a tree with four levels, and what mapMemory does to its entries.
pub mod Ensure
pub mod Fresh
pub mod Descent
pub mod Write
pub mod Map
pub mod Translate
use dvnetos.Base.{
  ℕ, zero, suc, ◌+◌, ◌-◌, ◌*◌, ◌%◌, ◌/◌, ◌^◌, ◌≤◌, ◌<◌, ◌≡◌, refl, ◌∙◌, sym, ap, arith, Bool, true,
  false, not, ◌&&◌, Option, none, some, List, [], ◌∷◌, length, ltb, ◌==◌, if◌then◌else◌, add64,
  sub64, bit_and, bit_or, bit_or-flags, bit_and-shift, bit_and-ones,
}
use dvnetos.Paging.{
  Words, Paging, Indexes, virtual_to_page_indexes, entry_at, page_present, page_size_flag,
  page_flags_mask, complement, is_set, initial_pool_size, page_addr_mask,
}
use dvnetos.Paging.Tree.{table_at, entry, IsTree}

-- There is one root.
abbrev pub roots : Paging → ℕ → Option ℕ
roots p r = if r == 0 then some p.root else none

-- The table that an entry of a table points to; the entries of the fourth table, and those with the
-- size flag of the third, map memory.
abbrev pub next : Paging → (depth entry : ℕ) → Option ℕ
next p depth e =
    if ltb depth 4 && (is_set e page_present && not (depth == 3 && is_set e page_size_flag))
    then some (add64 (bit_and e (complement page_flags_mask)) p.page_table_offset)
    else none

abbrev pub tables : Paging → List ℕ → Option ℕ
tables p = table_at (roots p) (next p) p.words

abbrev pub entries : Paging → List ℕ → ℕ
entries p = entry (roots p) (next p) p.words

-- The pool stands at the table offset in physical memory, and no entry of the third tables maps memory.
pub record IsGood (p : Paging) : Type 0 where
  pub tree : IsTree (roots p) (next p) p.words p.pool p.used_count
  pub small :
      (i : ℕ) (is : List ℕ) → length is ≡ 3 → is_set (entries p (i ∷ is)) page_size_flag ≡ false
  pub above : p.page_table_offset ≤ p.pool
  pub aligned : (p.pool - p.page_table_offset) % 4096 ≡ 0
  pub physical : p.pool - p.page_table_offset + 4096 * initial_pool_size ≤ 2 ^ 52
  pub virtual : p.pool + 4096 * initial_pool_size ≤ 2 ^ 64
  pub count : p.used_count ≤ initial_pool_size

-- The path of an address, down to the entry that maps it.
unfoldable pub path : ℕ → List ℕ
unfolding virtual_to_page_indexes
path va = let i = virtual_to_page_indexes va in i.l4 ∷ i.l3 ∷ i.l2 ∷ i.l1 ∷ 0 ∷ []

-- The entry that links the table at the physical page `a`.
pub link-flags :
    (a : ℕ)
    → (is_set (a * 4096 + 7) page_present ≡ true) × (is_set (a * 4096 + 7) page_size_flag ≡ false)
link-flags a =
    let low : bit_and (a * 4096 + 7) 1 ≡ (a * 4096 + 7) % 2 = bit_and-ones 1 (a * 4096 + 7) in
    let bit : bit_and (a * 4096 + 7) (1 * 2 ^ 7) ≡ (a * 4096 + 7) / 2 ^ 7 % 2 * 2 ^ 7 =
      bit_and-shift 7 (a * 4096 + 7) 1
      ∙ ap (λ x. x * 2 ^ 7) (bit_and-ones 1 ((a * 4096 + 7) / 2 ^ 7)) in
    (ground (arith, low), ground (arith, bit))

pub link-address :
    (a : ℕ) → a < 2 ^ 40 → bit_and (a * 4096 + 7) (complement page_flags_mask) ≡ a * 4096
link-address a h =
    bit_and-shift 12 (a * 4096 + 7) (2 ^ 40 - 1)
    ∙ ap (λ x. x * 2 ^ 12) (bit_and-ones 40 ((a * 4096 + 7) / 2 ^ 12))
    ∙ omega arith
