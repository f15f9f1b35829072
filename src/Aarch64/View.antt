-- ===== src/Aarch64/View.antt =====
-- The tables of aarch64 as a tree with two roots and four levels.
use dvnetos.Base.{
  ℕ, ◌<◌, ◌≡◌, refl, ◌∙◌, arith, Bool, true, false, not, ◌&&◌, Option, none, some, List, [], ◌∷◌,
  length, ltb, ◌==◌, if◌then◌else◌, add64, bit_and,
}
use dvnetos.Paging.{entry_at, complement, is_set}
use dvnetos.Paging.Tree.{table_at, table_at-cons, entry, IsTree}
use dvnetos.Aarch64.{
  Paging, virtual_to_page_indexes, root_of, table_of, physical_to_virtual, page_valid, page_table,
  page_flags_mask,
}

-- The root of the lower half is behind index 0, that of the higher half behind index 1.
abbrev pub roots : Paging → ℕ → Option ℕ
roots p r = if r == 0 then some p.root1 else if r == 1 then some p.root2 else none

-- The table that an entry of a table points to; the entries of the fourth table, and those of the third
-- that are no table, map memory.
abbrev pub next : Paging → (depth entry : ℕ) → Option ℕ
next p depth e =
    if ltb depth 4 && (is_set e page_valid && not (depth == 3 && not (is_set e page_table)))
    then some (add64 (bit_and e (complement page_flags_mask)) p.page_table_offset)
    else none

abbrev pub tables : Paging → List ℕ → Option ℕ
tables p = table_at (roots p) (next p) p.words

abbrev pub entries : Paging → List ℕ → ℕ
entries p = entry (roots p) (next p) p.words

abbrev pub IsTables : Paging → Type 0
IsTables p = IsTree (roots p) (next p) p.words p.pool p.used_count

abbrev pub half : Bool → ℕ
half higher = if higher then 1 else 0

-- The path of an address, down to the entry that maps it.
unfoldable pub path : Paging → ℕ → List ℕ
unfolding virtual_to_page_indexes
path p va =
    let i = virtual_to_page_indexes p va in i.l4 ∷ i.l3 ∷ i.l2 ∷ i.l1 ∷ half i.higher_half ∷ []

pub root-at : (p : Paging) (higher : Bool) → tables p (half higher ∷ []) ≡ some (root_of p higher)
unfolding table_at root_of
root-at p true = refl
root-at p false = refl

pub ends : {A : Type 0} → (b : Bool) (o : Option A) → (if b && false then o else none) ≡ none
ends true o = refl
ends false o = refl

module _ (p : Paging) (is : List ℕ) where
  -- Behind an entry without a table there is none, and nothing is mapped.
  pub tables-none : (j i : ℕ) → tables p (j ∷ is) ≡ none → tables p (i ∷ j ∷ is) ≡ none
  unfolding table_at
  tables-none j i gone = rw gone refl

  pub entries-none : (i : ℕ) → tables p is ≡ none → entries p (i ∷ is) ≡ 0
  unfolding entry
  entries-none i gone = rw gone refl

  module _ (i t : ℕ) (at : tables p is ≡ some t) (bound : i < 512) where
    pub entries-slot : entries p (i ∷ is) ≡ p.words (entry_at t i)
    unfolding entry
    entries-slot = let b : ltb i 512 ≡ true = ground arith in rw (at, b) refl

    tables-cons : tables p (i ∷ is) ≡ next p (length is) (p.words (entry_at t i))
    tables-cons =
        let b : ltb i 512 ≡ true = ground arith in
        table_at-cons (roots p) (next p) p.words i is t at ∙ rw b refl

    pub invalid-table :
        is_set (p.words (entry_at t i)) page_valid ≡ false → tables p (i ∷ is) ≡ none
    invalid-table invalid = tables-cons ∙ rw invalid (ends (ltb (length is) 4) _)

    pub block-table :
        length is ≡ 3
        → is_set (p.words (entry_at t i)) page_table ≡ false
        → tables p (i ∷ is) ≡ none
    block-table three block =
        tables-cons ∙ rw (three, block) (ends (is_set (p.words (entry_at t i)) page_valid) _)

    pub valid-table :
        ltb (length is) 4 ≡ true
        → is_set (p.words (entry_at t i)) page_valid ≡ true
        → (length is == 3 && not (is_set (p.words (entry_at t i)) page_table)) ≡ false
        → tables p (i ∷ is) ≡ some (table_of p (entry_at t i))
    unfolding table_of physical_to_virtual
    valid-table depth valid linked = tables-cons ∙ rw (depth, valid, linked) refl
