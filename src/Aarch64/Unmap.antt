-- ===== src/Aarch64/Unmap.antt =====
-- unmapMemory with pages of 4096 bytes, on the entries that map memory.
use dvnetos.Base.{
  ℕ, zero, suc, ◌+◌, ◌*◌, ◌%◌, ◌/◌, ◌^◌, ◌<◌, ◌≡◌, ◌≢◌, refl, ◌∙◌, sym, ap, inl, inr, arith, Bool,
  true, false, none, some, List, [], ◌∷◌, length, add64, bit_and, bit_and-ones, Bool-cases,
}
use dvnetos.Paging.{Words, entry_at, is_set, page_size}
use dvnetos.Paging.Tree.Leaf.{written-IsTree, entry-written_self, entry-written_other}
use dvnetos.Paging.View.Write.{same_path, same_path-eq, same_path_refl}
use dvnetos.Aarch64.{
  Paging, Indexes, virtual_to_page_indexes, root_of, table_of, page_valid, page_table, clear_entry,
  clear_page_table_entry, unmap_page, unmap_loop, unmap_memory,
}
use dvnetos.Aarch64.View.{
  roots, next, tables, entries, IsTables, half, path, root-at, tables-none, entries-none,
  invalid-table, block-table, valid-table,
}

abbrev pub with_words : Paging → Words → Paging
with_words p w = record p { words = w }

-- From the words of `p` to `w`, the entry at `q` has been cleared, and no other.
record Clears (p : Paging) (w : Words) (q : List ℕ) : Type 0 where
  tree : IsTables (with_words p w)
  gone : entries (with_words p w) q ≡ 0
  others : (js : List ℕ) → js ≢ q → entries (with_words p w) js ≡ entries p js

same-Clears : (p : Paging) (q : List ℕ) → IsTables p → entries p q ≡ 0 → Clears p p.words q
same-Clears p q tree free = record { tree = tree; gone = free; others = λ js other. refl }

clear_page_table_entry-Clears :
    (p : Paging) (i : ℕ) (is : List ℕ) (t : ℕ)
    → IsTables p
    → tables p is ≡ some t
    → i < 512
    → length is ≡ 4
    → Clears p (clear_page_table_entry p.words t i) (i ∷ is)
unfolding clear_page_table_entry
clear_page_table_entry-Clears p i is t tree at bound four = record {
  tree =
      written-IsTree (roots p) (next p) p.words p.pool p.used_count tree i is t 0 at bound
        (ends (p.words (entry_at t i))) (ends 0);
  gone =
      entry-written_self (roots p) (next p) p.words p.pool p.used_count tree i is t 0 at bound
        (ends (p.words (entry_at t i))) (ends 0);
  others =
      entry-written_other (roots p) (next p) p.words p.pool p.used_count tree i is t 0 at bound
        (ends (p.words (entry_at t i))) (ends 0);
}
  where
    ends : (e : ℕ) → next p (length is) e ≡ none
    ends e = rw four refl

index-bound : (a : ℕ) → bit_and a 0x1FF < 512
index-bound a = omega (arith, bit_and-ones 9 a)

-- A round clears the entry of its page, whatever there is on the way to it.
unmap_page-Clears :
    (p : Paging) (va : ℕ)
    → IsTables p
    → (w : Words) × (unmap_page p va page_size ≡ some (with_words p w)) × Clears p w (path p va)
unfolding unmap_page path virtual_to_page_indexes clear_entry
unmap_page-Clears p va tree = elim (Bool-cases (is_set (p.words slot1) page_valid)) [
  | inr invalid ↦
      let no2 = invalid-table p (half i.higher_half ∷ []) i.l1 root at1 b1 invalid in
      let no3 = tables-none p (half i.higher_half ∷ []) i.l1 i.l2 no2 in
      let no4 = tables-none p _ i.l2 i.l3 no3 in
      (p.words, rw invalid refl, same-Clears p _ tree (entries-none p _ i.l4 no4))
  | inl valid1 ↦
      let at2 = valid-table p (half i.higher_half ∷ []) i.l1 root at1 b1 refl valid1 refl in
      elim (Bool-cases (is_set (p.words slot2) page_valid)) [
        | inr invalid ↦
            let no3 = invalid-table p _ i.l2 (table_of p slot1) at2 b2 invalid in
            let no4 = tables-none p _ i.l2 i.l3 no3 in
            (p.words, rw (valid1, invalid) refl, same-Clears p _ tree (entries-none p _ i.l4 no4))
        | inl valid2 ↦
            let at3 = valid-table p _ i.l2 (table_of p slot1) at2 b2 refl valid2 refl in
            elim (Bool-cases (is_set (p.words slot3) page_valid)) [
              | inr invalid ↦
                  let no4 = invalid-table p _ i.l3 (table_of p slot2) at3 b3 invalid in
                  (
                    p.words,
                    rw (valid1, valid2, invalid) refl,
                    same-Clears p _ tree (entries-none p _ i.l4 no4),
                  )
              | inl valid3 ↦ elim (Bool-cases (is_set (p.words slot3) page_table)) [
                | inr block ↦
                    let no4 = block-table p _ i.l3 (table_of p slot2) at3 b3 refl block in
                    (
                      p.words,
                      rw (valid1, valid2, valid3, block) refl,
                      same-Clears p _ tree (entries-none p _ i.l4 no4),
                    )
                | inl linked ↦
                    let at4 =
                      valid-table p _ i.l3 (table_of p slot2) at3 b3 refl valid3 (rw linked refl) in
                    (
                      clear_page_table_entry p.words (table_of p slot3) i.l4,
                      rw (valid1, valid2, valid3, linked) refl,
                      clear_page_table_entry-Clears p i.l4 _ (table_of p slot3) tree at4 b4 refl,
                    )
              ]
            ]
      ]
]
  where
    i : Indexes
    i = virtual_to_page_indexes p va

    root : ℕ
    root = root_of p i.higher_half

    slot1 : ℕ
    slot1 = entry_at root i.l1

    slot2 : ℕ
    slot2 = entry_at (table_of p slot1) i.l2

    slot3 : ℕ
    slot3 = entry_at (table_of p slot2) i.l3

    at1 : tables p (half i.higher_half ∷ []) ≡ some root
    at1 = root-at p i.higher_half

    b1 : i.l1 < 512
    b1 = index-bound (va / 2 ^ 39)

    b2 : i.l2 < 512
    b2 = index-bound (va / 2 ^ 30)

    b3 : i.l3 < 512
    b3 = index-bound (va / 2 ^ 21)

    b4 : i.l4 < 512
    b4 = index-bound (va / 2 ^ 12)

-- The entries of a range of pages are cleared, and no others.
record ClearsRange (n : ℕ) (p : Paging) (w : Words) (va : ℕ) : Type 0 where
  tree : IsTables (with_words p w)
  gone : (j : ℕ) → j < n → entries (with_words p w) (path p (va + 4096 * j)) ≡ 0
  stays : (js : List ℕ) → entries p js ≡ 0 → entries (with_words p w) js ≡ 0
  others :
      (js : List ℕ)
      → ((j : ℕ) → j < n → js ≢ path p (va + 4096 * j))
      → entries (with_words p w) js ≡ entries p js

Clears-stays :
    (p : Paging) (w : Words) (q js : List ℕ)
    → Clears p w q
    → entries p js ≡ 0
    → entries (with_words p w) js ≡ 0
Clears-stays p w q js clears free = elim (Bool-cases (same_path js q)) [
  | inl same ↦ ap (entries (with_words p w)) (same_path-eq js q same) ∙ clears.gone
  | inr other ↦
      clears.others js (λ same. differ other (ap (λ ks. same_path ks q) same ∙ same_path_refl q))
      ∙ free
]
  where
    differ : {b : Bool} → b ≡ false → b ≢ true
    differ e e' = cc

start : (a : ℕ) → a ≡ a + 4096 * 0
start a = omega arith

shift : (a j : ℕ) → a + 4096 + 4096 * j ≡ a + 4096 * suc j
shift a j = omega arith

step-ClearsRange :
    (n : ℕ) (p : Paging) (w w' : Words) (va : ℕ)
    → Clears p w (path p va)
    → ClearsRange n (with_words p w) w' (va + 4096)
    → ClearsRange (suc n) p w' va
unfolding path
step-ClearsRange n p w w' va one rest = record {
  tree = rest.tree;
  gone = first_or_later;
  stays = λ js free. rest.stays js (Clears-stays p w (path p va) js one free);
  others = λ js other.
      rest.others js (λ j less h. other (suc j) (omega arith) (h ∙ ap (path p) (shift va j)))
      ∙ one.others js (λ h. other 0 (omega arith) (h ∙ ap (path p) (start va)));
}
  where
    first_or_later : (j : ℕ) → j < suc n → entries (with_words p w') (path p (va + 4096 * j)) ≡ 0
    first_or_later zero less =
        ap (λ a. entries (with_words p w') (path p a)) (sym (start va))
        ∙ rest.stays (path p va) one.gone
    first_or_later (suc j) less =
        ap (λ a. entries (with_words p w') (path p a)) (sym (shift va j))
        ∙ rest.gone j (omega arith)

unmap_loop-ClearsRange :
    (n : ℕ) (p : Paging) (va : ℕ)
    → IsTables p
    → va + 4096 * n < 2 ^ 64
    → (w : Words) × (unmap_loop n p va page_size ≡ some (with_words p w)) × ClearsRange n p w va
unfolding unmap_loop
unmap_loop-ClearsRange zero p va tree bound = (
  p.words,
  refl,
  record {
    tree = tree;
    gone = λ j less. absurd (omega arith);
    stays = λ js free. free;
    others = λ js other. refl;
  },
)
unmap_loop-ClearsRange (suc n) p va tree bound =
    let (w, runs, one) = unmap_page-Clears p va tree in
    let (w', runs', rest) =
      unmap_loop-ClearsRange n (with_words p w) (va + 4096) one.tree (omega arith) in
    let next_va : add64 va page_size ≡ va + 4096 = omega arith in
    (w', rw (runs, next_va) runs', step-ClearsRange n p w w' va one rest)

-- unmapMemory of pages of 4096 bytes never panics at an aligned address, on any tree of tables and
-- whatever is mapped in the range: it returns, the tables are a tree still, no fourth table has an
-- entry for a page of the range (a block of the third table around it stays), and the entry at every
-- other path of either half is what it was.
pub unmap_memory-clears :
    (p : Paging) (va n : ℕ)
    → IsTables p
    → va % page_size ≡ 0
    → va + 4096 * n < 2 ^ 64
    → (w : Words) × (unmap_memory p va n page_size ≡ some (with_words p w))
      × IsTables (with_words p w)
      × ((j : ℕ) → j < n → entries (with_words p w) (path p (va + 4096 * j)) ≡ 0)
      × ((js : List ℕ)
          → ((j : ℕ) → j < n → js ≢ path p (va + 4096 * j))
          → entries (with_words p w) js ≡ entries p js)
unfolding unmap_memory
unmap_memory-clears p va n tree aligned bound =
    let (w, runs, range) = unmap_loop-ClearsRange n p va tree bound in
    (w, rw aligned runs, range.tree, range.gone, range.others)
