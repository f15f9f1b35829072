-- ===== src/Paging/View/Ensure.antt =====
-- A table is made sure of.
use dvnetos.Base.{
  ℕ, ◌+◌, ◌-◌, ◌*◌, ◌%◌, ◌/◌, ◌^◌, ◌≤◌, ◌<◌, ◌≡◌, ◌⊎◌, refl, ◌∙◌, sym, ap, inl, inr, arith, Bool,
  true, false, not, ◌&&◌, none, some, List, [], ◌∷◌, length, ltb, leb, ◌==◌, if◌then◌else◌, add64,
  bit_and, bit_or, bit_or-flags, Bool-cases, zero-bit_and,
}
use dvnetos.Paging.{
  Paging, entry_at, write_word, clear_page, page_present, page_size_flag, page_flags_mask,
  complement, is_set, initial_pool_size, initial_pool_get_page, ensure_table, table_of,
  physical_to_virtual, virtual_to_physical,
}
use dvnetos.Paging.Tree.{table_at-cons, entry}
use dvnetos.Paging.Tree.Link.{
  table_at-old, table_at-linked, linked-IsTree, entry-linked, entry-linked_self,
}
use dvnetos.Paging.View.{roots, next, tables, entries, IsGood, link-flags, link-address}

-- The table behind entry `i` of the table at `t` is there.
pub record Ensured (p p' : Paging) (i : ℕ) (is : List ℕ) (t : ℕ) : Type 0 where
  pub good : IsGood p'
  pub more_used : p'.used_count ≤ p.used_count + 1
  pub same_root : p'.root ≡ p.root
  pub tables_stay : (js : List ℕ) (u : ℕ) → tables p js ≡ some u → tables p' js ≡ some u
  pub leaves_stay : (js : List ℕ) → length js ≡ 5 → entries p' js ≡ entries p js
  pub there : tables p' (i ∷ is) ≡ some (table_of p' (entry_at t i))
  pub present : is_set (p'.words (entry_at t i)) page_present ≡ true

module _ (p : Paging) (good : IsGood p) (i : ℕ) (is : List ℕ) (t : ℕ) (at : tables p is ≡ some t)
    (bound : i < 512) (depth : length is < 4) where
  pub entries-slot : entries p (i ∷ is) ≡ p.words (entry_at t i)
  unfolding entry
  entries-slot = let b : ltb i 512 ≡ true = ground arith in rw (at, b) refl

  not_huge :
      (n : ℕ) → length is ≡ n → (n == 3 && is_set (p.words (entry_at t i)) page_size_flag) ≡ false
  not_huge n e = elim (Bool-cases (n == 3)) [
    | inl three ↦
        let size : is_set (entries p (i ∷ is)) page_size_flag ≡ false =
          good.small i is (ground (arith, e, three)) in
        rw (three, sym entries-slot) size
    | inr other ↦ rw other refl
  ]

  present-Ensured : is_set (p.words (entry_at t i)) page_present ≡ true → Ensured p p i is t
  unfolding table_of physical_to_virtual
  present-Ensured set = record {
    good = good;
    more_used = omega arith;
    same_root = refl;
    tables_stay = λ js u h. h;
    leaves_stay = λ js h. refl;
    there =
        let b : ltb i 512 ≡ true = ground arith in
        let d : ltb (length is) 4 ≡ true = ground arith in
        table_at-cons (roots p) (next p) p.words i is t at
        ∙ rw (b, d, set, not_huge (length is) refl) refl;
    present = set;
  }

  module _ (room : p.used_count + 1 < initial_pool_size)
      (absent : is_set (p.words (entry_at t i)) page_present ≡ false) where
    abbrev new : ℕ
    new = p.pool + 4096 * p.used_count

    abbrev frame : ℕ
    frame = (p.pool - p.page_table_offset) / 4096 + p.used_count

    abbrev link : ℕ
    link = bit_or (bit_or (bit_or (virtual_to_physical p new) 1) 2) 4

    abbrev grown : Paging
    grown = record p {
      words = write_word (clear_page p.words new) (entry_at t i) link;
      used_count = (p.used_count + 1) % 2 ^ 8;
    }

    frame-physical : virtual_to_physical p new ≡ frame * 4096
    unfolding virtual_to_physical
    frame-physical = omega (arith, good.above, good.aligned, good.virtual, good.physical)

    link-sum : link ≡ frame * 4096 + 7
    link-sum = rw frame-physical (bit_or-flags frame)

    next-link : next p (length is) link ≡ some new
    next-link =
        let d : ltb (length is) 4 ≡ true = ground arith in
        let back : add64 (frame * 4096) p.page_table_offset ≡ new =
          omega (arith, good.above, good.aligned, good.virtual) in
        let small : frame < 2 ^ 40 = omega (arith, good.physical) in
        rw (link-sum, d, (link-flags frame).0, (link-flags frame).1, link-address frame small, back)
          (unhuge (length is == 3))
      where
        unhuge : (b : Bool) → (if not (b && false) then some new else none) ≡ some new
        unhuge true = refl
        unhuge false = refl

    free : next p (length is) (p.words (entry_at t i)) ≡ none
    free = rw absent (no-link (ltb (length is) 4))
      where
        no-link :
            (b : Bool)
            → (if b && false
                then some (
                    add64
                      (bit_and (p.words (entry_at t i)) (complement page_flags_mask))
                      p.page_table_offset)
                else none)
              ≡ none
        no-link true = refl
        no-link false = refl

    zero_ends : (n : ℕ) → next p n 0 ≡ none
    zero_ends n = rw (zero-bit_and 1) (no-link (ltb n 4))
      where
        no-link :
            (b : Bool)
            → (if b && false
                then some (add64 (bit_and 0 (complement page_flags_mask)) p.page_table_offset)
                else none)
              ≡ none
        no-link true = refl
        no-link false = refl

    count : (p.used_count + 1) % 2 ^ 8 ≡ p.used_count + 1
    count = omega arith

    entries-grown :
        (j : ℕ) (js : List ℕ) → (entries grown (j ∷ js) ≡ entries p (j ∷ js)) ⊎ (j ∷ js ≡ i ∷ is)
    entries-grown =
        entry-linked (roots p) (next p) zero_ends p.words p.pool p.used_count good.tree i is t link
          at bound free next-link

    entries-link : entries grown (i ∷ is) ≡ frame * 4096 + 7
    entries-link =
        entry-linked_self (roots p) (next p) zero_ends p.words p.pool p.used_count good.tree i is t
          link at bound free next-link
        ∙ link-sum

    grown-IsGood : IsGood grown
    grown-IsGood = record {
      tree = rw count (
          linked-IsTree (roots p) (next p) zero_ends p.words p.pool p.used_count good.tree i is t
            link at bound free next-link);
      small = λ j js three. elim (entries-grown j js) [
        | inl kept ↦ rw kept (good.small j js three)
        | inr same ↦ rw (same, entries-link) (link-flags frame).1
      ];
      above = good.above;
      aligned = good.aligned;
      physical = good.physical;
      virtual = good.virtual;
      count = omega arith;
    }

    slot-link : grown.words (entry_at t i) ≡ frame * 4096 + 7
    unfolding write_word
    slot-link = ground (arith, link-sum)

    table_of-grown : table_of grown (entry_at t i) ≡ new
    unfolding table_of physical_to_virtual
    table_of-grown =
        let small : frame < 2 ^ 40 = omega (arith, good.physical) in
        rw (slot-link, link-address frame small)
          (omega (arith, good.above, good.aligned, good.virtual))

    leaves-grown : (js : List ℕ) → length js ≡ 5 → entries grown js ≡ entries p js
    leaves-grown [] five = absurd (omega arith)
    leaves-grown (j ∷ js) five = elim (entries-grown j js) [
      | inl kept ↦ kept
      | inr same ↦ absurd (omega (arith, ap length same))
    ]

    grown-Ensured : Ensured p grown i is t
    grown-Ensured = record {
      good = grown-IsGood;
      more_used = omega arith;
      same_root = refl;
      tables_stay =
          table_at-old (roots p) (next p) zero_ends p.words p.pool p.used_count good.tree i is t
            link at bound free next-link;
      leaves_stay = leaves-grown;
      there =
          table_at-linked (roots p) (next p) zero_ends p.words p.pool p.used_count good.tree i is t
            link at bound free next-link
          ∙ ap some (sym table_of-grown);
      present = rw slot-link (link-flags frame).0;
    }

  -- With a page left in the pool, the table is there afterwards, and no entry that maps memory has
  -- changed.
  pub ensure_table-Ensured :
      p.used_count + 1 < initial_pool_size
      → (p' : Paging) × (ensure_table p (entry_at t i) ≡ some p') × Ensured p p' i is t
  unfolding ensure_table initial_pool_get_page
  ensure_table-Ensured room = elim (Bool-cases (is_set (p.words (entry_at t i)) page_present)) [
    | inl set ↦ (p, rw set refl, present-Ensured set)
    | inr absent ↦
        let enough : leb initial_pool_size (p.used_count + 1) ≡ false = ground (arith, room) in
        (grown room absent, rw (absent, enough) refl, grown-Ensured room absent)
  ]
