-- ===== src/Paging/View/Write.antt =====
-- The entry of a page is written.
use dvnetos.Base.{
  ℕ, ◌<◌, ◌≡◌, ◌≢◌, refl, ◌∙◌, ap, inl, inr, arith, Bool, true, false, not, ◌&&◌, none, some, List,
  [], ◌∷◌, length, ltb, ◌==◌, if◌then◌else◌, bit_and, bit_or, Bool-cases,
}
use dvnetos.Paging.{
  Paging, entry_at, write_word, page_present, page_size_flag, is_set, set_entry,
  set_page_table_entry, page_addr_mask,
}
use dvnetos.Paging.Tree.{entry}
use dvnetos.Paging.Tree.Leaf.{written-IsTree, entry-written_self, entry-written_other}
use dvnetos.Paging.View.{roots, next, tables, entries, IsGood}

-- `newValue` of setPageTableEntry
abbrev pub new_entry : (physical_address flags : ℕ) → ℕ
new_entry pa flags = bit_or (bit_or (bit_and pa page_addr_mask) page_present) flags

-- What is mapped: the entry at each path of four indexes behind the root.
abbrev pub View : Type 0
View = List ℕ → ℕ

abbrev pub same_path : List ℕ → List ℕ → Bool
same_path [] [] = true
same_path (i ∷ is) (j ∷ js) = i == j && same_path is js
same_path _ _ = false

abbrev pub update : View → List ℕ → ℕ → View
update f q e js = if same_path js q then e else f js

-- The tables map what the view says.
pub record Shows (p : Paging) (f : View) : Type 0 where
  pub good : IsGood p
  pub mapped : (js : List ℕ) → length js ≡ 5 → entries p js ≡ f js

pub same_path-eq : (js q : List ℕ) → same_path js q ≡ true → js ≡ q
same_path-eq [] [] h = refl
same_path-eq [] (j ∷ js) h = cc
same_path-eq (i ∷ is) [] h = cc
same_path-eq (i ∷ is) (j ∷ js) h =
    let heads : i ≡ j = ground (arith, h) in
    let tails : same_path is js ≡ true = ground (arith, h) in
    rw (heads, same_path-eq is js tails) refl

pub same_path_refl : (q : List ℕ) → same_path q q ≡ true
same_path_refl [] = refl
same_path_refl (i ∷ is) = ground (arith, same_path_refl is)

module _ (p : Paging) (good : IsGood p) (i : ℕ) (is : List ℕ) (t : ℕ) (at : tables p is ≡ some t)
    (bound : i < 512) (depth : length is ≡ 4) (pa flags : ℕ) where
  abbrev pub after : Paging
  after = record p { words = write_word p.words (entry_at t i) (new_entry pa flags) }

  ends : (e : ℕ) → next p (length is) e ≡ none
  ends e = rw depth refl

  entries-other : (js : List ℕ) → js ≢ i ∷ is → entries after js ≡ entries p js
  entries-other =
      entry-written_other (roots p) (next p) p.words p.pool p.used_count good.tree i is t
        (new_entry pa flags) at bound (ends _) (ends _)

  entries_self : entries after (i ∷ is) ≡ new_entry pa flags
  entries_self =
      entry-written_self (roots p) (next p) p.words p.pool p.used_count good.tree i is t
        (new_entry pa flags) at bound (ends _) (ends _)

  after-IsGood : IsGood after
  after-IsGood = record {
    tree =
        written-IsTree (roots p) (next p) p.words p.pool p.used_count good.tree i is t
          (new_entry pa flags) at bound (ends _) (ends _);
    small = λ j js three.
        ap (λ e. is_set e page_size_flag)
          (entries-other (j ∷ js) (λ same. absurd (omega (arith, ap length same))))
        ∙ good.small j js three;
    above = good.above;
    aligned = good.aligned;
    physical = good.physical;
    virtual = good.virtual;
    count = good.count;
  }

  slot-entry : p.words (entry_at t i) ≡ entries p (i ∷ is)
  unfolding entry
  slot-entry = let b : ltb i 512 ≡ true = ground arith in rw (at, b) refl

  module _ (f : View) (mapped : (js : List ℕ) → length js ≡ 5 → entries p js ≡ f js) where
    old-entry : p.words (entry_at t i) ≡ f (i ∷ is)
    old-entry = slot-entry ∙ mapped (i ∷ is) (omega arith)

    pub set-conflict :
        (not (f (i ∷ is) == 0) && not (f (i ∷ is) == new_entry pa flags)) ≡ true
        → set_entry p t i pa flags ≡ none
    unfolding set_entry set_page_table_entry
    set-conflict clash = rw (old-entry, clash) refl

    pub set-after :
        (not (f (i ∷ is) == 0) && not (f (i ∷ is) == new_entry pa flags)) ≡ false
        → set_entry p t i pa flags ≡ some after
    unfolding set_entry set_page_table_entry
    set-after agrees = rw (old-entry, agrees) refl

    pub after-Shows : Shows after (update f (i ∷ is) (new_entry pa flags))
    after-Shows = record {
      good = after-IsGood;
      mapped = λ js five. elim (Bool-cases (same_path js (i ∷ is))) [
        | inl same ↦ rw same (ap (entries after) (same_path-eq js (i ∷ is) same) ∙ entries_self)
        | inr other ↦ rw other (entries-other js (differ js other) ∙ mapped js five)
      ];
    }
      where
        differ : (js : List ℕ) → same_path js (i ∷ is) ≡ false → js ≢ i ∷ is
        differ js other same =
            let yes : same_path js (i ∷ is) ≡ true =
              ap (λ ks. same_path ks (i ∷ is)) same ∙ same_path_refl (i ∷ is) in
            cc
