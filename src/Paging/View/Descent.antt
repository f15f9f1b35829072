-- ===== src/Paging/View/Descent.antt =====
-- The way through the tables to the last one, which mapMemory makes sure of.
use dvnetos.Base.{
  ℕ, ◌+◌, ◌≤◌, ◌<◌, ◌^◌, ◌/◌, ◌≡◌, refl, ◌∙◌, sym, ap, arith, false, some, List, [], ◌∷◌, length,
  bit_and-ones,
}
use dvnetos.Paging.{
  Paging, Indexes, virtual_to_page_indexes, entry_at, page_size_flag, is_set, initial_pool_size,
  ensure_table, table_of,
}
use dvnetos.Paging.Tree.{table_at}
use dvnetos.Paging.View.{tables, entries, IsGood}
use dvnetos.Paging.View.Ensure.{ensure_table-Ensured, entries-slot}

-- The tables on the way to a page.
pub record Descent (p : Paging) (i : Indexes) : Type 0 where
  pub p1 : Paging
  pub p2 : Paging
  pub p3 : Paging
  pub runs1 : ensure_table p (entry_at p.root i.l1) ≡ some p1
  pub runs2 : ensure_table p1 (entry_at (table_of p1 (entry_at p1.root i.l1)) i.l2) ≡ some p2
  pub runs3 :
      ensure_table p2
        (entry_at (table_of p2 (entry_at (table_of p1 (entry_at p1.root i.l1)) i.l2)) i.l3)
      ≡ some p3
  pub unskipped :
      (is_set
        (p2.words
          (entry_at (table_of p2 (entry_at (table_of p1 (entry_at p1.root i.l1)) i.l2)) i.l3))
        page_size_flag)
      ≡ false
  pub good : IsGood p3
  pub more_used : p3.used_count ≤ p.used_count + 3
  pub leaves : (js : List ℕ) → length js ≡ 5 → entries p3 js ≡ entries p js
  pub reached :
      tables p3 (i.l3 ∷ i.l2 ∷ i.l1 ∷ 0 ∷ [])
      ≡ some (
          table_of p3
            (entry_at (table_of p2 (entry_at (table_of p1 (entry_at p1.root i.l1)) i.l2)) i.l3))

abbrev pub IsIndexes : Indexes → Type 0
IsIndexes i = (i.l1 < 512) × (i.l2 < 512) × (i.l3 < 512) × (i.l4 < 512)

root-at : (p : Paging) → tables p (0 ∷ []) ≡ some p.root
unfolding table_at
root-at p = refl

pub descend :
    (p : Paging) (i : Indexes)
    → IsGood p
    → IsIndexes i
    → p.used_count + 3 < initial_pool_size
    → Descent p i
descend p i good (h1, h2, h3, h4) room =
    let (p1, r1, e1) =
      ensure_table-Ensured p good i.l1 (0 ∷ []) p.root (root-at p) h1 (omega arith) (omega arith) in
    let at1 : tables p1 (i.l1 ∷ 0 ∷ []) ≡ some (table_of p1 (entry_at p1.root i.l1)) =
      e1.there ∙ ap (λ r. some (table_of p1 (entry_at r i.l1))) (sym e1.same_root) in
    let (p2, r2, e2) =
      ensure_table-Ensured p1 e1.good i.l2 (i.l1 ∷ 0 ∷ []) _ at1 h2 (omega arith)
        (omega (arith, e1.more_used)) in
    let (p3, r3, e3) =
      ensure_table-Ensured p2 e2.good i.l3 (i.l2 ∷ i.l1 ∷ 0 ∷ []) _ e2.there h3 (omega arith)
        (omega (arith, e1.more_used, e2.more_used)) in
    record {
      p1 = p1;
      p2 = p2;
      p3 = p3;
      runs1 = r1;
      runs2 = r2;
      runs3 = r3;
      unskipped =
          ap (λ e. is_set e page_size_flag)
            (sym (entries-slot p2 e2.good i.l3 (i.l2 ∷ i.l1 ∷ 0 ∷ []) _ e2.there h3 (omega arith)))
          ∙ e2.good.small i.l3 (i.l2 ∷ i.l1 ∷ 0 ∷ []) refl;
      good = e3.good;
      more_used = omega (arith, e1.more_used, e2.more_used, e3.more_used);
      leaves = λ js five. e3.leaves_stay js five ∙ e2.leaves_stay js five ∙ e1.leaves_stay js five;
      reached = e3.there;
    }

pub virtual_to_page_indexes-IsIndexes : (va : ℕ) → IsIndexes (virtual_to_page_indexes va)
unfolding virtual_to_page_indexes
virtual_to_page_indexes-IsIndexes va = (
  omega (arith, bit_and-ones 9 (va / 2 ^ 39)),
  omega (arith, bit_and-ones 9 (va / 2 ^ 30)),
  omega (arith, bit_and-ones 9 (va / 2 ^ 21)),
  omega (arith, bit_and-ones 9 (va / 2 ^ 12)),
)
