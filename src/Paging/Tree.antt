-- ===== src/Paging/Tree.antt =====
-- Page tables as a tree. A path is the list of the indexes that lead to a table, the last one first;
-- the first index chooses the root. The tables are pages of one pool.
pub mod Link
pub mod Leaf
use native.Mathlib.Omega.{arith}
use dvnetos.Base.{
  ℕ, zero, suc, ◌+◌, ◌*◌, ◌≤◌, ◌<◌, ◌≡◌, refl, Option, none, some, ◌>>=◌, List, [], ◌∷◌, length,
  ltb, if◌then◌else◌,
}
use dvnetos.Paging.{Words, entry_at}

module _ (roots : ℕ → Option ℕ) (next : (depth entry : ℕ) → Option ℕ) where
  -- The table behind entry `i` of the table at `t`, which stands at a path of `depth` indexes.
  abbrev pub follow : Words → (depth t i : ℕ) → Option ℕ
  follow w depth t i = if ltb i 512 then next depth (w (entry_at t i)) else none

  unfoldable pub table_at : Words → List ℕ → Option ℕ
  table_at w [] = none
  table_at w (r ∷ []) = roots r
  table_at w (i ∷ j ∷ is) = do t ← table_at w (j ∷ is); follow w (length (j ∷ is)) t i

  pub table_at-cons :
      (w : Words) (i : ℕ) (is : List ℕ) (t : ℕ)
      → table_at w is ≡ some t
      → table_at w (i ∷ is) ≡ follow w (length is) t i
  unfolding table_at
  table_at-cons w i [] t h = cc
  table_at-cons w i (j ∷ is) t h = rw h refl

  abbrev pub entry_of : Words → ℕ → Option ℕ → ℕ
  entry_of w i none = 0
  entry_of w i (some t) = if ltb i 512 then w (entry_at t i) else 0

  -- The entry at a path, or 0 where there is no table for it.
  unfoldable pub entry : Words → List ℕ → ℕ
  unfolding table_at
  entry w [] = 0
  entry w (i ∷ is) = entry_of w i (table_at w is)

  -- The tables are pages in use, and each stands at one path.
  pub record IsTree (w : Words) (pool used : ℕ) : Type 0 where
    pub inside :
        (is : List ℕ) (t : ℕ)
        → table_at w is ≡ some t
        → (k : ℕ) × (k < used) × (t ≡ pool + 4096 * k)
    pub unique :
        (is js : List ℕ) (t : ℕ) → table_at w is ≡ some t → table_at w js ≡ some t → is ≡ js

-- Two slots of tables in the pool are the same only in the same table.
pub same_slot :
    (pool k k' i i' : ℕ)
    → i < 512
    → i' < 512
    → entry_at (pool + 4096 * k) i ≡ entry_at (pool + 4096 * k') i'
    → (k ≡ k') × (i ≡ i')
same_slot pool k k' i i' h h' e = (omega arith, omega arith)
