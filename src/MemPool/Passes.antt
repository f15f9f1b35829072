-- ===== src/MemPool/Passes.antt =====
-- The passes of `addFreeBlock` over the free list: they end, and what they keep.
use dvnetos.Base.{
  ℕ, zero, suc, ◌+◌, ◌≤◌, ◌<◌, ◌≡◌, refl, sym, ◌∙◌, ap, sub64, add64, ◌⊎◌, inl, inr, true, false,
  none, some, List, [], ◌∷◌, ◌++◌, append-nil, append_assoc, arith, length, length-append, All,
  All-remove, Pairwise, Pairwise-remove, Bool-cases, Option-cases,
}
use dvnetos.MemPool.{
  Block, Pool, add_free_block, insert_at, Scan, merge_if_possible, visit, scan, start, add_loop,
}

-- A pass keeps at most what it visits, and one block less if it merges.
length-visit :
    (n : Block) (s : Scan)
    → ((visit n s).merged ≡ s.merged) × (length (visit n s).kept ≡ length s.kept + 1)
      ⊎ ((visit n s).merged ≡ true) × (length (visit n s).kept ≡ length s.kept)
unfolding visit
length-visit n s = elim (Option-cases (merge_if_possible n s.block)) [
  | inl e ↦ rw (e, visit) (inl (refl, length-append s.kept (n ∷ [])))
  | inr (m, e) ↦ rw (e, visit) (inr (refl, refl))
]

pub length-scan-le :
    (ns : List Block) (s : Scan) → length (scan ns s).kept ≤ length s.kept + length ns
unfolding scan
length-scan-le [] s = omega arith
length-scan-le (n ∷ ns) s = omega (arith, length-visit n s, length-scan-le ns (visit n s))

pub length-scan-lt :
    (ns : List Block) (s : Scan)
    → s.merged ≡ false
    → (scan ns s).merged ≡ true
    → length (scan ns s).kept < length s.kept + length ns
unfolding scan
length-scan-lt [] s e h = cc
length-scan-lt (n ∷ ns) s e h = elim (length-visit n s) [
  | inl (m, l) ↦ omega (arith, length-scan-lt ns (visit n s) (m ∙ e) h)
  | inr (m, l) ↦ omega (arith, length-scan-le ns (visit n s))
]

module _ {κ} (P : Block → Type κ) where
  pub scan-All : (ns : List Block) (s : Scan) → All P (s.kept ++ ns) → All P (scan ns s).kept
  unfolding scan visit
  scan-All [] s h = rw append-nil at h
  scan-All (n ∷ ns) s h =
      scan-All ns (visit n s) (elim (Option-cases (merge_if_possible n s.block)) [
        | inl e ↦ rw (e, visit, append_assoc) h
        | inr (m, e) ↦ rw (e, visit) (All-remove P s.kept n ns h)
      ])

module _ {κ} (R : Block → Block → Type κ) where
  pub scan-Pairwise :
      (ns : List Block) (s : Scan) → Pairwise R (s.kept ++ ns) → Pairwise R (scan ns s).kept
  unfolding scan visit
  scan-Pairwise [] s h = rw append-nil at h
  scan-Pairwise (n ∷ ns) s h =
      scan-Pairwise ns (visit n s) (elim (Option-cases (merge_if_possible n s.block)) [
        | inl e ↦ rw (e, visit, append_assoc) h
        | inr (m, e) ↦ rw (e, visit) (Pairwise-remove R s.kept n ns h)
      ])

pub visit-none :
    (n : Block) (s : Scan)
    → merge_if_possible n s.block ≡ none
    → ((visit n s).kept ≡ s.kept ++ n ∷ [])
      × ((visit n s).block ≡ s.block)
      × ((visit n s).size_free ≡ s.size_free)
      × ((visit n s).merged ≡ s.merged)
unfolding visit
visit-none n s e = rw (e, visit) (refl, refl, refl, refl)

pub visit-some :
    (n : Block) (s : Scan) {m : Block}
    → merge_if_possible n s.block ≡ some m
    → ((visit n s).kept ≡ s.kept)
      × ((visit n s).block ≡ m)
      × ((visit n s).size_free ≡ sub64 s.size_free n.size)
      × ((visit n s).merged ≡ true)
unfolding visit
visit-some n s e = rw (e, visit) (refl, refl, refl, refl)

-- A pass that merges nothing changes nothing, and `block` borders on none of the blocks.
pub record Quiet (ns : List Block) (s r : Scan) : Type 0 where
  pub kept : r.kept ≡ s.kept ++ ns
  pub block : r.block ≡ s.block
  pub size_free : r.size_free ≡ s.size_free
  pub alone : All (λ n. merge_if_possible n s.block ≡ none) ns

merged-scan : (ns : List Block) (s : Scan) → s.merged ≡ true → (scan ns s).merged ≡ true
unfolding scan
merged-scan [] s h = h
merged-scan (n ∷ ns) s h = elim (length-visit n s) [
  | inl (m, _) ↦ merged-scan ns (visit n s) (m ∙ h)
  | inr (m, _) ↦ merged-scan ns (visit n s) m
]

pub scan-Quiet : (ns : List Block) (s : Scan) → (scan ns s).merged ≡ false → Quiet ns s (scan ns s)
unfolding scan
scan-Quiet [] s h = record {
  kept = sym (append-nil s.kept);
  block = refl;
  size_free = refl;
  alone = tt;
}
scan-Quiet (n ∷ ns) s h = elim (Option-cases (merge_if_possible n s.block)) [
  | inl e ↦
      let (k, b, f, m) = visit-none n s e in
      let q = scan-Quiet ns (visit n s) h in
      record {
        kept = q.kept ∙ ap (λ xs. xs ++ ns) k ∙ append_assoc s.kept (n ∷ []) ns;
        block = q.block ∙ b;
        size_free = q.size_free ∙ f;
        alone = (e, rw b at q.alone);
      }
  | inr (m, e) ↦ cc (merged-scan ns (visit n s) (visit-some n s e).3)
]

-- The rule for the outer loop. It ends, and its last pass merges nothing; what every pass keeps
-- true of the list, the block and the counter holds at the last pass.
pub add_loop_inv {κ} :
    (P : List Block → Block → ℕ → Type κ)
    → ((bs : List Block) (b : Block) (f : ℕ)
        → P bs b f
        → P (scan bs (start b f)).kept (scan bs (start b f)).block (scan bs (start b f)).size_free)
    → (fuel : ℕ) (bs : List Block) (b : Block) (f : ℕ) → length bs < fuel
    → P bs b f
    → (cs : List Block) × (c : Block) × (g : ℕ) × (add_loop fuel bs b f
        ≡ some (scan cs (start c g)))
      × ((scan cs (start c g)).merged ≡ false)
      × P cs c g
unfolding add_loop
add_loop_inv P keep zero bs b f h p = absurd (omega arith)
add_loop_inv P keep (suc fuel) bs b f h p = elim (Bool-cases (scan bs (start b f)).merged) [
  | inl e ↦ rw e (
      add_loop_inv P keep fuel _ _ _ (omega (arith, length-scan-lt bs (start b f) refl e))
        (keep bs b f p))
  | inr e ↦ (bs, b, f, ground arith, e, p)
]

-- `addFreeBlock` always ends. It puts a block `c`, which borders on no block of the list `cs`, into
-- that list, and what every pass keeps true holds of `c`, `cs` and the counter.
pub add_free_block_inv {κ} :
    (P : List Block → Block → ℕ → Type κ)
    → ((bs : List Block) (b : Block) (f : ℕ)
        → P bs b f
        → P (scan bs (start b f)).kept (scan bs (start b f)).block (scan bs (start b f)).size_free)
    → (p : Pool) (b : Block) → P p.free_blocks b p.size_free
    → (cs : List Block) × (c : Block) × (g : ℕ) × (add_free_block p b
        ≡ some (record p {
          free_blocks = insert_at (scan cs (start c g)).add_at c cs;
          size_free = add64 g c.size;
        }))
      × ((scan cs (start c g)).merged ≡ false)
      × All (λ n. merge_if_possible n c ≡ none) cs
      × P cs c g
unfolding add_free_block
add_free_block_inv P keep p b h =
    let (cs, c, g, e, m, last) =
      add_loop_inv P keep (length p.free_blocks + 1) p.free_blocks b p.size_free (omega arith) h in
    let q = scan-Quiet cs (start c g) m in
    (cs, c, g, rw e (rw (q.kept, q.block, q.size_free)), m, q.alone, last)

module _ {κ} (P : Block → Type κ) where
  pub insert_at-All :
      (k : ℕ) (b : Block) (bs : List Block) → P b → All P bs → All P (insert_at k b bs)
  unfolding insert_at
  insert_at-All zero b bs f fs = (f, fs)
  insert_at-All (suc k) b [] f fs = (f, tt)
  insert_at-All (suc k) b (c ∷ bs) f (g, fs) = (g, insert_at-All k b bs f fs)

  pub All-insert_at : (k : ℕ) (b : Block) (bs : List Block) → All P (insert_at k b bs) → P b
  unfolding insert_at
  All-insert_at zero b bs h = h.0
  All-insert_at (suc k) b [] h = h.0
  All-insert_at (suc k) b (c ∷ bs) h = All-insert_at k b bs h.1
