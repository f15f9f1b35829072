-- ===== src/MemPool/Account.antt =====
-- `sizeFree` is the sum of the sizes in the free list, in the arithmetic of `size_t`.
use dvnetos.Base.{
  ℕ, zero, suc, ◌+◌, ◌%◌, ◌^◌, ◌≡◌, refl, some, List, [], ◌∷◌, ◌++◌, arith, inl, inr, Option-cases,
}
use dvnetos.MemPool.{
  Block, Pool, Scan, merge_if_possible, visit, scan, start, insert_at, add_free_block,
}
use dvnetos.MemPool.Passes.{visit-none, visit-some, add_free_block_inv}

-- The sum of the sizes.
unfoldable pub total : List Block → ℕ
total [] = 0
total (b ∷ bs) = b.size + total bs

pub total-append : (bs cs : List Block) → total (bs ++ cs) ≡ total bs + total cs
unfolding total
total-append [] cs = omega arith
total-append (b ∷ bs) cs = omega (arith, total-append bs cs)

total-insert_at :
    (k : ℕ) (b : Block) (bs : List Block) → total (insert_at k b bs) ≡ b.size + total bs
unfolding total insert_at
total-insert_at zero b bs = refl
total-insert_at (suc k) b [] = refl
total-insert_at (suc k) b (c ∷ bs) = omega (arith, total-insert_at k b bs)

-- A counter that is the sum of the sizes.
abbrev pub Counts : ℕ → List Block → Type 0
Counts n bs = n % 2 ^ 64 ≡ total bs % 2 ^ 64

-- During a pass the counter is the sum over the blocks kept and those to come.
Counts-scan :
    (ns : List Block) (s : Scan)
    → s.size_free % 2 ^ 64 ≡ (total s.kept + total ns) % 2 ^ 64
    → Counts (scan ns s).size_free (scan ns s).kept
unfolding scan total
Counts-scan [] s h = omega arith
Counts-scan (n ∷ ns) s h =
    Counts-scan ns (visit n s) (elim (Option-cases (merge_if_possible n s.block)) [
      | inl e ↦
          let (k, b, f, m) = visit-none n s e in
          rw (k, f) (omega (arith, total-append s.kept (n ∷ [])))
      | inr (m, e) ↦ let (k, b, f, _) = visit-some n s e in rw (k, f) (omega arith)
    ])

Counts-start :
    (bs : List Block) (b : Block) (f : ℕ)
    → Counts f bs
    → Counts (scan bs (start b f)).size_free (scan bs (start b f)).kept
unfolding total
Counts-start bs b f h = Counts-scan bs (start b f) (omega arith)

abbrev Counted : List Block → Block → ℕ → Type 0
Counted bs b f = Counts f bs

-- `addFreeBlock` keeps `sizeFree` the sum of the sizes of the free blocks.
pub add_free_block-Counts :
    (p : Pool) (b : Block)
    → Counts p.size_free p.free_blocks
    → (p' : Pool) × (add_free_block p b ≡ some p') × Counts p'.size_free p'.free_blocks
add_free_block-Counts p b h =
    let (cs, c, g, e, m, alone, last) = add_free_block_inv Counted Counts-start p b h in
    (_, e, omega (arith, last, total-insert_at (scan cs (start c g)).add_at c cs))
