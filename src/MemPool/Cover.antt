-- ===== src/MemPool/Cover.antt =====
-- The memory that blocks occupy, header and data: `addFreeBlock` neither loses a byte nor counts
-- one twice.
use dvnetos.Base.{
  ℕ, zero, suc, ◌+◌, ◌≤◌, ◌<◌, ◌^◌, ◌≡◌, refl, ◌&&◌, some, List, [], ◌∷◌, ◌++◌, arith, ltb, leb,
  if◌then◌else◌, All, All-append, Option-cases, inl, inr,
}
use dvnetos.MemPool.{
  Block, Scan, Pool, header_size, merge_if_possible, visit, scan, start, insert_at, add_free_block,
}
use dvnetos.MemPool.Passes.{insert_at-All, All-insert_at, add_free_block_inv}

-- A block that ends inside the address space.
abbrev pub Fits : Block → Type 0
Fits b = b.addr + header_size + b.size < 2 ^ 64

module _ (x : ℕ) where
  -- 1 if the address `x` lies in the block, header included.
  unfoldable pub cover : Block → ℕ
  cover b = if leb b.addr x && ltb x (b.addr + header_size + b.size) then 1 else 0

  unfoldable pub covers : List Block → ℕ
  covers [] = 0
  covers (b ∷ bs) = cover b + covers bs

  pub covers-append : (bs cs : List Block) → covers (bs ++ cs) ≡ covers bs + covers cs
  unfolding covers
  covers-append [] cs = omega arith
  covers-append (b ∷ bs) cs = omega (arith, covers-append bs cs)

  pub covers-insert_at :
      (k : ℕ) (b : Block) (bs : List Block) → covers (insert_at k b bs) ≡ cover b + covers bs
  unfolding covers insert_at
  covers-insert_at zero b bs = refl
  covers-insert_at (suc k) b [] = refl
  covers-insert_at (suc k) b (c ∷ bs) = omega (arith, covers-insert_at k b bs)

  cover-merge_if_possible :
      (n b : Block) {m : Block}
      → Fits n
      → Fits b
      → merge_if_possible n b ≡ some m
      → cover m ≡ cover n + cover b
  unfolding merge_if_possible cover
  cover-merge_if_possible n b fn fb h = ground arith

pub merge_if_possible-Fits :
    (n b : Block) {m : Block} → Fits n → Fits b → merge_if_possible n b ≡ some m → Fits m
unfolding merge_if_possible
merge_if_possible-Fits n b fn fb h = ground arith

merge_if_possible-le :
    (n b : Block) {m : Block} → Fits n → Fits b → merge_if_possible n b ≡ some m → b.size ≤ m.size
unfolding merge_if_possible
merge_if_possible-le n b fn fb h = ground arith

-- What a stretch of a pass, from `s` to `r` over the blocks `ns`, leaves true.
record Swept (x : ℕ) (ns : List Block) (s r : Scan) : Type 0 where
  covered : covers x r.kept + cover x r.block ≡ covers x s.kept + cover x s.block + covers x ns
  grows : s.block.size ≤ r.block.size
  fits : Fits r.block
  kept_fits : All Fits r.kept

visit-Swept :
    (x : ℕ) (n : Block) (s : Scan)
    → Fits n
    → Fits s.block
    → All Fits s.kept
    → Swept x (n ∷ []) s (visit n s)
unfolding visit covers
visit-Swept x n s fn fb fk = elim (Option-cases (merge_if_possible n s.block)) [
  | inl e ↦
      rw (e, visit)
        (record {
          covered = omega (arith, covers-append x s.kept (n ∷ []));
          grows = omega arith;
          fits = fb;
          kept_fits = All-append Fits s.kept (n ∷ []) fk (fn, tt);
        })
  | inr (m, e) ↦
      rw (e, visit)
        (record {
          covered = omega (arith, cover-merge_if_possible x n s.block fn fb e);
          grows = merge_if_possible-le n s.block fn fb e;
          fits = merge_if_possible-Fits n s.block fn fb e;
          kept_fits = fk;
        })
]

scan-Swept :
    (x : ℕ) (ns : List Block) (s : Scan)
    → All Fits ns
    → Fits s.block
    → All Fits s.kept
    → Swept x ns s (scan ns s)
unfolding scan covers
scan-Swept x [] s fn fb fk = record {
  covered = omega arith;
  grows = omega arith;
  fits = fb;
  kept_fits = fk;
}
scan-Swept x (n ∷ ns) s (fn, fns) fb fk =
    let one = visit-Swept x n s fn fb fk in
    let rest = scan-Swept x ns (visit n s) fns one.fits one.kept_fits in
    record {
      covered = omega (arith, one.covered, rest.covered);
      grows = omega (arith, one.grows, rest.grows);
      fits = rest.fits;
      kept_fits = rest.kept_fits;
    }

-- `p'` is `p` with the block `b` added to its free list, and nothing else changed: each address
-- lies in as many free blocks as it did in those of `p` and `b`.
pub record Added (p : Pool) (b : Block) (p' : Pool) : Type 0 where
  pub covered : (x : ℕ) → covers x p'.free_blocks ≡ cover x b + covers x p.free_blocks
  pub fits : All Fits p'.free_blocks
  pub grown : (n : ℕ) → All (λ c. c.size < n) p'.free_blocks → b.size < n
  pub live : p'.live ≡ p.live
  pub size_in_use : p'.size_in_use ≡ p.size_in_use
  pub alloc_count : p'.alloc_count ≡ p.alloc_count
  pub free_count : p'.free_count ≡ p.free_count

abbrev Balanced : List Block → Block → List Block → Block → ℕ → Type 0
Balanced ds d bs b f =
    All Fits bs
    × Fits b
    × (d.size ≤ b.size)
    × ((x : ℕ) → covers x bs + cover x b ≡ covers x ds + cover x d)

scan-Balanced :
    (ds : List Block) (d : Block) (bs : List Block) (b : Block) (f : ℕ)
    → Balanced ds d bs b f
    → Balanced ds d
        (scan bs (start b f)).kept
        (scan bs (start b f)).block
        (scan bs (start b f)).size_free
unfolding covers
scan-Balanced ds d bs b f (fs, fb, le, e) =
    let swept = λ (x : ℕ). scan-Swept x bs (start b f) fs fb tt in
    (
      (swept 0).kept_fits,
      (swept 0).fits,
      omega (arith, (swept 0).grows),
      λ x. omega (arith, (swept x).covered, e x),
    )

pub add_free_block-Added :
    (p : Pool) (b : Block)
    → All Fits p.free_blocks
    → Fits b
    → (p' : Pool) × (add_free_block p b ≡ some p') × Added p b p'
add_free_block-Added p b fs fb =
    let (cs, c, g, e, m, alone, (gs, gc, le, bal)) =
      add_free_block_inv (Balanced p.free_blocks b) (scan-Balanced p.free_blocks b) p b
        (fs, fb, omega arith, λ x. refl) in
    (
      _,
      e,
      record {
        covered = λ x. omega (arith, covers-insert_at x (scan cs (start c g)).add_at c cs, bal x);
        fits = insert_at-All Fits (scan cs (start c g)).add_at c cs gc gs;
        grown = λ n h.
            omega (
              arith,
              All-insert_at (λ (d : Block). d.size < n) (scan cs (start c g)).add_at c cs h,
            );
        live = refl;
        size_in_use = refl;
        alloc_count = refl;
        free_count = refl;
      },
    )
