-- ===== src/MemPool/Alloc/Loop.antt =====
-- The loop of `MemPool::alloc` over a page source.
use dvnetos.Base.{
  ℕ, zero, suc, ◌≤◌, ◌≡◌, refl, ap, ◌∙◌, Option, none, some, List, ◌∷◌, All, arith, add64, sub64,
  Option-cases, inl, inr,
}
use dvnetos.MemPool.{
  Block, Pool, header_size, find_fit, find_existing_free_block, split, hand_out, pages_for,
  page_block, add_free_block, alloc_loop, alloc,
}
use dvnetos.MemPool.Cover.{Fits, covers, Added}
use dvnetos.MemPool.Account.{total}
use dvnetos.MemPool.FreeList.{IsFreeList, add_free_block-IsFreeList}
use dvnetos.MemPool.Find.{
  Taken, find_fit-Taken, covers-Taken, total-Taken, All-Taken, IsOrdered-Taken,
}
use dvnetos.MemPool.Links.{IsWhole, Linked, add_free_block-Linked}
use dvnetos.MemPool.Valid.{PageSource, IsValid}
use dvnetos.MemPool.Alloc.{
  Splits, split-Splits, page_block-Fits, page_block-Linked, cover-page_block, pages_for-pos,
}

-- What a call of `alloc` for `size` bytes may do to the pool: nothing to the live blocks, or one
-- more live block of at least that size, whose data is returned.
pub data Outcome (size : ℕ) (p : Pool) : Option ℕ → Pool → Type 0 where
  null : {p' : Pool} → p'.live ≡ p.live → p'.alloc_count ≡ p.alloc_count → Outcome size p none p'
  got :
      {p' : Pool} (b : Block)
      → size ≤ b.size
      → p'.live ≡ b ∷ p.live
      → p'.alloc_count ≡ add64 p.alloc_count 1
      → Outcome size p (some (add64 b.addr header_size)) p'

-- The pool that `findExistingFreeBlock` leaves.
abbrev pub without_free : Pool → Block → List Block → Pool
without_free p b bs = record p {
  size_in_use = add64 p.size_in_use b.size;
  size_free = sub64 p.size_free b.size;
  free_blocks = bs;
}

pub without_free-IsFreeList :
    {p : Pool} {b : Block} {bs : List Block}
    → IsFreeList p
    → Taken p.free_blocks b bs
    → IsFreeList (without_free p b bs)
without_free-IsFreeList v t = record {
  fits = (All-Taken t Fits v.fits).1;
  ordered = IsOrdered-Taken t v.ordered;
  counts = omega (arith, total-Taken t, v.counts);
}

module _ {W : Type 0} (get_page : ℕ → W → Option ℕ × W) (k size : ℕ) {w : W} (p p' : Pool) where
  pub alloc_loop_found :
      {b b' : Block} {bs : List Block}
      → find_fit size p.free_blocks ≡ some (b, bs)
      → split (without_free p b bs) b size ≡ some (b', p')
      → alloc_loop get_page (suc k) size p w
        ≡ some (some (add64 b'.addr header_size), hand_out b' p', w)
  unfolding alloc_loop find_existing_free_block
  alloc_loop_found found e = ground arith

  pub alloc_loop_page :
      {a : ℕ}
      → find_fit size p.free_blocks ≡ none
      → (get_page (pages_for size) w).0 ≡ some a
      → add_free_block p (page_block a (pages_for size)) ≡ some p'
      → alloc_loop get_page (suc k) size p w
        ≡ alloc_loop get_page k size p' (get_page (pages_for size) w).1
  unfolding alloc_loop find_existing_free_block
  alloc_loop_page miss page e = ground arith

alloc_loop_null :
    {W : Type 0} (get_page : ℕ → W → Option ℕ × W) (k size : ℕ) {w : W} (p : Pool)
    → find_fit size p.free_blocks ≡ none
    → (get_page (pages_for size) w).0 ≡ none
    → alloc_loop get_page (suc k) size p w ≡ some (none, p, (get_page (pages_for size) w).1)
unfolding alloc_loop find_existing_free_block
alloc_loop_null get_page k size p miss page = ground arith

module _ {W : Type 0} (src : PageSource W) where
  pub handed-IsValid :
      {w : W} {p p' : Pool} {b b' : Block} {bs : List Block} {size : ℕ}
      → IsValid src w p
      → Taken p.free_blocks b bs
      → Splits (without_free p b bs) b size b' p'
      → IsFreeList p'
      → IsValid src w (hand_out b' p')
  unfolding hand_out covers total
  handed-IsValid v t s list = record {
    free_list = record { fits = list.fits; ordered = list.ordered; counts = list.counts };
    linked = s.linked;
    live_fits = (s.fits, rw s.live v.live_fits);
    live_whole = (s.whole, rw s.live v.live_whole);
    uses = rw s.live (omega (arith, s.in_use, v.uses));
    tiles = λ x. rw s.live (omega (arith, s.covered x, covers-Taken t x, v.tiles x));
  }

  pub grown-IsValid :
      {w : W} {p p' : Pool} (size a : ℕ)
      → IsValid src w p
      → (src.get_page (pages_for size) w).0 ≡ some a
      → Added p (page_block a (pages_for size)) p'
      → IsFreeList p'
      → All Linked p'.free_blocks
      → IsValid src (src.get_page (pages_for size) w).1 p'
  grown-IsValid {w} size a v e added list linked =
      let (fits, given) = src.page_some (pages_for size) w a e in
      record {
        free_list = list;
        linked = linked;
        live_fits = rw added.live v.live_fits;
        live_whole = rw added.live v.live_whole;
        uses = rw (added.live, added.size_in_use) v.uses;
        tiles = λ x. rw added.live (
            omega (
              arith,
              added.covered x,
              cover-page_block x a (pages_for size) (pages_for-pos size) fits,
              given x,
              v.tiles x,
            ));
      }

  refused-IsValid :
      {w : W} {p : Pool} (n : ℕ)
      → IsValid src w p
      → (src.get_page n w).0 ≡ none
      → IsValid src (src.get_page n w).1 p
  refused-IsValid {w} n v e = record {
    free_list = v.free_list;
    linked = v.linked;
    live_fits = v.live_fits;
    live_whole = v.live_whole;
    uses = v.uses;
    tiles = λ x. omega (arith, src.page_null n w e x, v.tiles x);
  }

  -- A call of `alloc_loop` that ends, with what it leaves.
  abbrev pub Ends : ℕ → ℕ → Pool → W → Type 0
  Ends k size p w =
      (r : Option ℕ) × (p' : Pool) × (w' : W) × (alloc_loop src.get_page k size p w
        ≡ some (r, p', w'))
      × IsValid src w' p'
      × Outcome size p r p'

  -- A request that a free block can hold is served from it.
  pub found_serves :
      (k size : ℕ) {w : W} {p : Pool} {b : Block} {bs : List Block}
      → IsWhole size
      → IsValid src w p
      → find_fit size p.free_blocks ≡ some (b, bs)
      → (b' : Block) × (p' : Pool) × (alloc_loop src.get_page (suc k) size p w
          ≡ some (some (add64 b'.addr header_size), hand_out b' p', w))
        × Taken p.free_blocks b bs
        × Splits (without_free p b bs) b size b' p'
        × IsFreeList p'
  found_serves k size {w} {p} {b} {bs} ws v found =
      let (t, le) = find_fit-Taken size p.free_blocks b bs found in
      let (b', p', e, s, list) =
        split-Splits (without_free p b bs) b size (without_free-IsFreeList v.free_list t)
          (All-Taken t Linked v.linked).1 (All-Taken t Fits v.free_list.fits).0
          (All-Taken t Linked v.linked).0 ws le in
      (b', p', alloc_loop_found src.get_page k size p p' found e, t, s, list)

  pub found-Ends :
      (k size : ℕ) {w : W} {p : Pool} {b : Block} {bs : List Block}
      → IsWhole size
      → IsValid src w p
      → find_fit size p.free_blocks ≡ some (b, bs)
      → Ends (suc k) size p w
  unfolding hand_out
  found-Ends k size {w} ws v found =
      let (b', p', run, t, s, list) = found_serves k size ws v found in
      (
        some (add64 b'.addr header_size),
        hand_out b' p',
        w,
        run,
        handed-IsValid v t s list,
        got b' s.enough (ap (◌∷◌ b') s.live) (ap (λ n. add64 n 1) s.alloc_count),
      )

  Outcome-page :
      {size : ℕ} {p p' q : Pool} {r : Option ℕ}
      → p'.live ≡ p.live
      → p'.alloc_count ≡ p.alloc_count
      → Outcome size p' r q
      → Outcome size p r q
  Outcome-page l c (null l' c') = null (l' ∙ l) (c' ∙ c)
  Outcome-page l c (got b h l' c') = got b h (l' ∙ ap (◌∷◌ b) l) (c' ∙ ap (λ n. add64 n 1) c)

  alloc_loop-Ends :
      (k size : ℕ) {w : W} {p : Pool} → IsWhole size → IsValid src w p → Ends k size p w
  alloc_loop-Ends zero size {w} {p} ws v =
      (none, p, w, unfold alloc_loop in refl, v, null refl refl)
  alloc_loop-Ends (suc k) size {w} {p} ws v = elim (Option-cases (find_fit size p.free_blocks)) [
    | inr ((b, bs), found) ↦ found-Ends k size ws v found
    | inl miss ↦ elim (Option-cases (src.get_page (pages_for size) w).0) [
      | inl page ↦ (
        none,
        p,
        (src.get_page (pages_for size) w).1,
        alloc_loop_null src.get_page k size p miss page,
        refused-IsValid (pages_for size) v page,
        null refl refl,
      )
      | inr (a, page) ↦
          let fits = (src.page_some (pages_for size) w a page).0 in
          let (p', e, added, list) =
            add_free_block-IsFreeList p (page_block a (pages_for size)) v.free_list
              (page_block-Fits a (pages_for size) (pages_for-pos size) fits) in
          let linked =
            add_free_block-Linked p (page_block a (pages_for size)) v.free_list.fits v.linked
              (page_block-Fits a (pages_for size) (pages_for-pos size) fits)
              (page_block-Linked a (pages_for size) (pages_for-pos size) fits) e in
          let (r, q, w', run, valid, out) =
            alloc_loop-Ends k size ws (grown-IsValid size a v page added list linked) in
          (
            r,
            q,
            w',
            alloc_loop_page src.get_page k size p p' miss page e ∙ run,
            valid,
            Outcome-page added.live added.alloc_count out,
          )
    ]
  ]

  -- `alloc` ends, for every size that is a multiple of 8 and every valid pool. It leaves a valid pool,
  -- whose free blocks have room for their links, and either returns null with the live blocks as they
  -- were, or one more live block of at least `size` bytes, of which it returns the data.
  pub alloc-IsValid :
      (size : ℕ) {w : W} {p : Pool}
      → IsWhole size
      → IsValid src w p
      → (r : Option ℕ) × (p' : Pool) × (w' : W) × (alloc src.get_page size p w ≡ some (r, p', w'))
        × IsValid src w' p'
        × Outcome size p r p'
  unfolding alloc
  alloc-IsValid size ws v = alloc_loop-Ends 2 size ws v
