-- ===== src/MemPool/Free.antt =====
-- `MemPool::free`.
use dvnetos.Base.{ℕ, ◌≤◌, ◌≡◌, some, List, All, arith, add64, sub64}
use dvnetos.MemPool.{Block, Pool, header_size, find_live, free}
use dvnetos.MemPool.Cover.{Fits, Added}
use dvnetos.MemPool.FreeList.{IsFreeList, add_free_block-IsFreeList}
use dvnetos.MemPool.Find.{Taken, find_live-Taken, covers-Taken, total-Taken, All-Taken}
use dvnetos.MemPool.Links.{IsWhole, Linked, add_free_block-Linked}
use dvnetos.MemPool.Valid.{PageSource, IsValid}

-- The pool that `free` hands to `addFreeBlock`.
abbrev without : Pool → Block → List Block → Pool
without p b bs = record p { size_in_use = sub64 p.size_in_use b.size; live = bs }

abbrev counted : Pool → Pool
counted q = record q { free_count = add64 q.free_count 1 }

module _ {W : Type 0} (src : PageSource W) where
  freed-IsValid :
      {w : W} {p q : Pool} {b : Block} {bs : List Block}
      → IsValid src w p
      → Taken p.live b bs
      → Added (without p b bs) b q
      → IsFreeList q
      → All Linked q.free_blocks
      → IsValid src w (counted q)
  freed-IsValid {p} {q} {b} {bs} v taken added list linked = record {
    free_list = record { fits = list.fits; ordered = list.ordered; counts = list.counts };
    linked = linked;
    live_fits = rw added.live (All-Taken taken Fits v.live_fits).1;
    live_whole = rw added.live (All-Taken taken (λ b. IsWhole b.size) v.live_whole).1;
    uses = rw (added.live, added.size_in_use) (omega (arith, total-Taken taken, v.uses));
    tiles = λ x. rw added.live (omega (arith, added.covered x, covers-Taken taken x, v.tiles x));
  }

  -- `free` of a live block of at least a pointer's size: it ends, takes that block alone from the
  -- live ones, counts the call, and leaves a valid pool.
  pub free-IsValid :
      {w : W} {p : Pool} (ptr : ℕ) {b : Block} {bs : List Block}
      → IsValid src w p
      → find_live (sub64 ptr header_size) p.live ≡ some (b, bs)
      → header_size ≤ b.size
      → (p' : Pool) × (free p (some ptr) ≡ some p')
        × IsValid src w p'
        × (p'.live ≡ bs)
        × (p'.free_count ≡ add64 p.free_count 1)
  unfolding free
  free-IsValid {p} ptr {b} {bs} v found big =
      let (taken, _) = find_live-Taken (sub64 ptr header_size) p.live b bs found in
      let (q, e, added, list) =
        add_free_block-IsFreeList (without p b bs) b
          (record {
            fits = v.free_list.fits;
            ordered = v.free_list.ordered;
            counts = v.free_list.counts;
          })
          (All-Taken taken Fits v.live_fits).0 in
      let linked =
        add_free_block-Linked (without p b bs) b v.free_list.fits v.linked
          (All-Taken taken Fits v.live_fits).0
          (big, (All-Taken taken (λ b. IsWhole b.size) v.live_whole).0) e in
      (
        counted q,
        ground (arith, found, e),
        freed-IsValid v taken added list linked,
        added.live,
        rw added.free_count,
      )
