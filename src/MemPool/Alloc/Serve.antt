-- ===== src/MemPool/Alloc/Serve.antt =====
-- When `MemPool::alloc` serves a request, and with which block.
use dvnetos.Base.{
  ℕ, ◌+◌, ◌<◌, ◌^◌, ◌≡◌, ◌≢◌, ◌∙◌, suc, ap, none, some, List, arith, All, Option-cases, inl, inr,
}
use dvnetos.MemPool.{
  Block, Pool, header_size, find_fit, find_existing_free_block, pages_for, page_block, alloc,
  alloc_loop,
}
use dvnetos.MemPool.FreeList.{IsFreeList, add_free_block-IsFreeList}
use dvnetos.MemPool.Find.{IsSmallestFit, find_fit_best, find_fit-none}
use dvnetos.MemPool.Links.{IsWhole, add_free_block-Linked}
use dvnetos.MemPool.Valid.{PageSource, IsValid}
use dvnetos.MemPool.Alloc.{page_block-Fits, pages_for-pos, le-page_block, page_block-Linked}
use dvnetos.MemPool.Alloc.Loop.{alloc_loop_page, found_serves, grown-IsValid}

-- `findExistingFreeBlock` returns a smallest free block that is large enough, and returns none only
-- if every free block is too small.
pub find_existing_free_block_best :
    (p : Pool) (size : ℕ)
    → IsFreeList p
    → ((b : Block) (p' : Pool)
        → find_existing_free_block p size ≡ some (b, p')
        → IsSmallestFit size b p.free_blocks)
      × (find_existing_free_block p size ≡ none → All (λ b. b.size < size) p.free_blocks)
unfolding find_existing_free_block
find_existing_free_block_best p size v = elim (Option-cases (find_fit size p.free_blocks)) [
  | inl miss ↦ ((λ b p' h. ground arith), (λ _. find_fit-none size p.free_blocks miss))
  | inr ((c, cs), found) ↦ (
    (λ b p' h.
        find_fit_best size p.free_blocks b cs v.ordered.by_size
          (found ∙ ap (λ d. some (d, cs)) (ground arith))),
    (λ h. ground arith),
  )
]

module _ {W : Type 0} (src : PageSource W) where
  -- `alloc` of a size that is a multiple of 8 and leaves room for a header returns null only if the
  -- page source does: for a valid pool, if the source has the pages that are asked for, the call
  -- returns a pointer.
  pub alloc_serves :
      (size : ℕ) {w : W} {p : Pool}
      → IsWhole size
      → IsValid src w p
      → size + header_size < 2 ^ 64
      → (src.get_page (pages_for size) w).0 ≢ none
      → (ptr : ℕ) × (p' : Pool) × (w' : W) × (alloc src.get_page size p w ≡ some (some ptr, p', w'))
  unfolding alloc
  alloc_serves size {w} {p} ws v small given = elim (Option-cases (find_fit size p.free_blocks)) [
    | inr ((b, bs), found) ↦ served 1 p v found
    | inl miss ↦ elim (Option-cases (src.get_page (pages_for size) w).0) [
      | inl page ↦ absurd (given page)
      | inr (a, page) ↦
          let fits = (src.page_some (pages_for size) w a page).0 in
          let (q, e, added, list) =
            add_free_block-IsFreeList p (page_block a (pages_for size)) v.free_list
              (page_block-Fits a (pages_for size) (pages_for-pos size) fits) in
          let linked =
            add_free_block-Linked p (page_block a (pages_for size)) v.free_list.fits v.linked
              (page_block-Fits a (pages_for size) (pages_for-pos size) fits)
              (page_block-Linked a (pages_for size) (pages_for-pos size) fits) e in
          let valid = grown-IsValid src size a v page added list linked in
          elim (Option-cases (find_fit size q.free_blocks)) [
            | inl miss' ↦ absurd (
                omega (
                  arith,
                  added.grown size (find_fit-none size q.free_blocks miss'),
                  le-page_block a size small fits,
                ))
            | inr ((b, bs), found) ↦
                let (ptr, r, w', run) = served 0 q valid found in
                (ptr, r, w', alloc_loop_page src.get_page 1 size p q miss page e ∙ run)
          ]
    ]
  ]
    where
      served :
          (k : ℕ) {w' : W} (q : Pool) {b : Block} {bs : List Block}
          → IsValid src w' q
          → find_fit size q.free_blocks ≡ some (b, bs)
          → (ptr : ℕ) × (p' : Pool) × (w'' : W) × (alloc_loop src.get_page (suc k) size q w'
              ≡ some (some ptr, p', w''))
      served k {w'} q v found =
          let (b', p', run, t, s, list) = found_serves src k size ws v found in (_, _, _, run)
