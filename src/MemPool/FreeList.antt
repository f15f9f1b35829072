-- ===== src/MemPool/FreeList.antt =====
-- The invariant of the free list, and `addFreeBlock` as a whole.
use mathlib.Core.Path.{subst}
use mathlib.Core.Option.{some-injective}
use dvnetos.Base.{◌≡◌, ◌∙◌, sym, some, All}
use dvnetos.MemPool.{Block, Pool, add_free_block}
use dvnetos.MemPool.Cover.{Fits, Added, add_free_block-Added}
use dvnetos.MemPool.Order.{IsOrdered, add_free_block-IsOrdered}
use dvnetos.MemPool.Account.{Counts, add_free_block-Counts}

-- Every free block lies in the address space, the list is in order, and `sizeFree` is its sum.
pub record IsFreeList (p : Pool) : Type 0 where
  pub fits : All Fits p.free_blocks
  pub ordered : IsOrdered p.free_blocks
  pub counts : Counts p.size_free p.free_blocks

pub add_free_block-IsFreeList :
    (p : Pool) (b : Block)
    → IsFreeList p
    → Fits b
    → (p' : Pool) × (add_free_block p b ≡ some p') × Added p b p' × IsFreeList p'
add_free_block-IsFreeList p b v f =
    let (p', e, added) = add_free_block-Added p b v.fits f in
    let (q, e1, o) = add_free_block-IsOrdered p b v.ordered in
    let (r, e2, c) = add_free_block-Counts p b v.counts in
    let same : q ≡ p' = some-injective _ _ (sym e1 ∙ e) in
    let same' : r ≡ p' = some-injective _ _ (sym e2 ∙ e) in
    (
      p',
      e,
      added,
      record {
        fits = added.fits;
        ordered = subst (λ (p : Pool). IsOrdered p.free_blocks) same o;
        counts = subst (λ (p : Pool). Counts p.size_free p.free_blocks) same' c;
      },
    )
