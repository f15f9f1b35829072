-- ===== src/MemPool/Valid.antt =====
-- Where the pool's memory comes from, and the invariant of a pool.
use dvnetos.Base.{
  ℕ, ◌+◌, ◌*◌, ◌≤◌, ◌<◌, ◌^◌, ◌≡◌, ◌&&◌, Option, none, some, ltb, leb, if◌then◌else◌, All,
}
use dvnetos.MemPool.{Pool, page_size}
use dvnetos.MemPool.Cover.{Fits, covers}
use dvnetos.MemPool.Account.{Counts}
use dvnetos.MemPool.FreeList.{IsFreeList}
use dvnetos.MemPool.Links.{IsWhole, Linked}

-- 1 if `x` lies in the `n` pages from `a` on.
abbrev pub in_pages : ℕ → ℕ → ℕ → ℕ
in_pages a n x = if leb a x && ltb x (a + n * page_size) then 1 else 0

-- The functions behind `getPage_t`, over a state `W` of their own. `given w x` is how often the
-- address `x` has been handed out: at most once, and pages lie in the address space.
pub record PageSource (W : Type 0) : Type 0 where
  pub get_page : ℕ → W → Option ℕ × W
  pub given : W → ℕ → ℕ
  pub once : (w : W) (x : ℕ) → given w x ≤ 1
  pub page_null :
      (n : ℕ) (w : W) → (get_page n w).0 ≡ none → (x : ℕ) → given (get_page n w).1 x ≡ given w x
  pub page_some :
      (n : ℕ) (w : W) (a : ℕ)
      → (get_page n w).0 ≡ some a
      → (a + n * page_size < 2 ^ 64)
        × ((x : ℕ) → given (get_page n w).1 x ≡ given w x + in_pages a n x)

-- The free list is in order and its blocks have room for their links, both counters are right, the
-- sizes are multiples of 8, and the free and the live blocks tile the memory that the page source has
-- handed out.
pub record IsValid {W : Type 0} (src : PageSource W) (w : W) (p : Pool) : Type 0 where
  pub free_list : IsFreeList p
  pub linked : All Linked p.free_blocks
  pub live_fits : All Fits p.live
  pub live_whole : All (λ b. IsWhole b.size) p.live
  pub uses : Counts p.size_in_use p.live
  pub tiles : (x : ℕ) → covers x p.free_blocks + covers x p.live ≡ src.given w x
