-- ===== src/MemPool/Tests.antt =====
-- memalloc_test.cpp as tests, and the theorems at concrete pools.
use dvnetos.Base.{
  ℕ, ◌+◌, ◌-◌, ◌*◌, ◌^◌, ◌<◌, ◌≤◌, ◌≡◌, ◌&&◌, leb, ltb, if◌then◌else◌, arith, refl, Option, none,
  some, List, [], ◌∷◌, ◌>>=◌,
}
use dvnetos.MemPool.Cover.{cover, covers}
use dvnetos.MemPool.Account.{total}
use dvnetos.MemPool.FreeList.{IsFreeList}
use dvnetos.MemPool.Valid.{PageSource, IsValid, in_pages}
use dvnetos.MemPool.Free.{free-IsValid}
use dvnetos.MemPool.Alloc.Loop.{Outcome, alloc-IsValid}
use dvnetos.MemPool.Alloc.Serve.{alloc_serves}
use dvnetos.MemPool.{
  page_size, Pool, block, empty, alloc, free, alloc_loop, find_existing_free_block, add_free_block,
  scan, page_block, pages_for, split, hand_out, find_live, visit,
}

-- `getPage` of the tests: fresh pages from an address on.
abbrev bump : ℕ → ℕ → Option ℕ × ℕ
bump pages w = (some w, w + pages * 4096)

-- The counters after a call of `alloc`: bytes in use, bytes free, allocations.
abbrev counters : Pool → ℕ × ℕ × ℕ
counters p = (p.size_in_use, p.size_free, p.alloc_count)

abbrev bump_page : ℕ → ℕ → Option ℕ × ℕ
bump_page n w =
    if ltb (4096 + w + n * 4096) (2 ^ 64) then (some (4096 + w), w + n * 4096) else (none, w)

-- The world is the number of bytes handed out.
abbrev bump_given : ℕ → ℕ → ℕ
bump_given w x = if leb 4096 x && ltb x (4096 + w) then 1 else 0

abbrev alloc_all : List ℕ → Pool → ℕ → Option (Pool × ℕ)
alloc_all [] p w = some (p, w)
alloc_all (n ∷ ns) p w = do (_, p', w') ← alloc bump n p w; alloc_all ns p' w'

abbrev free_all : List ℕ → Pool → Option Pool
free_all [] p = some p
free_all (a ∷ as') p = do p' ← free p (some a); free_all as' p'

-- SingleAlloc
single_alloc :
    (do (p, _) ← alloc_all (10 ∷ []) empty 0x10000; some (counters p))
    ≡ some (10, 4096 - 16 - 10, 1)
unfolding alloc alloc_loop find_existing_free_block add_free_block scan page_block pages_for split
    hand_out
single_alloc = refl

-- MultipleAlloc
multiple_alloc :
    (do (p, _) ← alloc_all (10 ∷ 9 ∷ 11 ∷ []) empty 0x10000; some (counters p))
    ≡ some (30, 4096 - 32 - 30, 3)
unfolding alloc alloc_loop find_existing_free_block add_free_block scan page_block pages_for split
    hand_out
multiple_alloc = refl

multiple_free :
    (do
      (p, _) ← alloc_all (10 ∷ 9 ∷ 11 ∷ []) empty 0x10000
      q ← free_all (0x1002B ∷ 0x10008 ∷ 0x1001A ∷ []) p
      some (counters q))
    ≡ some (0, 4096 - 8, 3)
unfolding alloc alloc_loop find_existing_free_block add_free_block scan page_block pages_for split
    hand_out free find_live visit
multiple_free = refl

-- A page source that never takes a page back, from address 4096 on.
bump_null :
    (n w : ℕ) → (bump_page n w).0 ≡ none → (x : ℕ) → bump_given (bump_page n w).1 x ≡ bump_given w x
bump_null n w h x = ground arith

bump_some :
    (n w a : ℕ)
    → (bump_page n w).0 ≡ some a
    → (a + n * page_size < 2 ^ 64)
      × ((x : ℕ) → bump_given (bump_page n w).1 x ≡ bump_given w x + in_pages a n x)
bump_some n w a h = (ground arith, λ x. ground arith)

bump_once : (w x : ℕ) → bump_given w x ≤ 1
bump_once w x = ground arith

abbrev pages : PageSource ℕ
pages = record {
  get_page = bump_page;
  given = bump_given;
  once = bump_once;
  page_null = bump_null;
  page_some = bump_some;
}

-- One page of which 16 bytes are in use.
abbrev used : Pool
used = record {
  size_in_use = 16;
  size_free = 4064;
  alloc_count = 1;
  free_count = 0;
  free_blocks = block 4120 4064 ∷ [];
  live = block 4096 16 ∷ [];
}

empty-IsValid : IsValid pages 0 empty
unfolding covers total
empty-IsValid = record {
  free_list = record { fits = tt; ordered = record { by_size = tt; separate = tt }; counts = refl };
  linked = tt;
  live_fits = tt;
  live_whole = tt;
  uses = refl;
  tiles = λ x. ground arith;
}

used-IsFreeList : IsFreeList used
unfolding total
used-IsFreeList = record {
  fits = omega arith;
  ordered = record { by_size = (tt, tt); separate = (tt, tt) };
  counts = refl;
}

used-IsValid : IsValid pages 4096 used
unfolding covers cover total
used-IsValid = record {
  free_list = used-IsFreeList;
  linked = ((omega arith, refl), tt);
  live_fits = omega arith;
  live_whole = (refl, tt);
  uses = refl;
  tiles = λ x. ground arith;
}

free-IsValid_example :
    (p' : Pool) × (free used (some 4104) ≡ some p')
    × IsValid pages 4096 p'
    × (p'.live ≡ [])
    × (p'.free_count ≡ 1)
unfolding find_live
free-IsValid_example = free-IsValid pages 4104 used-IsValid refl (omega arith)

alloc-IsValid_example :
    (r : Option ℕ) × (p' : Pool) × (w' : ℕ) × (alloc bump_page 104 used 4096 ≡ some (r, p', w'))
    × IsValid pages w' p'
    × Outcome 104 used r p'
alloc-IsValid_example = alloc-IsValid pages 104 refl used-IsValid

alloc_serves_example :
    (ptr : ℕ) × (p' : Pool) × (w' : ℕ) × (alloc bump_page 5000 used 4096 ≡ some (some ptr, p', w'))
unfolding pages_for
alloc_serves_example = alloc_serves pages 5000 refl used-IsValid (omega arith) (ground arith)
