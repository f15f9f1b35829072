-- ===== src/MemPool.antt =====
-- kernel/memory/memalloc.cpp and memalloc.h: the pool allocator behind kalloc and kfree.
-- The free list, linked through the blocks' `next` fields in the source, is the list of its
-- blocks in link order; `live` holds the headers of the blocks that clients hold. The link of a free
-- block stands in the first eight bytes of its data. The bytes of the blocks are not modelled, so where
-- a link would be stored behind the end of its block, over what stands there, the call is `none`.
mod Passes
mod Cover
mod Order
mod Account
mod Links
mod FreeList
mod Find
pub mod Valid
pub mod Provider
pub mod Free
pub mod Alloc
mod Tests
use dvnetos.Base.{
  ℕ, zero, suc, ◌+◌, ◌/◌, ◌%◌, Bool, true, false, not, ◌&&◌, Option, none, some, List, [], ◌∷◌,
  ◌++◌, ltb, leb, ◌==◌, if◌then◌else◌, ◌>>=◌, length, add64, sub64, mul64,
}

-- `MemBlock`: its address and its `size` field.
pub record Block : Type 0 where
  pub addr : ℕ
  pub size : ℕ

abbrev pub block : ℕ → ℕ → Block
block a n = record { addr = a; size = n }

-- `memBlockHeaderSize`
abbrev pub header_size : ℕ
header_size = 8

abbrev pub page_size : ℕ
page_size = 4096

-- `MemPool`
pub record Pool : Type 0 where
  pub size_in_use : ℕ
  pub size_free : ℕ
  pub alloc_count : ℕ
  pub free_count : ℕ
  pub free_blocks : List Block
  pub live : List Block

abbrev pub empty : Pool
empty = record {
  size_in_use = 0;
  size_free = 0;
  alloc_count = 0;
  free_count = 0;
  free_blocks = [];
  live = [];
}

-- The variables of a pass of `addFreeBlock` over the free list: the blocks passed and kept (`prev`
-- is the last of them), `block`, `merged`, `addAt` as the number of kept blocks that stand before
-- it, and `sizeFree`.
pub record Scan : Type 0 where
  pub kept : List Block
  pub block : Block
  pub merged : Bool
  pub add_at : ℕ
  pub size_free : ℕ

-- The search loop of `findExistingFreeBlock`: the first block that is large enough, and the list
-- without it.
unfoldable pub find_fit : ℕ → List Block → Option (Block × List Block)
find_fit size [] = none
find_fit size (b ∷ bs) =
    if leb size b.size then some (b, bs) else (do (c, cs) ← find_fit size bs; some (c, b ∷ cs))

-- `findExistingFreeBlock` with the `removeFreeBlock` that it calls.
unfoldable pub find_existing_free_block : Pool → ℕ → Option (Block × Pool)
unfolding find_fit
find_existing_free_block p size = do
  (b, bs) ← find_fit size p.free_blocks
  some (
    b,
    record p {
      size_in_use = add64 p.size_in_use b.size;
      size_free = sub64 p.size_free b.size;
      free_blocks = bs;
    },
  )

-- `mergeIfPossible`: the block made of the free block `n` and the block `b` to be added.
unfoldable pub merge_if_possible : Block → Block → Option Block
merge_if_possible n b =
    if add64 (n.addr + n.size) header_size == b.addr
    then some (block n.addr (add64 n.size (b.size + header_size)))
    else if add64 (b.addr + b.size) header_size == n.addr
    then some (block b.addr (add64 b.size (n.size + header_size)))
    else none

-- One round of the inner loop of `addFreeBlock`, at the free block `n`.
unfoldable pub visit : Block → Scan → Scan
unfolding merge_if_possible
visit n s = elim (merge_if_possible n s.block) [
  | some b ↦ record s { block = b; merged = true; size_free = sub64 s.size_free n.size }
  | none ↦ record s {
    kept = s.kept ++ n ∷ [];
    add_at = if not s.merged && leb n.size s.block.size then length s.kept + 1 else s.add_at;
  }
]

unfoldable pub scan : List Block → Scan → Scan
scan [] s = s
scan (n ∷ ns) s = scan ns (visit n s)

abbrev pub start : Block → ℕ → Scan
start b free = record { kept = []; block = b; merged = false; add_at = 0; size_free = free }

-- The outer loop of `addFreeBlock`. `none` means that the fuel ran out.
unfoldable pub add_loop : ℕ → List Block → Block → ℕ → Option Scan
add_loop zero bs b free = none
add_loop (suc fuel) bs b free =
    let s = scan bs (start b free) in
    let again = add_loop fuel s.kept s.block s.size_free in if s.merged then again else some s

-- `block->next = *addAt; *addAt = block;`
unfoldable pub insert_at : ℕ → Block → List Block → List Block
insert_at zero b bs = b ∷ bs
insert_at (suc k) b [] = b ∷ []
insert_at (suc k) b (c ∷ bs) = c ∷ insert_at k b bs

unfoldable pub add_free_block : Pool → Block → Option Pool
unfolding add_loop insert_at
add_free_block p b = do
  s ← add_loop (length p.free_blocks + 1) p.free_blocks b p.size_free
  some (record p {
    free_blocks = insert_at s.add_at s.block s.kept;
    size_free = add64 s.size_free s.block.size;
  })

-- The part of `alloc` that splits the block found, if it is larger than what is asked for and
-- a header; it returns the block handed out. A remnant of less than eight bytes is too small for
-- its link: `none`.
unfoldable pub split : Pool → Block → ℕ → Option (Block × Pool)
split p b size =
    let next = block (add64 b.addr (header_size + size)) (sub64 b.size (size + header_size)) in
    let less = record p { size_in_use = sub64 p.size_in_use (next.size + header_size) } in
    let cut = (do p' ← add_free_block less next; some (block b.addr size, p')) in
    let linked = if ltb next.size 8 then none else cut in
    if ltb (add64 size header_size) b.size then linked else some (b, p)

-- `allocCount++; return block->data;`
unfoldable pub hand_out : Block → Pool → Pool
hand_out b p = record p { alloc_count = add64 p.alloc_count 1; live = b ∷ p.live }

-- How many pages `alloc` asks for, and the size of the block that they make.
unfoldable pub pages_for : ℕ → ℕ
pages_for size = add64 size header_size / page_size + 1

unfoldable pub page_block : ℕ → ℕ → Block
page_block page pages = block page (sub64 (mul64 pages page_size) header_size)

-- `free`, for a pointer that `alloc` returned: the header is found among the live blocks. `none`
-- means that there is no header there, so that the source would read memory that is not its own.
unfoldable pub find_live : ℕ → List Block → Option (Block × List Block)
find_live a [] = none
find_live a (b ∷ bs) =
    if b.addr == a then some (b, bs) else (do (c, cs) ← find_live a bs; some (c, b ∷ cs))

-- A null pointer is `none`. A block whose size is less than a header is left as it is.
unfoldable pub free : Pool → Option ℕ → Option Pool
free p none = some p
free p (some ptr) = do
  (b, bs) ← find_live (sub64 ptr header_size) p.live
  let less = record p { size_in_use = sub64 p.size_in_use b.size; live = bs }
  let back = (do
    p' ← add_free_block less b
    some (record p' { free_count = add64 p'.free_count 1 }))
  if leb header_size b.size then back else some p

-- `getPage` is a parameter of the pool: it gets a number of pages and returns a page or null.
module _ {W : Type 0} (get_page : ℕ → W → Option ℕ × W) where
  -- The loop of `alloc`; the first argument counts the rounds left.
  unfoldable pub alloc_loop : ℕ → ℕ → Pool → W → Option (Option ℕ × Pool × W)
  alloc_loop zero size p w = some (none, p, w)
  alloc_loop (suc k) size p w = elim (find_existing_free_block p size) [
    | some (b, p') ↦ do
      (b', p'') ← split p' b size
      some (some (add64 b'.addr header_size), hand_out b' p'', w)
    | none ↦
        let (page, w') = get_page (pages_for size) w in
        elim page [
          | none ↦ some (none, p, w')
          | some a ↦ do
            p' ← add_free_block p (page_block a (pages_for size))
            alloc_loop k size p' w'
        ]
  ]

  unfoldable pub alloc : ℕ → Pool → W → Option (Option ℕ × Pool × W)
  alloc size p w = alloc_loop 2 size p w
