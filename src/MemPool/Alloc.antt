-- ===== src/MemPool/Alloc.antt =====
-- `MemPool::alloc`.
pub mod Loop
pub mod Serve
use dvnetos.Base.{
  ℕ, zero, suc, ◌+◌, ◌-◌, ◌*◌, ◌/◌, ◌%◌, ◌^◌, ◌≤◌, ◌<◌, ◌≡◌, refl, ◌∙◌, sym, Option, none, some,
  List, ◌∷◌, arith, leb, ltb, if◌then◌else◌, add64, sub64, mul64, ◌>>=◌, All, Bool-cases,
  Option-cases, inl, inr, ◌⊎◌, false,
}
use dvnetos.MemPool.{
  Block, block, Pool, header_size, page_size, add_free_block, find_fit, find_existing_free_block,
  split, hand_out, pages_for, page_block, alloc_loop, alloc,
}
use dvnetos.MemPool.Cover.{Fits, cover, covers, Added}
use dvnetos.MemPool.Account.{Counts, total}
use dvnetos.MemPool.FreeList.{IsFreeList, add_free_block-IsFreeList}
use dvnetos.MemPool.Find.{
  Taken, find_fit-Taken, covers-Taken, total-Taken, All-Taken, IsOrdered-Taken,
}
use dvnetos.MemPool.Links.{IsWhole, Linked, add_free_block-Linked}
use dvnetos.MemPool.Valid.{PageSource, IsValid, in_pages}

-- The block `b`, split for `size` bytes, as the block `b'` handed out and the pool `p'`.
pub record Splits (p : Pool) (b : Block) (size : ℕ) (b' : Block) (p' : Pool) : Type 0 where
  pub addr : b'.addr ≡ b.addr
  pub enough : size ≤ b'.size
  pub fits : Fits b'
  pub whole : IsWhole b'.size
  pub linked : All Linked p'.free_blocks
  pub covered : (x : ℕ) → cover x b' + covers x p'.free_blocks ≡ cover x b + covers x p.free_blocks
  pub live : p'.live ≡ p.live
  pub alloc_count : p'.alloc_count ≡ p.alloc_count
  pub in_use : (p'.size_in_use + b.size) % 2 ^ 64 ≡ (p.size_in_use + b'.size) % 2 ^ 64

-- The part of a block behind `size` bytes, and the pool that gets it back.
abbrev pub remnant : Block → ℕ → Block
remnant b size = block (add64 b.addr (header_size + size)) (sub64 b.size (size + header_size))

abbrev pub less_used : Pool → Block → ℕ → Pool
less_used p b size = record p {
  size_in_use = sub64 p.size_in_use ((remnant b size).size + header_size);
}

cover-remnant :
    (x : ℕ) (b : Block) (size : ℕ)
    → Fits b
    → size + header_size < b.size
    → cover x (block b.addr size) + cover x (remnant b size) ≡ cover x b
unfolding cover
cover-remnant x b size f h = ground arith

-- The remnant of whole sizes has room for a link.
remnant-Linked :
    (b : Block) (size : ℕ)
    → Fits b
    → IsWhole b.size
    → IsWhole size
    → size + header_size < b.size
    → Linked (remnant b size)
remnant-Linked b size f wb ws h = (omega arith, omega arith)

pub split-Splits :
    (p : Pool) (b : Block) (size : ℕ)
    → IsFreeList p
    → All Linked p.free_blocks
    → Fits b
    → Linked b
    → IsWhole size
    → size ≤ b.size
    → (b' : Block) × (p' : Pool) × (split p b size ≡ some (b', p'))
      × Splits p b size b' p'
      × IsFreeList p'
unfolding split
split-Splits p b size v linked f (_, whole) sw h =
    elim (Bool-cases (ltb (add64 size header_size) b.size)) [
      | inl e ↦
          let (q, a, added, list) =
            add_free_block-IsFreeList (less_used p b size) (remnant b size)
              (record { fits = v.fits; ordered = v.ordered; counts = v.counts }) (ground arith) in
          let room : ltb (remnant b size).size 8 ≡ false = ground arith in
          let rest = remnant-Linked b size f whole sw (ground arith) in
          (
            block b.addr size,
            q,
            rw (e, room, a) refl,
            record {
              addr = refl;
              enough = omega arith;
              fits = omega arith;
              whole = sw;
              linked =
                  add_free_block-Linked (less_used p b size) (remnant b size) v.fits linked
                    (ground arith) rest a;
              covered =
                  λ x. omega (arith, added.covered x, cover-remnant x b size f (ground arith));
              live = added.live;
              alloc_count = added.alloc_count;
              in_use = rw added.size_in_use (ground arith);
            },
            list,
          )
      | inr e ↦ (
        b,
        p,
        ground (arith, e),
        record {
          addr = refl;
          enough = h;
          fits = f;
          whole = whole;
          linked = linked;
          covered = λ x. refl;
          live = refl;
          alloc_count = refl;
          in_use = refl;
        },
        v,
      )
    ]

-- `getPage` returned a page: the block made of it lies in the address space and fills the pages.
pub page_block-Fits : (a n : ℕ) → 0 < n → a + n * page_size < 2 ^ 64 → Fits (page_block a n)
unfolding page_block
page_block-Fits a n pos f = omega arith

pub page_block-Linked : (a n : ℕ) → 0 < n → a + n * page_size < 2 ^ 64 → Linked (page_block a n)
unfolding page_block
page_block-Linked a n pos f = (omega arith, omega arith)

pub cover-page_block :
    (x a n : ℕ) → 0 < n → a + n * page_size < 2 ^ 64 → cover x (page_block a n) ≡ in_pages a n x
unfolding page_block cover
cover-page_block x a n pos f = ground arith

pub pages_for-pos : (size : ℕ) → 0 < pages_for size
unfolding pages_for
pages_for-pos size = omega arith

-- The pages that `alloc` asks for hold the block that it needs.
pub le-page_block :
    (a size : ℕ)
    → size + header_size < 2 ^ 64
    → a + pages_for size * page_size < 2 ^ 64
    → size ≤ (page_block a (pages_for size)).size
unfolding page_block pages_for
le-page_block a size h f = omega arith
