-- ===== src/Paging/Ranges.antt =====
-- The ranges that pageTableToRanges reports are the pages that walkPageTableLeaf visits.
use native.Mathlib.Nat.{le-mul_of_pos_right}
use dvnetos.Base.{
  ℕ, zero, suc, ◌+◌, ◌*◌, ◌^◌, ◌≤◌, ◌<◌, ◌≡◌, refl, ◌∙◌, sym, ap, true, Option, none, some, List,
  [], ◌∷◌, ◌++◌, append-nil, append_assoc, arith, add64, sub64, bit_and, Bool-cases, inl, inr,
}
use dvnetos.Paging.{page_accessed, page_dirty, complement}
use dvnetos.Paging.Walk.{RangeData, Ranging, extends, add_leaf, leaf_callback, missing_callback}

-- A page: its physical address, flags and size.
abbrev pub Page : Type 0
Page = ℕ × ℕ × ℕ

abbrev page : (physical flags size : ℕ) → Page
page physical flags size = (physical, flags, size)

-- `k` pages of one size, one behind the other.
unfoldable pub pages : ℕ → (physical flags size : ℕ) → List Page
pages zero physical flags size = []
pages (suc k) physical flags size = (physical, flags, size) ∷ pages k (physical + size) flags size

unfoldable pub block_pages : RangeData → List Page
unfolding pages
block_pages b = pages b.page_count b.physical_start b.flags b.size

unfoldable pub all_pages : List RangeData → List Page
unfolding block_pages
all_pages [] = []
all_pages (b ∷ bs) = block_pages b ++ all_pages bs

-- A call of one of the two callbacks.
pub data Call : Type 0 where
  leaf : (virtual physical flags size : ℕ) → Call
  missing : ℕ → Call

abbrev pub report : RangeData → List RangeData → List RangeData
report b bs = bs ++ b ∷ []

unfoldable pub play : List Call → Ranging (List RangeData) → Ranging (List RangeData)
unfolding leaf_callback missing_callback
play [] s = s
play (leaf v p f z ∷ cs) s = play cs (leaf_callback report v p f z s).1
play (missing v ∷ cs) s = play cs (missing_callback report v s).1

abbrev pub kept_flags : ℕ → ℕ
kept_flags f = bit_and f (complement (page_accessed + page_dirty))

-- The pages of the calls, without the accessed and dirty flags.
unfoldable pub leaf_pages : List Call → List Page
leaf_pages [] = []
leaf_pages (leaf v p f z ∷ cs) = (p, kept_flags f, z) ∷ leaf_pages cs
leaf_pages (missing v ∷ cs) = leaf_pages cs

unfoldable pub open_pages : Option RangeData → List Page
unfolding block_pages
open_pages none = []
open_pages (some b) = block_pages b

-- The pages seen so far.
unfoldable pub seen : Ranging (List RangeData) → List Page
unfolding all_pages open_pages
seen s = all_pages s.caller ++ open_pages s.current_block

-- No page ends behind the address space.
unfoldable pub Bounded : List Call → Type 0
Bounded [] = Unit
Bounded (leaf v p f z ∷ cs) = ((0 < z) × (p + z < 2 ^ 64)) × Bounded cs
Bounded (missing v ∷ cs) = Bounded cs

-- The end of a block fits its start and its number of pages.
abbrev pub IsBlock : RangeData → Type 0
IsBlock b =
    (0 < b.size)
    × (b.physical_end + 1 ≡ b.physical_start + b.page_count * b.size)
    × (b.physical_end + 1 < 2 ^ 64)

unfoldable pub IsOpen : Option RangeData → Type 0
IsOpen none = Unit
IsOpen (some b) = IsBlock b

pages-last : (k a f z : ℕ) → pages (suc k) a f z ≡ pages k a f z ++ (a + k * z, f, z) ∷ []
unfolding pages
pages-last zero a f z = ap (λ b. (b, f, z) ∷ []) (omega arith)
pages-last (suc k) a f z =
    let place : a + z + k * z ≡ a + suc k * z = grind arith in
    ap (λ ps. (a, f, z) ∷ ps)
      (pages-last k (a + z) f z ∙ ap (λ b. pages k (a + z) f z ++ (b, f, z) ∷ []) place)

all_pages-append : (bs cs : List RangeData) → all_pages (bs ++ cs) ≡ all_pages bs ++ all_pages cs
unfolding all_pages
all_pages-append [] cs = refl
all_pages-append (b ∷ bs) cs =
    ap (λ ps. block_pages b ++ ps) (all_pages-append bs cs)
    ∙ sym (append_assoc (block_pages b) (all_pages bs) (all_pages cs))

sub64-end : (p z : ℕ) → 0 < z → p + z < 2 ^ 64 → sub64 (add64 p z) 1 + 1 ≡ p + z
sub64-end p z positive fits = omega arith

extends-facts :
    (b : RangeData) (p f z : ℕ)
    → 0 < b.size
    → b.physical_end + 1 ≡ b.physical_start + b.page_count * b.size
    → b.physical_end + 1 < 2 ^ 64
    → 0 < z
    → p + z < 2 ^ 64
    → extends b p f z ≡ true
    → (add64 b.page_count 1 ≡ suc b.page_count)
      × (p ≡ b.physical_start + b.page_count * b.size)
      × (b.flags ≡ f)
      × (b.size ≡ z)
extends-facts b p f z size_pos ends below positive fits e =
    let small : b.page_count ≤ b.page_count * b.size = le-mul_of_pos_right b.page_count size_pos in
    let next : p ≡ b.physical_start + b.page_count * b.size = ground arith in
    (omega arith, next, ground arith, ground arith)

grown :
    (b : RangeData) (p z : ℕ)
    → b.physical_end + 1 ≡ b.physical_start + b.page_count * b.size
    → p ≡ b.physical_start + b.page_count * b.size
    → b.size ≡ z
    → 0 < z
    → p + z < 2 ^ 64
    → sub64 (add64 p z) 1 + 1 ≡ b.physical_start + suc b.page_count * b.size
grown b p z ends next same positive fits =
    sub64-end p z positive fits ∙ rw (next, sym same) (grind arith)

last_page :
    (b : RangeData) (p f z : ℕ)
    → p ≡ b.physical_start + b.page_count * b.size
    → b.flags ≡ f
    → b.size ≡ z
    → page (b.physical_start + b.page_count * b.size) b.flags b.size ≡ page p f z
last_page b p f z next same_flags same_size = rw (same_flags, sym next, same_size) refl

-- A leaf is seen behind the others.
add_leaf-seen :
    (o : Option RangeData) (bs : List RangeData) (v p f z : ℕ)
    → IsOpen o
    → 0 < z
    → p + z < 2 ^ 64
    → let s = add_leaf report v p f z (record { current_block = o; caller = bs }) in
      IsOpen s.current_block
      × (seen s ≡ seen (record { current_block = o; caller = bs }) ++ (p, f, z) ∷ [])
unfolding add_leaf seen open_pages block_pages IsOpen pages
add_leaf-seen none bs v p f z h positive fits = (
  (positive, sub64-end p z positive fits ∙ omega arith, omega (arith, sub64-end p z positive fits)),
  ap (λ ps. ps ++ (p, f, z) ∷ []) (sym (append-nil (all_pages bs))),
)
add_leaf-seen (some b) bs v p f z (size_pos, ends, below) positive fits =
    elim (Bool-cases (extends b p f z)) [
      | inl e ↦
          let (count, next, same_flags, same_size) =
            extends-facts b p f z size_pos ends below positive fits e in
          rw (e, count)
            (
              (
                size_pos,
                grown b p z ends next same_size positive fits,
                omega (arith, sub64-end p z positive fits),
              ),
              ap (λ ps. all_pages bs ++ ps)
                    (pages-last b.page_count b.physical_start b.flags b.size
                      ∙ ap (λ l. block_pages b ++ l ∷ [])
                          (last_page b p f z next same_flags same_size))
                  ∙ sym (append_assoc (all_pages bs) (block_pages b) ((p, f, z) ∷ [])),
            )
      | inr e ↦ rw e (
        (
          positive,
          sub64-end p z positive fits ∙ omega arith,
          omega (arith, sub64-end p z positive fits),
        ),
        ap (λ ps. ps ++ (p, f, z) ∷ [])
            (all_pages-append bs (b ∷ [])
              ∙ ap (λ ps. all_pages bs ++ ps) (append-nil (block_pages b))),
      )
    ]

-- A hole in the tables ends the block.
missing-seen :
    (o : Option RangeData) (bs : List RangeData) (v : ℕ)
    → IsOpen o
    → let s = (missing_callback report v (record { current_block = o; caller = bs })).1 in
      IsOpen s.current_block × (seen s ≡ seen (record { current_block = o; caller = bs }))
unfolding missing_callback seen open_pages IsOpen
missing-seen none bs v h = (tt, refl)
missing-seen (some b) bs v h = (
  tt,
  append-nil (all_pages (bs ++ b ∷ []))
      ∙ all_pages-append bs (b ∷ [])
      ∙ ap (λ ps. all_pages bs ++ ps) (append-nil (block_pages b)),
)

play-seen :
    (cs : List Call) (s : Ranging (List RangeData))
    → Bounded cs
    → IsOpen s.current_block
    → seen (play cs s) ≡ seen s ++ leaf_pages cs
unfolding play leaf_pages Bounded leaf_callback
play-seen [] s bounded h = sym (append-nil (seen s))
play-seen (leaf v p f z ∷ cs) s ((positive, fits), bounded) h =
    let (open', step) =
      add_leaf-seen s.current_block s.caller v p (kept_flags f) z h positive fits in
    play-seen cs _ bounded open'
    ∙ ap (λ ps. ps ++ leaf_pages cs) step
    ∙ append_assoc (seen s) ((p, kept_flags f, z) ∷ []) (leaf_pages cs)
play-seen (missing v ∷ cs) s bounded h =
    let (open', step) = missing-seen s.current_block s.caller v h in
    play-seen cs _ bounded open' ∙ ap (λ ps. ps ++ leaf_pages cs) step

abbrev pub start : Ranging (List RangeData)
start = record { current_block = none; caller = [] }

-- For leaves of at least one byte that end below 2^64: whatever the order of the calls of the two
-- callbacks, the ranges reported, and the block that is still open at the end, consist of exactly
-- the pages of the leaf calls, in their order, with their sizes and their flags except accessed
-- and dirty.
pub play_lem :
    (cs : List Call)
    → Bounded cs
    → all_pages (play cs start).caller ++ open_pages (play cs start).current_block ≡ leaf_pages cs
unfolding seen all_pages open_pages IsOpen
play_lem cs bounded = play-seen cs start bounded tt
