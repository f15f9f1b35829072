-- ===== src/MemPool/Find.antt =====
-- The searches: `findExistingFreeBlock` over the free list, and the header that `free` reads.
use mathlib.Core.Path.{subst}
use dvnetos.Base.{
  ℕ, ◌+◌, ◌≤◌, ◌<◌, ◌≡◌, refl, sym, Option, none, some, List, [], ◌∷◌, ◌++◌, ap, All-middle,
  All-remove, Pairwise-remove, arith, leb, ◌==◌, ◌>>=◌, All, Pairwise, Bool-cases, inl, inr,
}
use dvnetos.MemPool.{Block, find_fit, find_live}
use dvnetos.MemPool.Cover.{covers, cover, covers-append}
use dvnetos.MemPool.Order.{SizeLe, Separate, IsOrdered}
use dvnetos.MemPool.Account.{total, total-append}

-- `b` taken out of the list `bs` leaves `cs`.
pub record Taken (bs : List Block) (b : Block) (cs : List Block) : Type 0 where
  pub front : List Block
  pub back : List Block
  pub whole : bs ≡ front ++ b ∷ back
  pub rest : cs ≡ front ++ back

Taken-here : (b : Block) (bs : List Block) → Taken (b ∷ bs) b bs
Taken-here b bs = record { front = []; back = bs; whole = refl; rest = refl }

Taken-later :
    {bs cs : List Block} {b : Block} (d : Block) → Taken bs b cs → Taken (d ∷ bs) b (d ∷ cs)
Taken-later d t = record {
  front = d ∷ t.front;
  back = t.back;
  whole = ap (◌∷◌ d) t.whole;
  rest = ap (◌∷◌ d) t.rest;
}

module _ {bs cs : List Block} {b : Block} (t : Taken bs b cs) where
  pub covers-Taken : (x : ℕ) → covers x bs ≡ cover x b + covers x cs
  unfolding covers
  covers-Taken x =
      rw (t.whole, t.rest)
        (omega (arith, covers-append x t.front (b ∷ t.back), covers-append x t.front t.back))

  pub total-Taken : total bs ≡ b.size + total cs
  unfolding total
  total-Taken =
      rw (t.whole, t.rest)
        (omega (arith, total-append t.front (b ∷ t.back), total-append t.front t.back))

  pub All-Taken : (P : Block → Type 0) → All P bs → P b × All P cs
  All-Taken P h =
      let h' = rw t.whole at h in
      (All-middle P t.front b t.back h', rw t.rest (All-remove P t.front b t.back h'))

  pub IsOrdered-Taken : IsOrdered bs → IsOrdered cs
  IsOrdered-Taken o = record {
    by_size = rw t.rest (Pairwise-remove SizeLe t.front b t.back (rw t.whole at o.by_size));
    separate = rw t.rest (Pairwise-remove Separate t.front b t.back (rw t.whole at o.separate));
  }

-- No block of the list that holds `size` bytes is smaller than `b`.
abbrev pub IsSmallestFit : ℕ → Block → List Block → Type 0
IsSmallestFit size b bs = All (λ c. size ≤ c.size → b.size ≤ c.size) bs

SizeLe-fits : (size : ℕ) (d : Block) (ds : List Block) → All (SizeLe d) ds → IsSmallestFit size d ds
SizeLe-fits size d [] h = tt
SizeLe-fits size d (c ∷ ds) (h, hs) = ((λ _. h), SizeLe-fits size d ds hs)

-- A result behind the head of the list comes from the search of its tail.
found_later :
    (d : Block) (o : Option (Block × List Block)) {b : Block} {cs : List Block}
    → ◌>>=◌ {B = Block × List Block} o (λ (c, ds). some (c, d ∷ ds)) ≡ some (b, cs)
    → (ds : List Block) × (o ≡ some (b, ds)) × (cs ≡ d ∷ ds)
found_later d none h = cc
found_later d (some (c, ds)) h = (ds, ground arith, ground arith)

-- What the search for a block of `size` bytes finds.
pub find_fit-Taken :
    (size : ℕ) (bs : List Block) (b : Block) (cs : List Block)
    → find_fit size bs ≡ some (b, cs)
    → Taken bs b cs × (size ≤ b.size)
unfolding find_fit
find_fit-Taken size [] b cs h = cc
find_fit-Taken size (d ∷ ds) b cs h = elim (Bool-cases (leb size d.size)) [
  | inl e ↦
      let h' = rw e at h in
      let eb : b ≡ d = ground arith in
      let ecs : cs ≡ ds = ground arith in rw (eb, ecs) (Taken-here d ds, ground arith)
  | inr e ↦
      let (cs', found, ecs) = found_later d (find_fit size ds) (rw e at h) in
      let (t, fits) = find_fit-Taken size ds b cs' found in (rw ecs (Taken-later d t), fits)
]

-- The first block that is large enough is, in a list by size, a smallest one.
pub find_fit_best :
    (size : ℕ) (bs : List Block) (b : Block) (cs : List Block)
    → Pairwise SizeLe bs
    → find_fit size bs ≡ some (b, cs)
    → IsSmallestFit size b bs
unfolding find_fit
find_fit_best size [] b cs o h = tt
find_fit_best size (d ∷ ds) b cs (o, os) h = elim (Bool-cases (leb size d.size)) [
  | inl e ↦
      let h' = rw e at h in
      let eb : b ≡ d = ground arith in
      subst (λ (c : Block). IsSmallestFit size c (d ∷ ds)) (sym eb)
        ((λ _. omega arith), SizeLe-fits size d ds o)
  | inr e ↦
      let (cs', found, ecs) = found_later d (find_fit size ds) (rw e at h) in
      ((λ le. absurd (ground arith)), find_fit_best size ds b cs' os found)
]

-- The header that `free` finds.
pub find_live-Taken :
    (a : ℕ) (bs : List Block) (b : Block) (cs : List Block)
    → find_live a bs ≡ some (b, cs)
    → Taken bs b cs × (b.addr ≡ a)
unfolding find_live
find_live-Taken a [] b cs h = cc
find_live-Taken a (d ∷ ds) b cs h = elim (Bool-cases (d.addr == a)) [
  | inl e ↦
      let h' = rw e at h in
      let eb : b ≡ d = ground arith in
      let ecs : cs ≡ ds = ground arith in rw (eb, ecs) (Taken-here d ds, ground arith)
  | inr e ↦
      let (cs', found, ecs) = found_later d (find_live a ds) (rw e at h) in
      let (t, at) = find_live-Taken a ds b cs' found in (rw ecs (Taken-later d t), at)
]

-- Where the search finds none, every block is too small.
pub find_fit-none :
    (size : ℕ) (bs : List Block) → find_fit size bs ≡ none → All (λ b. b.size < size) bs
unfolding find_fit
find_fit-none size [] h = tt
find_fit-none size (d ∷ ds) h = (ground arith, find_fit-none size ds (ground arith))
