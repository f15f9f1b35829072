-- ===== src/MemPool/Order.antt =====
-- The order of the free list: by size, and no two free blocks border on one another.
use dvnetos.Base.{
  ℕ, zero, suc, ◌+◌, ◌≤◌, ◌<◌, ◌≡◌, refl, ◌∙◌, ap, false, none, some, List, [], ◌∷◌, ◌++◌,
  append_assoc, arith, leb, if◌then◌else◌, Bool-cases, inl, inr, length, length-append, All,
  Pairwise,
}
use dvnetos.MemPool.{
  Block, Pool, Scan, merge_if_possible, visit, scan, start, insert_at, add_free_block,
}
use dvnetos.MemPool.Passes.{visit-none, scan-Pairwise, insert_at-All, add_free_block_inv}

abbrev pub SizeLe : Block → Block → Type 0
SizeLe a b = a.size ≤ b.size

-- Neither block ends where the other begins.
abbrev pub Separate : Block → Block → Type 0
Separate a b = merge_if_possible a b ≡ none

-- A list of blocks by size, smallest first, with no two adjacent in memory.
pub record IsOrdered (bs : List Block) : Type 0 where
  pub by_size : Pairwise SizeLe bs
  pub separate : Pairwise Separate bs

Separate-sym : (a b : Block) → Separate a b → Separate b a
unfolding merge_if_possible
Separate-sym a b h = ground arith

Separate-All : (c : Block) (bs : List Block) → All (λ n. Separate n c) bs → All (Separate c) bs
Separate-All c [] h = tt
Separate-All c (b ∷ bs) (h, hs) = (Separate-sym b c h, Separate-All c bs hs)

insert_at-Separate :
    (k : ℕ) (c : Block) (bs : List Block)
    → All (λ n. Separate n c) bs
    → Pairwise Separate bs
    → Pairwise Separate (insert_at k c bs)
unfolding insert_at
insert_at-Separate zero c bs h p = (Separate-All c bs h, p)
insert_at-Separate (suc k) c [] h p = (tt, tt)
insert_at-Separate (suc k) c (b ∷ bs) (h, hs) (q, p) =
    (insert_at-All (Separate b) k c bs h q, insert_at-Separate k c bs hs p)

-- Insertion by size: behind every block that is no larger.
insert : Block → List Block → List Block
insert c [] = c ∷ []
insert c (b ∷ bs) = if leb b.size c.size then b ∷ insert c bs else c ∷ b ∷ bs

All-insert {κ} :
    (P : Block → Type κ) (c : Block) (bs : List Block) → P c → All P bs → All P (insert c bs)
unfolding insert
All-insert P c [] h hs = (h, tt)
All-insert P c (b ∷ bs) h (k, ks) = elim (Bool-cases (leb b.size c.size)) [
  | inl e ↦ rw e (k, All-insert P c bs h ks)
  | inr e ↦ rw e (h, (k, ks))
]

SizeLe-trans :
    (c b : Block) (bs : List Block) → c.size ≤ b.size → All (SizeLe b) bs → All (SizeLe c) bs
SizeLe-trans c b [] h _ = tt
SizeLe-trans c b (d ∷ bs) h (k, ks) = (omega arith, SizeLe-trans c b bs h ks)

SizeLt-All :
    (c b : Block) (bs : List Block)
    → c.size < b.size
    → All (SizeLe b) bs
    → All (λ n. c.size < n.size) bs
SizeLt-All c b [] h _ = tt
SizeLt-All c b (d ∷ bs) h (k, ks) = (omega arith, SizeLt-All c b bs h ks)

insert-Pairwise : (c : Block) (bs : List Block) → Pairwise SizeLe bs → Pairwise SizeLe (insert c bs)
unfolding insert
insert-Pairwise c [] _ = (tt, tt)
insert-Pairwise c (b ∷ bs) (h, hs) = elim (Bool-cases (leb b.size c.size)) [
  | inl e ↦ rw e (All-insert (SizeLe b) c bs (ground arith) h, insert-Pairwise c bs hs)
  | inr e ↦ rw e ((ground arith, SizeLe-trans c b bs (ground arith) h), (h, hs))
]

insert_at-length :
    (c : Block) (xs ys : List Block) → insert_at (length xs) c (xs ++ ys) ≡ xs ++ c ∷ ys
unfolding insert_at
insert_at-length c [] ys = refl
insert_at-length c (x ∷ xs) ys = ap (◌∷◌ x) (insert_at-length c xs ys)

add_at-visit :
    (n : Block) (s : Scan)
    → merge_if_possible n s.block ≡ none
    → s.merged ≡ false
    → (visit n s).add_at ≡ (if leb n.size s.block.size then length s.kept + 1 else s.add_at)
unfolding visit
add_at-visit n s e m = rw (e, m, visit)

-- Past the blocks that are no larger, `addAt` stays.
add_at_stays :
    (ns : List Block) (s : Scan)
    → All (λ n. merge_if_possible n s.block ≡ none) ns
    → s.merged ≡ false
    → All (λ n. s.block.size < n.size) ns
    → (scan ns s).add_at ≡ s.add_at
unfolding scan
add_at_stays [] s _ m _ = refl
add_at_stays (n ∷ ns) s (e, es) m (l, ls) =
    let (k, b, f, m') = visit-none n s e in
    add_at_stays ns (visit n s) (rw b es) (m' ∙ m) (rw b ls) ∙ add_at-visit n s e m ∙ ground arith

-- In a list by size `addAt` is the place behind the blocks that are no larger.
insert_at-add_at :
    (ns : List Block) (s : Scan)
    → All (λ n. merge_if_possible n s.block ≡ none) ns
    → s.merged ≡ false
    → s.add_at ≡ length s.kept
    → Pairwise SizeLe ns
    → insert_at (scan ns s).add_at s.block (s.kept ++ ns) ≡ s.kept ++ insert s.block ns
unfolding scan insert visit
insert_at-add_at [] s _ m a _ = rw a (insert_at-length s.block s.kept [])
insert_at-add_at (n ∷ ns) s (e, es) m a (h, hs) =
    let (k, b, f, m') = visit-none n s e in
    elim (Bool-cases (leb n.size s.block.size)) [
      | inl t ↦
          let at : (visit n s).add_at ≡ length (visit n s).kept =
            add_at-visit n s e m ∙ rw (t, k) (omega (arith, length-append s.kept (n ∷ []))) in
          let ih = insert_at-add_at ns (visit n s) (rw b es) (m' ∙ m) at hs in
          rw t (simp append_assoc at (rw (b, k) at ih))
      | inr t ↦
          let at : (visit n s).add_at ≡ length s.kept = add_at-visit n s e m ∙ rw t a in
          let larger : All (λ n'. (visit n s).block.size < n'.size) ns =
            rw b (SizeLt-All s.block n ns (ground arith) h) in
          rw (t, add_at_stays ns (visit n s) (rw b es) (m' ∙ m) larger, at)
            (insert_at-length s.block s.kept (n ∷ ns))
    ]

insert_at-by_size :
    (c : Block) (cs : List Block) (g : ℕ)
    → All (λ n. merge_if_possible n c ≡ none) cs
    → Pairwise SizeLe cs
    → Pairwise SizeLe (insert_at (scan cs (start c g)).add_at c cs)
insert_at-by_size c cs g alone h =
    rw (insert_at-add_at cs (start c g) alone refl refl h) (insert-Pairwise c cs h)

abbrev Kept : List Block → Block → ℕ → Type 0
Kept bs b f = IsOrdered bs

scan-Kept :
    (bs : List Block) (b : Block) (f : ℕ)
    → Kept bs b f
    → Kept (scan bs (start b f)).kept (scan bs (start b f)).block (scan bs (start b f)).size_free
scan-Kept bs b f o = record {
  by_size = scan-Pairwise SizeLe bs (start b f) o.by_size;
  separate = scan-Pairwise Separate bs (start b f) o.separate;
}

-- `addFreeBlock` leaves a free list that is in order in order: by size, smallest first, and with no
-- two free blocks adjacent in memory, since the new block is merged with its neighbours.
pub add_free_block-IsOrdered :
    (p : Pool) (b : Block)
    → IsOrdered p.free_blocks
    → (p' : Pool) × (add_free_block p b ≡ some p') × IsOrdered p'.free_blocks
add_free_block-IsOrdered p b o =
    let (cs, c, g, e, m, alone, last) = add_free_block_inv Kept scan-Kept p b o in
    (
      _,
      e,
      record {
        by_size = insert_at-by_size c cs g alone last.by_size;
        separate = insert_at-Separate (scan cs (start c g)).add_at c cs alone last.separate;
      },
    )
