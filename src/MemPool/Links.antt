-- ===== src/MemPool/Links.antt =====
-- The links of the free list, which stand in the first eight bytes of the data of a free block: the
-- data of every free block has room for its link.
use dvnetos.Base.{
  ℕ, ◌%◌, ◌≤◌, ◌≡◌, ◌∙◌, sym, some, List, [], ◌∷◌, arith, All, All-append, Option-cases, inl, inr,
}
use mathlib.Core.Option.{some-injective}
use mathlib.Core.Path.{subst}
use dvnetos.MemPool.{
  Block, Scan, Pool, merge_if_possible, visit, scan, start, insert_at, add_free_block,
}
use dvnetos.MemPool.Passes.{insert_at-All, add_free_block_inv}
use dvnetos.MemPool.Cover.{Fits, merge_if_possible-Fits}

-- A size that `alloc` can split off without a remnant that is too small for a link.
abbrev pub IsWhole : ℕ → Type 0
IsWhole n = n % 8 ≡ 0

-- A free block with room for a link, and a size of whole links.
abbrev pub Linked : Block → Type 0
Linked b = (8 ≤ b.size) × IsWhole b.size

abbrev Sound : Block → Type 0
Sound b = Fits b × Linked b

merge_if_possible-Linked :
    (n b : Block) {m : Block} → Sound n → Sound b → merge_if_possible n b ≡ some m → Linked m
unfolding merge_if_possible
merge_if_possible-Linked n b (fn, (ln, wn)) (fb, (lb, wb)) h = (ground arith, ground arith)

abbrev AllSound : List Block → Block → Type 0
AllSound bs b = All Sound bs × Sound b

visit-AllSound :
    (n : Block) (s : Scan)
    → Sound n
    → AllSound s.kept s.block
    → AllSound (visit n s).kept (visit n s).block
unfolding visit
visit-AllSound n s sn (sk, sb) = elim (Option-cases (merge_if_possible n s.block)) [
  | inl e ↦ rw (e, visit) (All-append Sound s.kept (n ∷ []) sk (sn, tt), sb)
  | inr (m, e) ↦
      rw (e, visit)
        (
          sk,
          (
            merge_if_possible-Fits n s.block sn.0 sb.0 e,
            merge_if_possible-Linked n s.block sn sb e,
          ),
        )
]

scan-AllSound :
    (ns : List Block) (s : Scan)
    → All Sound ns
    → AllSound s.kept s.block
    → AllSound (scan ns s).kept (scan ns s).block
unfolding scan
scan-AllSound [] s _ h = h
scan-AllSound (n ∷ ns) s (sn, sns) h = scan-AllSound ns (visit n s) sns (visit-AllSound n s sn h)

All-Sound : (bs : List Block) → All Fits bs → All Linked bs → All Sound bs
All-Sound [] _ _ = tt
All-Sound (b ∷ bs) (f, fs) (l, ls) = ((f, l), All-Sound bs fs ls)

All-Linked : (bs : List Block) → All Sound bs → All Linked bs
All-Linked [] _ = tt
All-Linked (b ∷ bs) ((f, l), ss) = (l, All-Linked bs ss)

-- A block with room for a link leaves a free list with room for its links.
pub add_free_block-Linked :
    (p : Pool) (b : Block) {p' : Pool}
    → All Fits p.free_blocks
    → All Linked p.free_blocks
    → Fits b
    → Linked b
    → add_free_block p b ≡ some p'
    → All Linked p'.free_blocks
add_free_block-Linked p b fs ls fb lb h =
    let (cs, c, g, e, m, alone, (scs, sc)) =
      add_free_block_inv (λ bs b f. AllSound bs b)
        (λ bs b f (ss, s). scan-AllSound bs (start b f) ss (tt, s)) p b
        (All-Sound p.free_blocks fs ls, (fb, lb)) in
    let k = (scan cs (start c g)).add_at in
    subst (λ (q : Pool). All Linked q.free_blocks) (some-injective _ _ (sym e ∙ h))
      (All-Linked (insert_at k c cs) (insert_at-All Sound k c cs sc scs))
