-- ===== src/Paging/Runs.antt =====
-- The ranges of pageTableToRanges, one for each run of adjacent leaves: an independent description, in
-- which a leaf is compared with the leaf before it, and not with the end of a block.
use dvnetos.Base.{
  ℕ, ◌+◌, ◌%◌, ◌^◌, ◌≡◌, refl, ◌∙◌, sym, ap, Bool, true, ◌&&◌, ◌==◌, if◌then◌else◌, Option, none,
  some, List, [], ◌∷◌, ◌++◌, append-nil, append_assoc, arith, add64, sub64, length, length-append,
  Bool-cases, inl, inr,
}
use dvnetos.Paging.Walk.{
  RangeData, Ranging, extends, extend_block, add_leaf, leaf_callback, missing_callback,
}
use dvnetos.Paging.Ranges.{Call, leaf, missing, play, kept_flags}

pub record Leaf : Type 0 where
  pub virtual : ℕ
  pub physical : ℕ
  pub flags : ℕ
  pub size : ℕ

abbrev leaf_at : (virtual physical flags size : ℕ) → Leaf
leaf_at v p f z = record { virtual = v; physical = p; flags = f; size = z }

-- The first leaf of a run, and the others.
abbrev pub LeafRun : Type 0
LeafRun = Leaf × List Leaf

unfoldable pub last_of : Leaf → List Leaf → Leaf
last_of l [] = l
last_of l (l' ∷ ls) = last_of l' ls

-- The leaf `l'` is in physical memory behind `l`, with the same flags and size.
abbrev pub joins : Leaf → Leaf → Bool
joins l l' = add64 l.physical l.size == l'.physical && (l.flags == l'.flags && l.size == l'.size)

-- The range of a run: from its first leaf to the end of its last one.
abbrev pub range : LeafRun → RangeData
range (l, ls) =
    let e = last_of l ls in
    record {
      virtual_start = l.virtual;
      virtual_end = sub64 (add64 e.virtual e.size) 1;
      physical_start = l.physical;
      physical_end = sub64 (add64 e.physical e.size) 1;
      flags = l.flags;
      page_count = (length ls + 1) % 2 ^ 64;
      size = l.size;
    }

unfoldable pub ranges : List LeafRun → List RangeData
unfolding last_of
ranges [] = []
ranges (r ∷ rs) = range r ∷ ranges rs

unfoldable pub open_range : Option LeafRun → Option RangeData
unfolding last_of
open_range none = none
open_range (some r) = some (range r)

-- The runs of the calls behind an open run, and the run that is open at the end. A leaf that does not
-- join the one before it begins a run, and a hole ends one.
unfoldable pub runs : Option LeafRun → List Call → List LeafRun × Option LeafRun
unfolding last_of
runs o [] = ([], o)
runs none (leaf v p f z ∷ cs) = runs (some (leaf_at v p (kept_flags f) z, [])) cs
runs (some (l, ls)) (leaf v p f z ∷ cs) =
    let l' = leaf_at v p (kept_flags f) z in
    let grown = runs (some (l, ls ++ l' ∷ [])) cs in
    let (rs, o) = runs (some (l', [])) cs in
    if joins (last_of l ls) l' then grown else ((l, ls) ∷ rs, o)
runs none (missing v ∷ cs) = runs none cs
runs (some r) (missing v ∷ cs) = let (rs, o) = runs none cs in (r ∷ rs, o)

-- The leaves of the calls, without the accessed and dirty flags.
unfoldable pub leaves : List Call → List Leaf
leaves [] = []
leaves (leaf v p f z ∷ cs) = leaf_at v p (kept_flags f) z ∷ leaves cs
leaves (missing v ∷ cs) = leaves cs

abbrev pub run_leaves : LeafRun → List Leaf
run_leaves (l, ls) = l ∷ ls

unfoldable pub open_leaves : Option LeafRun → List Leaf
open_leaves none = []
open_leaves (some r) = run_leaves r

unfoldable pub all_leaves : List LeafRun → List Leaf
all_leaves [] = []
all_leaves (r ∷ rs) = run_leaves r ++ all_leaves rs

-- All leaves of a run have the flags and the size of its first one.
unfoldable pub IsUniform : Option LeafRun → Type 0
unfolding last_of
IsUniform none = Unit
IsUniform (some (l, ls)) = ((last_of l ls).flags ≡ l.flags) × ((last_of l ls).size ≡ l.size)

last_of-append : (l l' : Leaf) (ls : List Leaf) → last_of l (ls ++ l' ∷ []) ≡ l'
unfolding last_of
last_of-append l l' [] = refl
last_of-append l l' (k ∷ ls) = last_of-append k l' ls

extends-joins :
    (l : Leaf) (ls : List Leaf) (l' : Leaf)
    → IsUniform (some (l, ls))
    → extends (range (l, ls)) l'.physical l'.flags l'.size ≡ joins (last_of l ls) l'
unfolding IsUniform
extends-joins l ls l' (same_flags, same_size) =
    let e = last_of l ls in
    let end : add64 (sub64 (add64 e.physical e.size) 1) 1 ≡ add64 e.physical e.size = omega arith in
    rw (end, same_flags, same_size) refl

joins-IsUniform :
    (l : Leaf) (ls : List Leaf) (l' : Leaf)
    → IsUniform (some (l, ls))
    → joins (last_of l ls) l' ≡ true
    → IsUniform (some (l, ls ++ l' ∷ []))
unfolding IsUniform
joins-IsUniform l ls l' (same_flags, same_size) e =
    rw (last_of-append l l' ls) (ground arith, ground arith)

extend_block-range :
    (l : Leaf) (ls : List Leaf) (l' : Leaf)
    → extend_block (range (l, ls)) l'.virtual l'.physical l'.size ≡ range (l, ls ++ l' ∷ [])
extend_block-range l ls l' =
    let count : add64 ((length ls + 1) % 2 ^ 64) 1 ≡ (length (ls ++ l' ∷ []) + 1) % 2 ^ 64 =
      omega (arith, length-append ls (l' ∷ [])) in
    rw (last_of-append l l' ls, count) refl

abbrev ranging : Option LeafRun → List RangeData → Ranging (List RangeData)
ranging o bs = record { current_block = open_range o; caller = bs }

-- The calls report the ranges of the runs that end, and leave the range of the open one.
pub play-ranges :
    (cs : List Call) (o : Option LeafRun) (bs : List RangeData)
    → IsUniform o
    → play cs (ranging o bs) ≡ ranging (runs o cs).1 (bs ++ ranges (runs o cs).0)
unfolding play leaf_callback add_leaf missing_callback runs ranges open_range IsUniform
play-ranges [] o bs u = ap (ranging o) (sym (append-nil bs))
play-ranges (leaf v p f z ∷ cs) none bs u =
    play-ranges cs (some (leaf_at v p (kept_flags f) z, [])) bs (refl, refl)
play-ranges (leaf v p f z ∷ cs) (some (l, ls)) bs u =
    let l' = leaf_at v p (kept_flags f) z in
    elim (Bool-cases (joins (last_of l ls) l')) [
      | inl e ↦
          rw (extends-joins l ls l' u, e, extend_block-range l ls l')
            (play-ranges cs (some (l, ls ++ l' ∷ [])) bs (joins-IsUniform l ls l' u e))
      | inr e ↦
          rw (extends-joins l ls l' u, e)
            (play-ranges cs (some (l', [])) (bs ++ range (l, ls) ∷ []) (refl, refl)
              ∙ ap (ranging (runs (some (l', [])) cs).1)
                  (append_assoc bs (range (l, ls) ∷ []) (ranges (runs (some (l', [])) cs).0)))
    ]
play-ranges (missing v ∷ cs) none bs u = play-ranges cs none bs tt
play-ranges (missing v ∷ cs) (some r) bs u =
    play-ranges cs none (bs ++ range r ∷ []) tt
    ∙ ap (ranging (runs none cs).1) (append_assoc bs (range r ∷ []) (ranges (runs none cs).0))

-- The runs are made up of the leaves, in their order.
pub runs-leaves :
    (cs : List Call) (o : Option LeafRun)
    → all_leaves (runs o cs).0 ++ open_leaves (runs o cs).1 ≡ open_leaves o ++ leaves cs
unfolding runs leaves all_leaves open_leaves
runs-leaves [] o = sym (append-nil (open_leaves o))
runs-leaves (leaf v p f z ∷ cs) none = runs-leaves cs (some (leaf_at v p (kept_flags f) z, []))
runs-leaves (leaf v p f z ∷ cs) (some (l, ls)) =
    let l' = leaf_at v p (kept_flags f) z in
    let (rs, o) = runs (some (l', [])) cs in
    elim (Bool-cases (joins (last_of l ls) l')) [
      | inl e ↦ rw e (
          runs-leaves cs (some (l, ls ++ l' ∷ []))
          ∙ ap (λ ks. l ∷ ks) (append_assoc ls (l' ∷ []) (leaves cs)))
      | inr e ↦ rw e (
          append_assoc (l ∷ ls) (all_leaves rs) (open_leaves o)
          ∙ ap (λ ks. l ∷ ls ++ ks) (runs-leaves cs (some (l', []))))
    ]
runs-leaves (missing v ∷ cs) none = runs-leaves cs none
runs-leaves (missing v ∷ cs) (some r) =
    append_assoc (run_leaves r) (all_leaves (runs none cs).0) (open_leaves (runs none cs).1)
    ∙ ap (λ ks. run_leaves r ++ ks) (runs-leaves cs none)
