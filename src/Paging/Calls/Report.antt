-- ===== src/Paging/Calls/Report.antt =====
-- What pageTableToRanges reports of the calls of walkPageTableLeaf.
use mathlib.Core.Path.{subst}
use dvnetos.Base.{
  ℕ, zero, suc, ◌+◌, ◌-◌, ◌*◌, ◌/◌, ◌%◌, ◌^◌, ◌<◌, ◌≡◌, refl, ◌∙◌, sym, ap, arith, Bool, true,
  false, not, Option, none, some, ◌>>=◌, List, [], ◌∷◌, ◌++◌, if◌then◌else◌, bit_and, bit_and-shift,
  bit_and-ones,
}
use dvnetos.Paging.{
  Words, entry_at, page_entries, page_size, page_present, page_size_flag, page_flags_mask,
  page_addr_mask3, complement, is_set,
}
use dvnetos.Paging.Walk.{RangeData, page_table_to_ranges}
use dvnetos.Paging.Ranges.{
  Call, leaf, missing, play, report, start, all_pages, open_pages, leaf_pages, Bounded, play_lem,
}
use dvnetos.Paging.Runs.{
  runs, ranges, open_range, leaves, all_leaves, open_leaves, IsUniform, play-ranges, runs-leaves,
}
use dvnetos.Paging.Calls.{
  collect, next, l4_calls, l3_calls, l2_calls, l1_calls, table_calls, page_table_to_ranges-played,
}

-- The calls, if there are any, stay below the end of the address space.
abbrev BoundedIf : Option (List Call) → Type 0
BoundedIf none = Unit
BoundedIf (some cs) = Bounded cs

Bounded-append : (cs ds : List Call) → Bounded cs → Bounded ds → Bounded (cs ++ ds)
unfolding Bounded
Bounded-append [] ds h h' = h'
Bounded-append (leaf v p f z ∷ cs) ds (here, h) h' = (here, Bounded-append cs ds h h')
Bounded-append (missing v ∷ cs) ds h h' = Bounded-append cs ds h h'

join-BoundedIf :
    (o o' : Option (List Call))
    → BoundedIf o
    → BoundedIf o'
    → BoundedIf (o >>= λ cs. o' >>= λ ds. some (cs ++ ds))
join-BoundedIf none o' h h' = tt
join-BoundedIf (some cs) none h h' = tt
join-BoundedIf (some cs) (some ds) h h' = Bounded-append cs ds h h'

collect-BoundedIf :
    (k : ℕ) (f : ℕ → Option (List Call)) (i : ℕ)
    → ((i : ℕ) → BoundedIf (f i))
    → BoundedIf (collect k f i)
unfolding collect Bounded
collect-BoundedIf zero f i h = tt
collect-BoundedIf (suc k) f i h =
    join-BoundedIf (f i) (collect k f (i + 1)) (h i) (collect-BoundedIf k f (i + 1) h)

if-BoundedIf :
    (b : Bool) (o o' : Option (List Call))
    → BoundedIf o
    → BoundedIf o'
    → BoundedIf (if b then o else o')
if-BoundedIf true o o' h h' = h
if-BoundedIf false o o' h h' = h'

leaf-BoundedIf : (v p f z : ℕ) → 0 < z → p + z < 2 ^ 64 → BoundedIf (some (leaf v p f z ∷ []))
unfolding Bounded
leaf-BoundedIf v p f z h h' = ((h, h'), tt)

missing-BoundedIf : (v : ℕ) → BoundedIf (some (missing v ∷ []))
unfolding Bounded
missing-BoundedIf v = tt

small-address : (e : ℕ) → bit_and e (complement page_flags_mask) < 2 ^ 52
small-address e =
    let masked : bit_and e ((2 ^ 40 - 1) * 2 ^ 12) ≡ e / 2 ^ 12 % 2 ^ 40 * 2 ^ 12 =
      bit_and-shift 12 e (2 ^ 40 - 1) ∙ ap (λ x. x * 2 ^ 12) (bit_and-ones 40 (e / 2 ^ 12)) in
    omega (arith, masked)

huge-address : (e : ℕ) → bit_and e page_addr_mask3 < 2 ^ 52
huge-address e =
    let masked : bit_and e ((2 ^ 32 - 1) * 2 ^ 20) ≡ e / 2 ^ 20 % 2 ^ 32 * 2 ^ 20 =
      bit_and-shift 20 e (2 ^ 32 - 1) ∙ ap (λ x. x * 2 ^ 20) (bit_and-ones 32 (e / 2 ^ 20)) in
    omega (arith, masked)

module _ (w : Words) (map_func : ℕ → ℕ) where
  l4-BoundedIf : (table i j k l : ℕ) → BoundedIf (l4_calls w map_func table i j k l)
  l4-BoundedIf table i j k l =
      let entry = w (entry_at table l) in
      if-BoundedIf (is_set entry page_present) _ _
        (leaf-BoundedIf _ (bit_and entry (complement page_flags_mask)) _ page_size (omega arith)
          (omega (arith, small-address entry)))
        (missing-BoundedIf _)

  l3-BoundedIf : (table i j k : ℕ) → BoundedIf (l3_calls w map_func table i j k)
  l3-BoundedIf table i j k =
      let entry = w (entry_at table k) in
      if-BoundedIf (not (is_set entry page_present)) _ _ (missing-BoundedIf _) (
        if-BoundedIf (is_set entry page_size_flag) _ _
          (leaf-BoundedIf _ (bit_and entry page_addr_mask3) _ (page_size * page_entries)
            (omega arith) (omega (arith, huge-address entry)))
          (collect-BoundedIf page_entries _ 0 (l4-BoundedIf (next w map_func entry) i j k)))

  l2-BoundedIf : (table i j : ℕ) → BoundedIf (l2_calls w map_func table i j)
  l2-BoundedIf table i j =
      let entry = w (entry_at table j) in
      if-BoundedIf (not (is_set entry page_present)) _ _ (missing-BoundedIf _) (
        if-BoundedIf (is_set entry page_size_flag) none _ tt
          (collect-BoundedIf page_entries _ 0 (l3-BoundedIf (next w map_func entry) i j)))

  l1-BoundedIf : (table i : ℕ) → BoundedIf (l1_calls w map_func table i)
  l1-BoundedIf table i =
      let entry = w (entry_at table i) in
      if-BoundedIf (is_set entry page_present) _ _
        (collect-BoundedIf page_entries _ 0 (l2-BoundedIf (next w map_func entry) i))
        (missing-BoundedIf _)

  table-BoundedIf : (table : ℕ) → BoundedIf (table_calls w map_func table)
  unfolding table_calls
  table-BoundedIf table = collect-BoundedIf page_entries _ 0 (l1-BoundedIf table)

-- What is reported for the calls: the ranges of the runs of leaves that end. These runs and the one
-- that is open at the end are made up of the leaves in their order, and so are their pages.
abbrev pub Reports : Option (List Call) → Option (List RangeData) → Type 0
Reports none o = o ≡ none
Reports (some cs) o =
    let (ended, last) = runs none cs in
    (o ≡ some (ranges ended))
    × (all_leaves ended ++ open_leaves last ≡ leaves cs)
    × (all_pages (ranges ended) ++ open_pages (open_range last) ≡ leaf_pages cs)

Reports-played :
    (o : Option (List Call)) → BoundedIf o → Reports o (o >>= λ cs. some (play cs start).caller)
unfolding open_range IsUniform open_leaves
Reports-played none h = refl
Reports-played (some cs) h =
    let played : play cs start
        ≡ record { current_block = open_range (runs none cs).1; caller = ranges (runs none cs).0 } =
      play-ranges cs none [] tt in
    (
      ap (λ s. some s.caller) played,
      runs-leaves cs none,
      sym (ap (λ s. all_pages s.caller ++ open_pages s.current_block) played) ∙ play_lem cs h,
    )

-- For every table and memory, pageTableToRanges panics exactly if the walk meets a page of 1 GB;
-- otherwise it reports exactly one range for each run of leaves that ends: a run is ended by a hole in
-- the tables or by a leaf that is not behind the last one in physical memory or has other flags or
-- another size, and the one that is open at the end is not reported. A range has the addresses of
-- the first leaf of its run, the ends of the last one, and the number of leaves modulo 2^64. The runs
-- and the open one hold exactly the leaves of the tables, each once and in the order of their indexes.
pub page_table_to_ranges-Reports :
    (w : Words) (map_func : ℕ → ℕ) (table : ℕ)
    → Reports
        (table_calls w map_func table)
        (page_table_to_ranges report (λ bs. w) map_func table [])
page_table_to_ranges-Reports w map_func table =
    subst (Reports (table_calls w map_func table))
      (sym (page_table_to_ranges-played w map_func table))
      (Reports-played (table_calls w map_func table) (table-BoundedIf w map_func table))
