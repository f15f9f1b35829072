-- ===== src/Paging/View/Map.antt =====
-- mapMemory with pages of 4096 bytes as an update of the entries that map memory.
use dvnetos.Base.{
  ℕ, zero, suc, ◌+◌, ◌*◌, ◌<◌, ◌≡◌, refl, ◌∙◌, ap, inl, inr, arith, Bool, true, false, not, ◌&&◌,
  Option, none, some, ◌>>=◌, List, [], ◌∷◌, length, ◌==◌, if◌then◌else◌, add64, Bool-cases,
}
use dvnetos.Paging.{
  Paging, Indexes, virtual_to_page_indexes, entry_at, page_size, initial_pool_size, table_of,
  set_entry, map_loop,
}
use dvnetos.Paging.View.{entries, path}
use dvnetos.Paging.View.Descent.{Descent, descend, virtual_to_page_indexes-IsIndexes}
use dvnetos.Paging.View.Write.{
  View, new_entry, update, Shows, after, set-conflict, set-after, after-Shows,
}

-- The pages are entered one by one; an entry for another page, or with other flags, is a panic.
unfoldable pub map_view : ℕ → View → (pa va flags : ℕ) → Option View
unfolding path
map_view zero f pa va flags = some f
map_view (suc n) f pa va flags =
    let rest =
      map_view n (update f (path va) (new_entry pa flags)) (add64 pa page_size) (add64 va page_size)
        flags in
    if not (f (path va) == 0) && not (f (path va) == new_entry pa flags) then none else rest

-- A run either panics or ends in tables that map what the view says.
abbrev pub RunShows : Option View → Option Paging → Type 0
RunShows none o = o ≡ none
RunShows (some g) o = (p' : Paging) × (o ≡ some p') × Shows p' g

-- The table of the entry of a page.
abbrev page_table : {p : Paging} {i : Indexes} → Descent p i → ℕ
page_table {p} {i} d =
    table_of d.p3
      (entry_at (table_of d.p2 (entry_at (table_of d.p1 (entry_at d.p1.root i.l1)) i.l2)) i.l3)

map_loop-step :
    (n : ℕ) (p : Paging) (pa va flags : ℕ) (d : Descent p (virtual_to_page_indexes va))
    → map_loop (suc n) p pa va page_size flags ≡ (
        set_entry d.p3 (page_table d) (virtual_to_page_indexes va).l4 pa flags >>= λ p4.
        map_loop n p4 (add64 pa page_size) (add64 va page_size) page_size flags)
unfolding map_loop
map_loop-step n p pa va flags d = rw (d.runs1, d.runs2, d.unskipped, d.runs3) (last _ _ _)
  where
    last : (b : Bool) (o : Option Paging) (o' : Option Paging) → (if b && false then o else o') ≡ o'
    last true o o' = refl
    last false o o' = refl

abbrev pub clashes : View → (pa va flags : ℕ) → Bool
clashes f pa va flags = not (f (path va) == 0) && not (f (path va) == new_entry pa flags)

pub map_view-step :
    (n : ℕ) (f : View) (pa va flags : ℕ)
    → map_view (suc n) f pa va flags ≡ (
        if clashes f pa va flags
        then none
        else map_view n
            (update f (path va) (new_entry pa flags))
            (add64 pa page_size)
            (add64 va page_size)
            flags)
unfolding map_view
map_view-step n f pa va flags = refl

zero-RunShows :
    (p : Paging) (f : View) (pa va flags : ℕ)
    → Shows p f
    → RunShows (map_view zero f pa va flags) (map_loop zero p pa va page_size flags)
unfolding map_view map_loop
zero-RunShows p f pa va flags shows = (p, refl, shows)

-- The loop over pages of 4096 bytes does to the tables what map_view does to the view, panics
-- included, as long as the pool has three pages left for each of them.
pub map_loop-RunShows :
    (n : ℕ) (p : Paging) (f : View) (pa va flags : ℕ)
    → Shows p f
    → p.used_count + 3 * n < initial_pool_size
    → RunShows (map_view n f pa va flags) (map_loop n p pa va page_size flags)
unfolding path
map_loop-RunShows zero p f pa va flags shows room = zero-RunShows p f pa va flags shows
map_loop-RunShows (suc n) p f pa va flags shows room =
    let i = virtual_to_page_indexes va in
    let d = descend p i shows.good (virtual_to_page_indexes-IsIndexes va) (omega arith) in
    let is = i.l3 ∷ i.l2 ∷ i.l1 ∷ 0 ∷ [] in
    let bound = (virtual_to_page_indexes-IsIndexes va).3 in
    let mapped : (js : List ℕ) → length js ≡ 5 → entries d.p3 js ≡ f js =
      λ js five. d.leaves js five ∙ shows.mapped js five in
    elim (Bool-cases (clashes f pa va flags)) [
      | inl clash ↦
          rw (map_view-step n f pa va flags, clash)
            (map_loop-step n p pa va flags d
              ∙ ap
                  (λ o. o >>= λ p4.
                    map_loop n p4 (add64 pa page_size) (add64 va page_size) page_size flags)
                  (set-conflict d.p3 d.good i.l4 is (page_table d) d.reached bound refl pa flags f
                    mapped clash))
      | inr agrees ↦
          let p4 = after d.p3 d.good i.l4 is (page_table d) d.reached bound refl pa flags in
          let shows4 =
            after-Shows d.p3 d.good i.l4 is (page_table d) d.reached bound refl pa flags f mapped in
          let run : map_loop (suc n) p pa va page_size flags
              ≡ map_loop n p4 (add64 pa page_size) (add64 va page_size) page_size flags =
            map_loop-step n p pa va flags d
            ∙ ap
                (λ o. o >>= λ p4.
                  map_loop n p4 (add64 pa page_size) (add64 va page_size) page_size flags)
                (set-after d.p3 d.good i.l4 is (page_table d) d.reached bound refl pa flags f mapped
                  agrees) in
          rw (map_view-step n f pa va flags, agrees, run)
            (map_loop-RunShows n p4 _ (add64 pa page_size) (add64 va page_size) flags shows4
              (omega (arith, d.more_used)))
    ]
