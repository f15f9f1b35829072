-- ===== src/Paging/View/Translate.antt =====
-- A range that is mapped translates as asked, and every other address as before.
use mathlib.Core.Path.{subst}
use dvnetos.Base.{
  ℕ, zero, suc, ◌+◌, ◌*◌, ◌<◌, ◌^◌, ◌%◌, ◌/◌, ◌≡◌, ◌≢◌, refl, ◌∙◌, sym, ap, inl, inr, arith, some,
  List, [], ◌∷◌, length, add64, bit_and, bit_and-ones, Bool-cases,
}
use dvnetos.Paging.{
  Paging, virtual_to_page_indexes, page_size, initial_pool_size, map_loop, map_memory,
}
use dvnetos.Paging.View.{entries, IsGood, path}
use dvnetos.Paging.View.Write.{
  View, new_entry, update, same_path, same_path-eq, same_path_refl, Shows,
}
use dvnetos.Paging.View.Map.{map_view, map_view-step, RunShows, map_loop-RunShows}

index : ℕ → List ℕ → ℕ
index _ [] = 0
index zero (i ∷ is) = i
index (suc n) (i ∷ is) = index n is

path-injective : (a b : ℕ) → path a ≡ path b → a / 4096 % 2 ^ 36 ≡ b / 4096 % 2 ^ 36
unfolding path virtual_to_page_indexes index
path-injective a b h =
    let l4 : bit_and (a / 2 ^ 12) 511 ≡ bit_and (b / 2 ^ 12) 511 = ap (index 0) h in
    let l3 : bit_and (a / 2 ^ 21) 511 ≡ bit_and (b / 2 ^ 21) 511 = ap (index 1) h in
    let l2 : bit_and (a / 2 ^ 30) 511 ≡ bit_and (b / 2 ^ 30) 511 = ap (index 2) h in
    let l1 : bit_and (a / 2 ^ 39) 511 ≡ bit_and (b / 2 ^ 39) 511 = ap (index 3) h in
    omega (
      arith,
      l1,
      l2,
      l3,
      l4,
      bit_and-ones 9 (a / 2 ^ 12),
      bit_and-ones 9 (b / 2 ^ 12),
      bit_and-ones 9 (a / 2 ^ 21),
      bit_and-ones 9 (b / 2 ^ 21),
      bit_and-ones 9 (a / 2 ^ 30),
      bit_and-ones 9 (b / 2 ^ 30),
      bit_and-ones 9 (a / 2 ^ 39),
      bit_and-ones 9 (b / 2 ^ 39),
    )

-- The pages of a range of less than 2^36 pages have different paths.
path-apart : (va j : ℕ) → 0 < j → j < 2 ^ 36 → path (va + 4096 * j) ≢ path va
path-apart va j some_page bound h = omega (arith, path-injective (va + 4096 * j) va h)

length-path : (va : ℕ) → length (path va) ≡ 5
unfolding path
length-path va = refl

start : (a : ℕ) → a ≡ a + 4096 * 0
start a = omega arith

shift : (a j : ℕ) → a + 4096 + 4096 * j ≡ a + 4096 * suc j
shift a j = omega arith

apart : (va j : ℕ) → suc j < 2 ^ 36 → path (va + 4096 + 4096 * j) ≢ path va
apart va j bound h = path-apart va (suc j) (omega arith) bound (ap path (sym (shift va j)) ∙ h)

update_self : (f : View) (q : List ℕ) (e : ℕ) → update f q e q ≡ e
update_self f q e = rw (same_path_refl q) refl

update-other : (f : View) (q : List ℕ) (e : ℕ) (js : List ℕ) → js ≢ q → update f q e js ≡ f js
update-other f q e js other = elim (Bool-cases (same_path js q)) [
  | inl same ↦ absurd (other (same_path-eq js q same))
  | inr differs ↦ rw differs refl
]

module _ (flags : ℕ) where
  zero_runs : (f : View) (pa va : ℕ) → map_view zero f pa va flags ≡ some f
  unfolding map_view
  zero_runs f pa va = refl

  -- The view after a range has been mapped that was free.
  record Extends (n : ℕ) (f g : View) (pa va : ℕ) : Type 0 where
    inside : (j : ℕ) → j < n → g (path (va + 4096 * j)) ≡ new_entry (pa + 4096 * j) flags
    outside : (js : List ℕ) → ((j : ℕ) → j < n → js ≢ path (va + 4096 * j)) → g js ≡ f js

  step-Extends :
      (n : ℕ) (f g : View) (pa va : ℕ)
      → suc n < 2 ^ 36
      → Extends n (update f (path va) (new_entry pa flags)) g (pa + 4096) (va + 4096)
      → Extends (suc n) f g pa va
  step-Extends n f g pa va hn ext = record {
    inside = first_or_later;
    outside = λ js other.
        ext.outside js (λ j less h. other (suc j) (omega arith) (h ∙ ap path (shift va j)))
        ∙ update-other f (path va) (new_entry pa flags) js
            (λ h. other 0 (omega arith) (h ∙ ap path (start va)));
  }
    where
      first_or_later :
          (j : ℕ) → j < suc n → g (path (va + 4096 * j)) ≡ new_entry (pa + 4096 * j) flags
      first_or_later zero less =
          ap (λ a. g (path a)) (sym (start va))
          ∙ ext.outside (path va) (λ j less h. apart va j (omega arith) (sym h))
          ∙ update_self f (path va) (new_entry pa flags)
          ∙ ap (λ a. new_entry a flags) (start pa)
      first_or_later (suc j) less =
          ap (λ a. g (path a)) (sym (shift va j))
          ∙ ext.inside j (omega arith)
          ∙ ap (λ a. new_entry a flags) (shift pa j)

  map_view-Extends :
      (n : ℕ) (f : View) (pa va : ℕ)
      → pa + 4096 * n < 2 ^ 64
      → va + 4096 * n < 2 ^ 64
      → n < 2 ^ 36
      → ((j : ℕ) → j < n → f (path (va + 4096 * j)) ≡ 0)
      → (g : View) × (map_view n f pa va flags ≡ some g) × Extends n f g pa va
  map_view-Extends zero f pa va hp hv hn free = (
    f,
    zero_runs f pa va,
    record { inside = λ j less. absurd (omega arith); outside = λ js other. refl },
  )
  map_view-Extends (suc n) f pa va hp hv hn free =
      let next = update f (path va) (new_entry pa flags) in
      let first : f (path va) ≡ 0 = ap (λ a. f (path a)) (start va) ∙ free 0 (omega arith) in
      let (g, runs, ext) =
        map_view-Extends n next (pa + 4096) (va + 4096) (omega arith) (omega arith) (omega arith)
          (λ j less.
            update-other f (path va) (new_entry pa flags) (path (va + 4096 + 4096 * j))
              (apart va j (omega arith))
            ∙ ap (λ a. f (path a)) (shift va j)
            ∙ free (suc j) (omega arith)) in
      let next_pa : add64 pa page_size ≡ pa + 4096 = omega arith in
      let next_va : add64 va page_size ≡ va + 4096 = omega arith in
      (
        g,
        rw (map_view-step n f pa va flags, first, next_pa, next_va) runs,
        step-Extends n f g pa va (omega arith) ext,
      )

map_memory-aligned :
    (p : Paging) (pa va n flags : ℕ)
    → pa % page_size ≡ 0
    → va % page_size ≡ 0
    → map_memory p pa va page_size n flags ≡ map_loop n p pa va page_size flags
unfolding map_memory
map_memory-aligned p pa va n flags h h' = rw (h, h') refl

-- Where a range of pages is free and the pool has three pages left for each of them, mapMemory returns
-- without a panic: every page of the range is then mapped to its physical page with the flags, and every
-- other path leads to the entry that it led to before.
pub map_memory-translates :
    (p : Paging) (pa va n flags : ℕ)
    → IsGood p
    → pa % page_size ≡ 0
    → va % page_size ≡ 0
    → pa + 4096 * n < 2 ^ 64
    → va + 4096 * n < 2 ^ 64
    → p.used_count + 3 * n < initial_pool_size
    → ((j : ℕ) → j < n → entries p (path (va + 4096 * j)) ≡ 0)
    → (p' : Paging) × (map_memory p pa va page_size n flags ≡ some p')
      × IsGood p'
      × ((j : ℕ) → j < n → entries p' (path (va + 4096 * j)) ≡ new_entry (pa + 4096 * j) flags)
      × ((js : List ℕ)
          → length js ≡ 5
          → ((j : ℕ) → j < n → js ≢ path (va + 4096 * j))
          → entries p' js ≡ entries p js)
map_memory-translates p pa va n flags good pa_aligned va_aligned hp hv room free =
    let (g, runs, ext) = map_view-Extends flags n (entries p) pa va hp hv (omega arith) free in
    let shows : Shows p (entries p) = record { good = good; mapped = λ js five. refl } in
    let (p', loops, shows') : RunShows (some g) (map_loop n p pa va page_size flags) =
      subst (λ o. RunShows o (map_loop n p pa va page_size flags)) runs
        (map_loop-RunShows n p (entries p) pa va flags shows room) in
    (
      p',
      map_memory-aligned p pa va n flags pa_aligned va_aligned ∙ loops,
      shows'.good,
      λ j less.
          shows'.mapped (path (va + 4096 * j)) (length-path (va + 4096 * j)) ∙ ext.inside j less,
      λ js five other. shows'.mapped js five ∙ ext.outside js other,
    )
