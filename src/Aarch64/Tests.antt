-- ===== src/Aarch64/Tests.antt =====
-- The theorems on the tables of aarch64 at concrete tables.
use dvnetos.Base.{
  ℕ, ◌+◌, ◌*◌, ◌<◌, ◌≡◌, ◌≢◌, ◌⊎◌, refl, ◌∙◌, sym, ap, inl, inr, arith, Option, none, some, ◌>>=◌,
  List, [], ◌∷◌, length, ltb, ◌==◌, Bool-cases, some-injective, none-some, bind-some,
}
use dvnetos.Paging.{Words, write_word, clear_page, page_size}
use dvnetos.Paging.Tree.{table_at}
use dvnetos.Paging.Tree.Link.{linked-IsTree}
use dvnetos.Paging.Tree.Leaf.{written-IsTree}
use dvnetos.Aarch64.{Paging, map_memory, unmap_memory, page_indexes_to_virtual}
use dvnetos.Paging.Memmap.{MemmapEntry}
use dvnetos.Aarch64.Init.{Boot, init}
use dvnetos.Aarch64.Half.{with_root1, init-map_memory}
use dvnetos.Aarch64.View.{roots, next, tables, entries, IsTables, path, ends}
use dvnetos.Aarch64.Unmap.{with_words, unmap_memory-clears}

-- The first two pages of the pool are the roots.
abbrev fresh : Paging
fresh = record {
  root1 = 0x100000;
  root2 = 0x101000;
  tcr_el1 = 0;
  page_table_offset = 0;
  higher_half_offset = 0xFFFF000000000000;
  words = λ x. 0;
  pool = 0x100000;
  used_count = 2;
}

-- A page is mapped at 0x5000: three tables are linked, and its entry written.
abbrev words1 : Words
words1 = write_word (clear_page fresh.words 0x102000) 0x100000 0x102003

abbrev words2 : Words
words2 = write_word (clear_page words1 0x103000) 0x102000 0x103003

abbrev words3 : Words
words3 = write_word (clear_page words2 0x104000) 0x103000 0x104003

abbrev mapped : Paging
mapped = record fresh { words = write_word words3 0x104028 0x7003; used_count = 5 }

map_mapped : map_memory fresh 0x7000 0x5000 page_size 1 0 ≡ some mapped
unfolding map_memory
map_mapped = refl

fresh-root :
    (is : List ℕ) (t : ℕ)
    → tables fresh is ≡ some t
    → (r : ℕ) × (is ≡ r ∷ []) × (roots fresh r ≡ some t)
unfolding table_at write_word clear_page
fresh-root [] t h = cc
fresh-root (r ∷ []) t h = (r, refl, h)
fresh-root (i ∷ j ∷ is) t h =
    let (v, at, f) = bind-some (tables fresh (j ∷ is)) _ t h in
    elim (Bool-cases (ltb i 512)) [
      | inl bound ↦
          let f' = rw bound at f in none-some (sym (ends (ltb (length (j ∷ is)) 4) (some 0)) ∙ f')
      | inr beyond ↦ none-some (rw beyond at f)
    ]

root-bounds :
    (r t : ℕ) → roots fresh r ≡ some t → ((r ≡ 0) × (t ≡ 0x100000)) ⊎ ((r ≡ 1) × (t ≡ 0x101000))
root-bounds r t h = elim (Bool-cases (r == 0)) [
  | inl lower ↦ inl (ground (arith, lower), sym (some-injective (rw lower at h)))
  | inr above ↦ elim (Bool-cases (r == 1)) [
    | inl higher ↦ inr (ground (arith, higher), sym (some-injective (rw (above, higher) at h)))
    | inr beyond ↦ none-some (rw (above, beyond) at h)
  ]
]

fresh-IsTables : IsTables fresh
fresh-IsTables = record {
  inside = λ is t at.
      let (r, path, root) = fresh-root is t at in
      elim (root-bounds r t root) [
        | inl (lower, here) ↦ (0, omega arith, here)
        | inr (higher, here) ↦ (1, omega arith, here)
      ];
  unique = λ is js t at at'.
      let (r, path, root) = fresh-root is t at in
      let (r', path', root') = fresh-root js t at' in
      path ∙ ap (λ r. r ∷ []) (same r r' t root root') ∙ sym path';
}
  where
    same : (r r' t : ℕ) → roots fresh r ≡ some t → roots fresh r' ≡ some t → r ≡ r'
    same r r' t root root' = elim (root-bounds r t root) [
      | inl (lower, here) ↦ elim (root-bounds r' t root') [
        | inl (lower', here') ↦ omega arith
        | inr (higher', here') ↦ absurd (omega arith)
      ]
      | inr (higher, here) ↦ elim (root-bounds r' t root') [
        | inl (lower', here') ↦ absurd (omega arith)
        | inr (higher', here') ↦ omega arith
      ]
    ]

mapped-IsTables : IsTables mapped
unfolding table_at write_word clear_page
mapped-IsTables =
    let one =
      linked-IsTree (roots fresh) (next fresh) zero_ends fresh.words 0x100000 2 fresh-IsTables 0
        (0 ∷ []) 0x100000 0x102003 refl (omega arith) refl refl in
    let two =
      linked-IsTree (roots fresh) (next fresh) zero_ends words1 0x100000 3 one 0 (0 ∷ 0 ∷ [])
        0x102000 0x103003 at1 (omega arith) refl refl in
    let three =
      linked-IsTree (roots fresh) (next fresh) zero_ends words2 0x100000 4 two 0 (0 ∷ 0 ∷ 0 ∷ [])
        0x103000 0x104003 at2 (omega arith) refl refl in
    written-IsTree (roots fresh) (next fresh) words3 0x100000 5 three 5 (0 ∷ 0 ∷ 0 ∷ 0 ∷ [])
      0x104000 0x7003 at3 (omega arith) refl refl
  where
    zero_ends : (n : ℕ) → next fresh n 0 ≡ none
    zero_ends n = ends (ltb n 4) (some 0)

    at1 : table_at (roots fresh) (next fresh) words1 (0 ∷ 0 ∷ []) ≡ some 0x102000
    at1 = refl

    at2 : table_at (roots fresh) (next fresh) words2 (0 ∷ 0 ∷ 0 ∷ []) ≡ some 0x103000
    at2 = refl

    at3 : table_at (roots fresh) (next fresh) words3 (0 ∷ 0 ∷ 0 ∷ 0 ∷ []) ≡ some 0x104000
    at3 = refl

-- The page at 0x5000 is one of two that are unmapped.
unmap_memory-clears_example :
    (w : Words) × (unmap_memory mapped 0x4000 2 page_size ≡ some (with_words mapped w))
    × IsTables (with_words mapped w)
    × ((j : ℕ) → j < 2 → entries (with_words mapped w) (path mapped (0x4000 + 4096 * j)) ≡ 0)
    × ((js : List ℕ)
        → ((j : ℕ) → j < 2 → js ≢ path mapped (0x4000 + 4096 * j))
        → entries (with_words mapped w) js ≡ entries mapped js)
unmap_memory-clears_example = unmap_memory-clears mapped 0x4000 2 mapped-IsTables refl (omega arith)

-- The boot loader has mapped a block of 2 MB, through three tables behind ttbr1.
abbrev boot_words : Words
boot_words =
    write_word
      (write_word (write_word (λ x. 0) 0xFFFF000000201000 0x202003) 0xFFFF000000202000 0x203003)
      0xFFFF000000203000 0x40000001

abbrev zeroed : Paging
zeroed = record {
  root1 = 0;
  root2 = 0;
  tcr_el1 = 0;
  page_table_offset = 0;
  higher_half_offset = 0;
  words = boot_words;
  pool = 0xFFFFFFFF80100000;
  used_count = 0;
}

abbrev boot : Boot
boot = record {
  bootloader_reclaimable = 5;
  kernel_and_modules = 6;
  framebuffer = 7;
  mode_4lvl = 0;
  response_mode = some 0;
  ttbr0 = 0x200000;
  ttbr1 = 0x201000;
  tcr_el1 = 0;
}

abbrev mappings : List MemmapEntry
mappings = record { base = 0x40000000; length = 0x200000; type = 7 } ∷ []

abbrev or_zeroed : Option (Paging × ℕ × ℕ) → Paging × ℕ × ℕ
or_zeroed none = (zeroed, 0, 0)
or_zeroed (some r) = r

abbrev ended : Paging × ℕ × ℕ
ended = or_zeroed (init boot mappings 0xFFFF000000000000 0xFFFFFFFF80000000 zeroed)

-- The block is mapped again, in the fifth page of the pool.
block_mapped : ended.0.words 0xFFFFFFFF80103000 ≡ 0x40000001
unfolding init page_indexes_to_virtual
block_mapped = refl

init-map_memory_example :
    (ended.0.higher_half_offset ≡ 0)
    × ((r pa va size n flags : ℕ)
        → map_memory (with_root1 r ended.0) pa va size n flags
          ≡ (map_memory ended.0 pa va size n flags >>= λ q. some (with_root1 r q)))
unfolding init page_indexes_to_virtual
init-map_memory_example =
    init-map_memory boot mappings 0xFFFF000000000000 0xFFFFFFFF80000000 zeroed ended.0 ended.1
      ended.2 refl refl
