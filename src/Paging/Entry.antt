-- ===== src/Paging/Entry.antt =====
-- The entries that mapMemory changes.
use dvnetos.Base.{
  ℕ, zero, suc, ◌+◌, ◌*◌, ◌%◌, ◌^◌, ◌≤◌, ◌<◌, ◌≡◌, ◌⊎◌, refl, ◌∙◌, sym, ap, inl, inr, arith, Bool,
  true, false, not, ◌&&◌, Option, none, some, ◌>>=◌, leb, ◌==◌, if◌then◌else◌, bit_and, bit_or,
  Bool-cases, zero-bit_and, some-injective, none-some,
}
use dvnetos.Paging.{
  Paging, entry_at, write_word, clear_page, set_page_table_entry, page_addr_mask, page_present,
  initial_pool_get_page, initial_pool_size, page_size, is_set, ensure_table, set_entry, map_loop,
  map_memory, virtual_to_page_indexes, page_size_flag, page_entries, Indexes,
}

-- `x` is not in the part of the initial pool that is still to be handed out.
abbrev pub IsOutside : Paging → ℕ → Type 0
IsOutside p x =
    (x < p.pool + page_size * p.used_count) ⊎ (p.pool + page_size * initial_pool_size ≤ x)

-- From `p` to `p'` no present entry has changed.
pub record Keeps (p p' : Paging) : Type 0 where
  pub same_root : p'.root ≡ p.root
  pub same_pool : p'.pool ≡ p.pool
  pub more_used : p.used_count ≤ p'.used_count
  pub entries :
      (x : ℕ) → IsOutside p x → is_set (p.words x) page_present ≡ true → p'.words x ≡ p.words x

Keeps-refl : (p : Paging) → Keeps p p
Keeps-refl p = record {
  same_root = refl;
  same_pool = refl;
  more_used = omega arith;
  entries = λ x out set. refl;
}

Keeps-trans : (p q r : Paging) → Keeps p q → Keeps q r → Keeps p r
Keeps-trans p q r h k = record {
  same_root = k.same_root ∙ h.same_root;
  same_pool = k.same_pool ∙ h.same_pool;
  more_used = omega (arith, h.more_used, k.more_used);
  entries = λ x out set.
      let same = h.entries x out set in
      k.entries x (outside x out) (ap (λ v. is_set v page_present) same ∙ set) ∙ same;
}
  where
    outside : (x : ℕ) → IsOutside p x → IsOutside q x
    outside x (inl below) = inl (omega (arith, h.same_pool, h.more_used))
    outside x (inr above) = inr (omega (arith, h.same_pool))

-- Where a step returns, it keeps the present entries.
abbrev KeepsIf : Paging → Option Paging → Type 0
KeepsIf p o = (p' : Paging) → o ≡ some p' → Keeps p p'

bind-KeepsIf :
    (p : Paging) (o : Option Paging) (f : Paging → Option Paging)
    → KeepsIf p o
    → ((q : Paging) → KeepsIf q (f q))
    → KeepsIf p (o >>= f)
bind-KeepsIf p none f h k r e = cc
bind-KeepsIf p (some q) f h k r e = Keeps-trans p q r (h q refl) (k q r e)

-- A word is written that was 0 or had this value.
write-Keeps :
    (p : Paging) (a new : ℕ)
    → (not (p.words a == 0) && not (p.words a == new)) ≡ false
    → Keeps p (record p { words = write_word p.words a new })
unfolding write_word
write-Keeps p a new h = record {
  same_root = refl;
  same_pool = refl;
  more_used = omega arith;
  entries = λ x out set. elim (Bool-cases (x == a)) [
    | inl at ↦
        let here : x ≡ a = ground arith in
        let set' : is_set (p.words a) page_present ≡ true = rw (sym here) set in
        rw (at, here) (kept (p.words a) set' h)
    | inr elsewhere ↦ rw elsewhere refl
  ];
}
  where
    kept :
        (old : ℕ)
        → is_set old page_present ≡ true
        → (not (old == 0) && not (old == new)) ≡ false
        → new ≡ old
    kept zero set agree = ground (arith, zero-bit_and 1)
    kept (suc old) set agree = ground arith

-- A fresh table is cleared and linked from an absent entry.
fresh-Keeps :
    (p : Paging) (slot entry : ℕ)
    → is_set (p.words slot) page_present ≡ false
    → leb initial_pool_size (p.used_count + 1) ≡ false
    → Keeps p (record p {
      words = write_word (clear_page p.words (p.pool + page_size * p.used_count)) slot entry;
      used_count = (p.used_count + 1) % 2 ^ 8;
    })
unfolding write_word clear_page
fresh-Keeps p slot entry absent free = record {
  same_root = refl;
  same_pool = refl;
  more_used = ground arith;
  entries = λ x out set. elim (Bool-cases (x == slot)) [
    | inl at ↦
        let here : x ≡ slot = ground arith in
        let absent' : is_set (p.words x) page_present ≡ false = rw here absent in cc
    | inr elsewhere ↦ rw elsewhere (uncleared x out)
  ];
}
  where
    uncleared :
        (x : ℕ)
        → IsOutside p x
        → clear_page p.words (p.pool + page_size * p.used_count) x ≡ p.words x
    uncleared x (inl below) = ground arith
    uncleared x (inr above) = ground arith

ensure_table-KeepsIf : (p : Paging) (slot : ℕ) → KeepsIf p (ensure_table p slot)
unfolding ensure_table initial_pool_get_page write_word clear_page
ensure_table-KeepsIf p slot q e = elim (Bool-cases (is_set (p.words slot) page_present)) [
  | inl present ↦
      let same : q ≡ p = some-injective (sym (rw present at e)) in rw same (Keeps-refl p)
  | inr absent ↦ elim (Bool-cases (leb initial_pool_size (p.used_count + 1))) [
    | inl full ↦ none-some (rw (absent, full) at e)
    | inr free ↦
        let same = some-injective (sym (rw (absent, free) at e)) in
        rw same (fresh-Keeps p slot _ absent free)
  ]
]

set_entry-KeepsIf :
    (p : Paging) (table index pa flags : ℕ) → KeepsIf p (set_entry p table index pa flags)
unfolding set_entry set_page_table_entry write_word
set_entry-KeepsIf p table index pa flags q e =
    let old = p.words (entry_at table index) in
    let new = bit_or (bit_or (bit_and pa page_addr_mask) page_present) flags in
    elim (Bool-cases (not (old == 0) && not (old == new))) [
      | inl clash ↦ none-some (rw clash at e)
      | inr agrees ↦
          let same = some-injective (sym (rw agrees at e)) in
          rw same (write-Keeps p (entry_at table index) new agrees)
    ]

if-KeepsIf :
    (b : Bool) (p : Paging) (o o' : Option Paging)
    → KeepsIf p o
    → KeepsIf p o'
    → KeepsIf p (if b then o else o')
if-KeepsIf true p o o' h h' = h
if-KeepsIf false p o o' h h' = h'

map_loop-KeepsIf :
    (rounds : ℕ) (p : Paging) (pa va size flags : ℕ)
    → KeepsIf p (map_loop rounds p pa va size flags)
unfolding map_loop
map_loop-KeepsIf zero p pa va size flags q e =
    let same : p ≡ q = some-injective e in rw (sym same) (Keeps-refl p)
map_loop-KeepsIf (suc rounds) p pa va size flags q e =
    bind-KeepsIf p _ _ (ensure_table-KeepsIf p (entry_at p.root idx.l1))
      (λ p1. bind-KeepsIf p1 _ _ (ensure_table-KeepsIf p1 _) (λ p2.
        if-KeepsIf (size == page_size * page_entries) p2 _ _
          (if-KeepsIf (not (va % size == 0)) p2 _ _ (λ q e. none-some e)
            (bind-KeepsIf p2 _ _ (set_entry-KeepsIf p2 _ idx.l3 pa (bit_or flags page_size_flag))
              (λ p3. map_loop-KeepsIf rounds p3 _ _ size flags)))
          (if-KeepsIf (is_set (p2.words _) page_present && is_set (p2.words _) page_size_flag) p2 _
            _ (map_loop-KeepsIf rounds p2 pa va size flags)
            (bind-KeepsIf p2 _ _ (ensure_table-KeepsIf p2 _) (λ p3.
              bind-KeepsIf p3 _ _ (set_entry-KeepsIf p3 _ idx.l4 pa flags)
                (λ p4. map_loop-KeepsIf rounds p4 _ _ size flags))))))
      q e
  where
    idx : Indexes
    idx = virtual_to_page_indexes va

-- Where mapMemory returns without a panic, it has changed no present entry of any table outside the
-- unused pages of the initial pool: a mapping that stands is not overwritten, for any range and any
-- page size.
pub map_memory-Keeps :
    (p p' : Paging) (pa va size num_pages flags : ℕ)
    → map_memory p pa va size num_pages flags ≡ some p'
    → Keeps p p'
unfolding map_memory
map_memory-Keeps p p' pa va size num_pages flags =
    if-KeepsIf (not (pa % page_size == 0)) p _ _ (λ q e. none-some e)
      (if-KeepsIf (not (va % page_size == 0)) p _ _ (λ q e. none-some e)
        (map_loop-KeepsIf num_pages p pa va size flags))
      p'
