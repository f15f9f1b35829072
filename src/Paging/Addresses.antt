-- ===== src/Paging/Addresses.antt =====
-- The indexes of an address, and the alignment of an address.
use native.Mathlib.Nat.{mod-eq_of_lt}
use dvnetos.Base.{
  ℕ, ◌+◌, ◌-◌, ◌*◌, ◌/◌, ◌%◌, ◌^◌, ◌≤◌, ◌<◌, ◌≡◌, refl, ◌∙◌, ap, ◌⊎◌, inl, inr, arith, [], ◌∷◌, leb,
  add64, sub64, bit_and, bit_or, bit_or-add, bit_and-shift, bit_and-ones, zero-bit_or, bit_or_comm,
}
use dvnetos.Paging.{
  virtual_to_page_indexes, join_indexes, sign_extend, page_indexes_to_virtual, make_page_aligned,
  page_size, partial_size, is_set, shift_left,
}

-- An address of the lower or of the upper half, whose bits 47 to 63 are the same.
abbrev pub IsCanonical : ℕ → Type 0
IsCanonical v = (v < 2 ^ 47) ⊎ ((2 ^ 64 - 2 ^ 47 ≤ v) × (v < 2 ^ 64))

make_page_aligned-div : (v : ℕ) → v < 2 ^ 64 → make_page_aligned v ≡ v / 4096 * 4096
unfolding make_page_aligned
make_page_aligned-div v h =
    bit_and-shift 12 v (2 ^ 52 - 1) ∙ ap (λ x. x * 4096) (bit_and-ones 52 (v / 4096) ∙ omega arith)

index-mod : (a : ℕ) → bit_and a 0x1FF ≡ a % 512
index-mod a = bit_and-ones 9 a

shift_left-small : (l k : ℕ) → l * 2 ^ k < 2 ^ 64 → shift_left l k ≡ l * 2 ^ k
shift_left-small l k h = mod-eq_of_lt h

-- The four indexes joined.
join_indexes-sum :
    (a b c d : ℕ)
    → a < 512
    → b < 512
    → c < 512
    → d < 512
    → join_indexes 0 39 (a ∷ b ∷ c ∷ d ∷ []) ≡ (((a * 512 + b) * 512 + c) * 512 + d) * 4096
unfolding join_indexes
join_indexes-sum a b c d ha hb hc hd =
    rw
      (
        shift_left-small a 39 (omega arith),
        shift_left-small b 30 (omega arith),
        shift_left-small c 21 (omega arith),
        shift_left-small d 12 (omega arith),
        zero-bit_or (a * 2 ^ 39),
        join 39 a (b * 2 ^ 30) (a * 512 + b) 30 (omega arith) (omega arith),
        join 30 (a * 512 + b) (c * 2 ^ 21) ((a * 512 + b) * 512 + c) 21 (omega arith) (omega arith),
        join 21 ((a * 512 + b) * 512 + c) (d * 2 ^ 12) (((a * 512 + b) * 512 + c) * 512 + d) 12
            (omega arith) (omega arith),
      )
      refl
  where
    join :
        (k x y z k' : ℕ)
        → y < 2 ^ k
        → x * 2 ^ k + y ≡ z * 2 ^ k'
        → bit_or (x * 2 ^ k) y ≡ z * 2 ^ k'
    join k x y z k' h e = bit_or-add k x y h ∙ e

sign-bit : (a : ℕ) → a < 2 ^ 48 → is_set a (2 ^ 47) ≡ leb (2 ^ 47) a
sign-bit a h =
    let bit : bit_and a (1 * 2 ^ 47) ≡ a / 2 ^ 47 % 2 * 2 ^ 47 =
      bit_and-shift 47 a 1 ∙ ap (λ x. x * 2 ^ 47) (bit_and-ones 1 (a / 2 ^ 47)) in
    ground (arith, bit)

sign_extend-high : (a : ℕ) → 2 ^ 47 ≤ a → a < 2 ^ 48 → sign_extend a ≡ 0xFFFF000000000000 + a
unfolding sign_extend
sign_extend-high a h w =
    let high : bit_or a (0xFFFF * 2 ^ 48) ≡ 0xFFFF * 2 ^ 48 + a =
      bit_or_comm a (0xFFFF * 2 ^ 48) ∙ bit_or-add 48 0xFFFF a w in
    ground (arith, sign-bit a w, high)

sign_extend-low : (a : ℕ) → a < 2 ^ 47 → sign_extend a ≡ a
unfolding sign_extend
sign_extend-low a h = ground (arith, sign-bit a (omega arith))

indexes-sum :
    (v : ℕ)
    → join_indexes 0 39 (
        bit_and (v / 2 ^ 39) 0x1FF
        ∷ bit_and (v / 2 ^ 30) 0x1FF
        ∷ bit_and (v / 2 ^ 21) 0x1FF
        ∷ bit_and (v / 2 ^ 12) 0x1FF
        ∷ [])
      ≡ v % 2 ^ 48 / 4096 * 4096
indexes-sum v =
    rw
      (
        index-mod (v / 2 ^ 39),
        index-mod (v / 2 ^ 30),
        index-mod (v / 2 ^ 21),
        index-mod (v / 2 ^ 12),
      )
      (join_indexes-sum (v / 2 ^ 39 % 512) (v / 2 ^ 30 % 512) (v / 2 ^ 21 % 512) (v / 2 ^ 12 % 512)
          (omega arith) (omega arith) (omega arith) (omega arith)
        ∙ omega arith)

extended : (v : ℕ) → IsCanonical v → sign_extend (v % 2 ^ 48 / 4096 * 4096) ≡ make_page_aligned v
extended v (inl low) =
    sign_extend-low (v % 2 ^ 48 / 4096 * 4096) (omega arith)
    ∙ omega (arith, make_page_aligned-div v (omega arith))
extended v (inr (high, bound)) =
    sign_extend-high (v % 2 ^ 48 / 4096 * 4096) (omega arith) (omega arith)
    ∙ omega (arith, make_page_aligned-div v bound)

-- The indexes of an address, joined again, give the address of its page, for every canonical
-- address.
pub page_indexes_to_virtual-indexes :
    (v : ℕ)
    → IsCanonical v
    → (let i = virtual_to_page_indexes v in
        page_indexes_to_virtual (i.l1 ∷ i.l2 ∷ i.l3 ∷ i.l4 ∷ []))
      ≡ make_page_aligned v
unfolding virtual_to_page_indexes page_indexes_to_virtual
page_indexes_to_virtual-indexes v h = ap sign_extend (indexes-sum v) ∙ extended v h

-- For a range that ends two pages below 2^64, mapPartial maps whole pages that cover it, and at
-- most two pages more than its size; for a range of whole pages it maps one page more.
pub partial_size-covers :
    (pa size : ℕ)
    → pa + size + 8192 < 2 ^ 64
    → (pa + size ≤ make_page_aligned pa + partial_size pa size)
      × (partial_size pa size % page_size ≡ 0)
      × (partial_size pa size ≤ size + 8192)
      × (pa % page_size ≡ 0 → size % page_size ≡ 0 → partial_size pa size ≡ size + page_size)
unfolding partial_size
partial_size-covers pa size h =
    let aligned = make_page_aligned-div pa (omega arith) in
    let rounded : sub64 (add64 size page_size) (size % page_size) ≡ (size / 4096 + 1) * 4096 =
      omega arith in
    rw (aligned, rounded) (ground arith, ground arith, ground arith, λ a b. ground arith)
