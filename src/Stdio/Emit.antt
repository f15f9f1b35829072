-- ===== src/Stdio/Emit.antt =====
-- What the output loop stores.
use dvnetos.Base.{
  ℕ, zero, suc, ◌+◌, ◌<◌, ◌^◌, ◌≡◌, refl, ◌∙◌, ap, List, [], ◌∷◌, ◌++◌, arith, length, get_elem?,
  some,
}
use dvnetos.CString.{Mem, write}
use dvnetos.Stdio.{put, emit}

-- The memory with `cs` stored from `a` on.
unfoldable pub store : Mem → ℕ → List ℕ → Mem
store m a [] = m
store m a (c ∷ cs) = store (write m a c) (a + 1) cs

pub store-append :
    (m : Mem) (a : ℕ) (cs ds : List ℕ)
    → store m a (cs ++ ds) ≡ store (store m a cs) (a + length cs) ds
unfolding store
store-append m a [] ds = ap (λ b. store m b ds) (omega arith)
store-append m a (c ∷ cs) ds =
    store-append (write m a c) (a + 1) cs ds
    ∙ ap (λ b. store (store (write m a c) (a + 1) cs) b ds) (omega arith)

-- A byte in front of the stored ones stays.
pub store_before : (m : Mem) (a x : ℕ) (cs : List ℕ) → x < a → store m a cs x ≡ m x
unfolding store
store_before m a x [] h = refl
store_before m a x (c ∷ cs) h = store_before (write m a c) (a + 1) x cs (omega arith) ∙ ground arith

-- A stored byte is read back.
pub store_at :
    (m : Mem) (a i c : ℕ) (cs : List ℕ) → get_elem? cs i ≡ some c → store m a cs (a + i) ≡ c
unfolding store
store_at m a i c [] h = cc
store_at m a zero c (d ∷ cs) h =
    ap (store (write m a d) (a + 1) cs) (omega arith)
    ∙ store_before (write m a d) (a + 1) a cs (omega arith)
    ∙ ground arith
store_at m a (suc i) c (d ∷ cs) h =
    ap (store (write m a d) (a + 1) cs) (omega arith) ∙ store_at (write m a d) (a + 1) i c cs h

pub emit-count : (m : Mem) (buf n j : ℕ) (cs : List ℕ) → (emit m buf n j cs).1 ≡ j + length cs
unfolding emit
emit-count m buf n j [] = omega arith
emit-count m buf n j (c ∷ cs) = omega (arith, emit-count (put m buf n j c) buf n (j + 1) cs)

pub put-store :
    (m : Mem) (buf n j c : ℕ) → j + 1 < n → n < 2 ^ 64 → put m buf n j c ≡ write m (buf + j) c
unfolding put
put-store m buf n j c h w = ground arith

put_zero : (m : Mem) (buf j c : ℕ) → j + 1 < 2 ^ 64 → put m buf 0 j c ≡ write m (buf + j) c
unfolding put
put_zero m buf j c h = ground arith

-- Where a byte is left behind them, all characters are stored.
pub emit-store :
    (m : Mem) (buf n j : ℕ) (cs : List ℕ)
    → j + length cs < n
    → n < 2 ^ 64
    → (emit m buf n j cs).0 ≡ store m (buf + j) cs
unfolding emit store
emit-store m buf n j [] h w = refl
emit-store m buf n j (c ∷ cs) h w =
    emit-store (put m buf n j c) buf n (j + 1) cs (omega arith) w
    ∙ ap (λ a. store (put m buf n j c) a cs) (omega arith)
    ∙ ap (λ m'. store m' (buf + j + 1) cs) (put-store m buf n j c (omega arith) w)

-- With no byte left, `n - 1` wraps around, and all characters are stored too.
pub emit_zero :
    (m : Mem) (buf j : ℕ) (cs : List ℕ)
    → j + length cs < 2 ^ 64
    → (emit m buf 0 j cs).0 ≡ store m (buf + j) cs
unfolding emit store
emit_zero m buf j [] h = refl
emit_zero m buf j (c ∷ cs) h =
    emit_zero (put m buf 0 j c) buf (j + 1) cs (omega arith)
    ∙ ap (λ a. store (put m buf 0 j c) a cs) (omega arith)
    ∙ ap (λ m'. store m' (buf + j + 1) cs) (put_zero m buf j c (omega arith))
