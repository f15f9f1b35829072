-- ===== src/CString/Copy.antt =====
-- `memmove`, `memset` and `memcmp`.
use dvnetos.Base.{ℕ, zero, suc, ◌+◌, ◌-◌, ◌%◌, ◌<◌, ◌≡◌, Bool, ◌&&◌, arith, ltb, leb, if◌then◌else◌}
use dvnetos.CString.{Mem, write, memset_loop, memset, copy_up, copy_down, memmove}

-- Whether `x` is one of the `n` addresses from `a` on.
abbrev pub inside : ℕ → ℕ → ℕ → Bool
inside a n x = leb a x && ltb x (a + n)

copy_up-inside :
    (k : ℕ) (m : Mem) (dest src i x : ℕ)
    → dest < src
    → copy_up k m dest src i x ≡ (if inside (dest + i) k x then m (src + (x - dest)) else m x)
unfolding copy_up
copy_up-inside zero m dest src i x h = ground arith
copy_up-inside (suc k) m dest src i x h =
    ground (arith, copy_up-inside k (write m (dest + i) (m (src + i))) dest src (i + 1) x h)

copy_down-inside :
    (k : ℕ) (m : Mem) (dest src x : ℕ)
    → src < dest
    → copy_down k m dest src x ≡ (if inside dest k x then m (src + (x - dest)) else m x)
unfolding copy_down
copy_down-inside zero m dest src x h = ground arith
copy_down-inside (suc k) m dest src x h =
    ground (arith, copy_down-inside k (write m (dest + k) (m (src + k))) dest src x h)

-- `memmove` copies the `n` bytes as they were before the call, however source and destination
-- overlap, and changes no other byte.
pub memmove_lem :
    (m : Mem) (dest src n x : ℕ)
    → memmove m dest src n x ≡ (if inside dest n x then m (src + (x - dest)) else m x)
unfolding memmove
memmove_lem m dest src n x =
    ground (arith, copy_up-inside n m dest src 0 x, copy_down-inside n m dest src x)

memset_loop-inside :
    (k : ℕ) (m : Mem) (s c i x : ℕ)
    → memset_loop k m s c i x ≡ (if inside (s + i) k x then c % 256 else m x)
unfolding memset_loop
memset_loop-inside zero m s c i x = ground arith
memset_loop-inside (suc k) m s c i x =
    ground (arith, memset_loop-inside k (write m (s + i) (c % 256)) s c (i + 1) x)

-- `memset` stores the low byte of `c` in the `n` bytes from `s` on, and changes no other.
pub memset_lem :
    (m : Mem) (s c n x : ℕ) → memset m s c n x ≡ (if inside s n x then c % 256 else m x)
unfolding memset
memset_lem m s c n x = ground (arith, memset_loop-inside n m s c 0 x)
