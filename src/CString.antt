-- ===== src/CString.antt =====
-- kernel/utils/cstring.cpp: the functions of string.h, over one memory of bytes, so that source
-- and destination may overlap. No pointer runs past the end of the address space. The loops
-- that stop at a zero byte take fuel; `none` means that it ran out.
mod Tests
pub mod Copy
pub mod Text
pub mod Compare
use dvnetos.Base.{
  ℕ, zero, suc, ◌+◌, ◌-◌, ◌%◌, Bool, true, false, not, ◌&&◌, Option, none, some, ltb, ◌==◌,
  if◌then◌else◌, ℤ, pos, negsuc, ◌-ℤ◌, ◌>>=◌,
}

abbrev pub Mem : Type 0
Mem = ℕ → ℕ

-- The memory after a store of one byte.
abbrev pub write : Mem → ℕ → ℕ → Mem
write m a v x = if x == a then v else m x

-- The loop of `strlen`, at the count `len`.
unfoldable pub strlen_loop : ℕ → Mem → ℕ → ℕ → Option ℕ
strlen_loop zero m str len = none
strlen_loop (suc fuel) m str len =
    let more = strlen_loop fuel m str (len + 1) in if m (str + len) == 0 then some len else more

unfoldable pub strlen : ℕ → Mem → ℕ → Option ℕ
unfolding strlen_loop
strlen fuel m str = strlen_loop fuel m str 0

-- The loop of `strncpy` at `i`, with the terminator that is stored behind it.
unfoldable pub strncpy_loop : ℕ → Mem → (dest src n i : ℕ) → Option Mem
strncpy_loop zero m dest src n i = none
strncpy_loop (suc fuel) m dest src n i =
    let more = strncpy_loop fuel (write m (dest + i) (m (src + i))) dest src n (i + 1) in
    if not (m (src + i) == 0) && ltb i n then more else some (write m (dest + i) 0)

unfoldable pub strncpy : ℕ → Mem → (dest src n : ℕ) → Option Mem
unfolding strncpy_loop
strncpy fuel m dest src n = strncpy_loop fuel m dest src n 0

-- `strncat`: the copying loop of `strncpy`, from the end of the destination on.
unfoldable pub strncat : ℕ → Mem → (dest src n : ℕ) → Option Mem
unfolding strlen strncpy_loop
strncat fuel m dest src n = do i ← strlen fuel m dest; strncpy_loop fuel m (dest + i) src n 0

-- The loop of `memset` at `i`; the first argument counts the rounds left.
unfoldable pub memset_loop : ℕ → Mem → (s c i : ℕ) → Mem
memset_loop zero m s c i = m
memset_loop (suc k) m s c i = memset_loop k (write m (s + i) (c % 256)) s c (i + 1)

unfoldable pub memset : Mem → (s c n : ℕ) → Mem
unfolding memset_loop
memset m s c n = memset_loop n m s c 0

-- The two loops of `memmove`.
unfoldable pub copy_up : ℕ → Mem → (dest src i : ℕ) → Mem
copy_up zero m dest src i = m
copy_up (suc k) m dest src i = copy_up k (write m (dest + i) (m (src + i))) dest src (i + 1)

unfoldable pub copy_down : ℕ → Mem → (dest src : ℕ) → Mem
copy_down zero m dest src = m
copy_down (suc i) m dest src = copy_down i (write m (dest + i) (m (src + i))) dest src

unfoldable pub memmove : Mem → (dest src n : ℕ) → Mem
unfolding copy_up copy_down
memmove m dest src n =
    if ltb dest src
    then copy_up n m dest src 0
    else if ltb src dest
    then copy_down n m dest src
    else m

-- The loop of `memcmp` at `i`, with the rounds left.
unfoldable pub memcmp_loop : ℕ → Mem → (s1 s2 i : ℕ) → ℤ
memcmp_loop zero m s1 s2 i = pos 0
memcmp_loop (suc k) m s1 s2 i =
    let rest = memcmp_loop k m s1 s2 (i + 1) in
    if m (s1 + i) == m (s2 + i)
    then rest
    else if ltb (m (s1 + i)) (m (s2 + i))
    then negsuc 0
    else pos 1

unfoldable pub memcmp : Mem → (s1 s2 n : ℕ) → ℤ
unfolding memcmp_loop
memcmp m s1 s2 n = memcmp_loop n m s1 s2 0

-- `char_value` is the number that a `char` is promoted to; whether `char` is signed is up to the
-- platform.
module _ (char_value : ℕ → ℤ) where
  unfoldable pub strcmp_loop : ℕ → Mem → (str1 str2 i : ℕ) → Option ℤ
  strcmp_loop zero m str1 str2 i = none
  strcmp_loop (suc fuel) m str1 str2 i =
      let more = strcmp_loop fuel m str1 str2 (i + 1) in
      if not (m (str1 + i) == 0) && (not (m (str2 + i) == 0) && m (str1 + i) == m (str2 + i))
      then more
      else some (char_value (m (str1 + i)) -ℤ char_value (m (str2 + i)))

  unfoldable pub strcmp : ℕ → Mem → (str1 str2 : ℕ) → Option ℤ
  unfolding strcmp_loop
  strcmp fuel m str1 str2 = strcmp_loop fuel m str1 str2 0

  unfoldable pub strncmp_loop : ℕ → Mem → (str1 str2 n i : ℕ) → Option ℤ
  strncmp_loop zero m str1 str2 n i = none
  strncmp_loop (suc fuel) m str1 str2 n i =
      let more = strncmp_loop fuel m str1 str2 n (i + 1) in
      if not (m (str1 + i) == 0)
        && (not (m (str2 + i) == 0) && (m (str1 + i) == m (str2 + i) && ltb i n))
      then more
      else some (char_value (m (str1 + i)) -ℤ char_value (m (str2 + i)))

  unfoldable pub strncmp : ℕ → Mem → (str1 str2 n : ℕ) → Option ℤ
  unfolding strncmp_loop
  strncmp fuel m str1 str2 n = strncmp_loop fuel m str1 str2 n 0
