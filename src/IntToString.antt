-- ===== src/IntToString.antt =====
-- kernel/utils/inttostring.cpp, on the memory of CString. `none` stands for what the source does not
-- define: the negation of the least `int`, a division by 0 and a read outside the table of digits. The
-- base is not negative.
pub mod Convert
pub mod Digits
mod Tests
use dvnetos.Base.{
  ℕ, zero, suc, ◌+◌, ◌-◌, ◌*◌, ◌/◌, ◌^◌, Bool, true, false, Option, none, some, ◌>>=◌, ltb, leb,
  ◌==◌, if◌then◌else◌, ℤ, pos, negsuc,
}
use dvnetos.CString.{Mem, write}

-- `"0123456789abcdef"[d]`, with the terminator.
unfoldable pub digit_char : ℕ → Option ℕ
digit_char d =
    if ltb d 10
    then some (b'0' + d)
    else if ltb d 16
    then some (b'a' + (d - 10))
    else if d == 16
    then some 0
    else none

-- The loop that writes the digits, for a value that is not negative; the memory and `ptr` behind it.
unfoldable pub convert_loop : ℕ → Mem → (ptr value base : ℕ) → Option (Mem × ℕ)
unfolding digit_char
convert_loop zero m ptr value base = none
convert_loop (suc fuel) m ptr value base = do
  c ← if base == 0 then none else digit_char (value - value / base * base)
  let m' = write m ptr c
  let more = convert_loop fuel m' (ptr + 1) (value / base) base
  if value / base == 0 then some (m', ptr + 1) else more

-- The loop that reverses the string.
unfoldable pub reverse_loop : ℕ → Mem → (ptr1 ptr : ℕ) → Mem
reverse_loop zero m ptr1 ptr = m
reverse_loop (suc fuel) m ptr1 ptr =
    let rest = reverse_loop fuel (write (write m ptr (m ptr1)) ptr1 (m ptr)) (ptr1 + 1) (ptr - 1) in
    if ltb ptr1 ptr then rest else m

-- `*ptr-- = '\0'`, and the reversal from `ptr1` on.
unfoldable pub finish : ℕ → (ptr1 : ℕ) → Mem × ℕ → Mem
unfolding reverse_loop
finish fuel ptr1 (m, ptr) = reverse_loop fuel (write m ptr 0) ptr1 (ptr - 1)

-- On fuel for the digits. A negative value in another base than 10 reads in front of the table at its
-- highest digit.
unfoldable pub int_to_string : ℕ → Mem → (value : ℤ) → (str base : ℕ) → Option Mem
unfolding convert_loop finish
int_to_string fuel m (pos n) str base = do
  r ← convert_loop fuel m str n base
  some (finish fuel str r)
int_to_string fuel m (negsuc n) str base =
    if base == 10
    then (if n + 1 == 2 ^ 31 then none else (do
      r ← convert_loop fuel (write m str b'-') (str + 1) (n + 1) base
      some (finish fuel str r)))
    else none
