-- ===== src/Stdio.antt =====
-- kernel/utils/stdio.cpp: kvsnprintf, ksnprintf and the formatters that they call. The buffer is a
-- stretch of memory from `buf` on; a format and a text argument are the characters before their
-- terminator. A run in which a counter, of type int in the source, overflows is undefined.
pub mod Print
pub mod Read
pub mod Render
pub mod Output
pub mod Loop
pub mod Return
pub mod Numbers
pub mod Overrun
pub mod Emit
pub mod Digits
mod Tests
use dvnetos.Base.{
  ℕ, zero, suc, ◌+◌, ◌-◌, ◌*◌, ◌/◌, ◌%◌, ◌^◌, Bool, true, false, not, ◌&&◌, ◌||◌, Option, none,
  some, List, [], ◌∷◌, ◌++◌, ltb, leb, ◌==◌, if◌then◌else◌, sub64, length,
}
use dvnetos.CString.{Mem, write}

-- How a call ends: with a value, in `kpanicf` for an unsupported specifier, or in undefined
-- behaviour (a store outside a local array, an argument of another type, a signed overflow).
pub data Run (A : Type 0) : Type 0 where
  ok : A → Run A
  panic : ℕ → Run A
  undefined : Run A

infixl 5 ◌>>=◌
abbrev pub ◌>>=◌ : {A B : Type 0} → Run A → (A → Run B) → Run B
ok a >>= f = f a
panic c >>= f = panic c
undefined >>= f = undefined

-- `formatSpec`
pub record Spec : Type 0 where
  pub type : ℕ
  pub padding : ℕ
  pub length_mod : ℕ
  pub length_mod_2 : ℕ
  pub left_justify : Bool
  pub force_sign : Bool
  pub min_length : ℕ
  pub precision : ℕ

-- An argument of the call: the bits of an int or of a long, a text (or null), a pointer.
pub data Arg : Type 0 where
  int : ℕ → Arg
  long : ℕ → Arg
  text : Option (List ℕ) → Arg
  pointer : ℕ → Arg

-- `if (j < n - 1) buffer[j] = c;`, where `n - 1` is computed in size_t.
unfoldable pub put : Mem → (buf n j c : ℕ) → Mem
put m buf n j c = if ltb j (sub64 n 1) then write m (buf + j) c else m

-- The output loop of the formatters, from `j` on. `j` is of type int: the loop of kvsnprintf, which
-- adds it to its own counter, checks the sum.
unfoldable pub emit : Mem → (buf n j : ℕ) → List ℕ → Mem × ℕ
emit m buf n j [] = (m, j)
emit m buf n j (c ∷ cs) = emit (put m buf n j c) buf n (j + 1) cs

-- The digit loop of the formatters. The first argument is the room left in `temp`, and the last
-- what stands in it, in the order in which it is printed.
unfoldable pub digits_loop : ℕ → (base : ℕ) → (ℕ → ℕ) → ℕ → List ℕ → Run (List ℕ)
digits_loop zero base show value temp = undefined
digits_loop (suc room) base show value temp =
    let rest = digits_loop room base show (value / base) (show (value % base) ∷ temp) in
    if value / base == 0 then ok (show (value % base) ∷ temp) else rest

-- `sizeof(temp)`
abbrev pub temp_size : ℕ
temp_size = 20

abbrev pub decimal_digit : ℕ → ℕ
decimal_digit d = b'0' + d

abbrev pub hex_digit : ℕ → ℕ → ℕ
hex_digit a d = if ltb d 10 then b'0' + d else a + d - 10

abbrev pub minus : Bool → List ℕ → List ℕ
minus negative cs = if negative then b'-' ∷ cs else cs

unfoldable pub format_decimal : Mem → (buf n : ℕ) → (negative : Bool) → ℕ → Run (Mem × ℕ)
unfolding emit digits_loop
format_decimal m buf n negative value = do
  ds ← digits_loop temp_size 10 decimal_digit value []
  ok (emit m buf n 0 (minus negative ds))

unfoldable pub format_hex : Mem → (buf n : ℕ) → Spec → ℕ → Run (Mem × ℕ)
unfolding emit digits_loop
format_hex m buf n spec value = do
  ds ← digits_loop temp_size 16 (hex_digit (if spec.type == b'X' then b'A' else b'a')) value []
  ok (emit m buf n 0 ds)

unfoldable pub format_oct : Mem → (buf n : ℕ) → ℕ → Run (Mem × ℕ)
unfolding emit digits_loop
format_oct m buf n value = do
  ds ← digits_loop temp_size 8 decimal_digit value []
  ok (emit m buf n 0 ds)

-- "(null)"
abbrev pub null_text : List ℕ
null_text = b'(' ∷ b'n' ∷ b'u' ∷ b'l' ∷ b'l' ∷ b')' ∷ []

abbrev pub text_or_null : Option (List ℕ) → List ℕ
text_or_null none = null_text
text_or_null (some cs) = cs

unfoldable pub format_string : Mem → (buf n : ℕ) → Option (List ℕ) → Mem × ℕ
unfolding emit
format_string m buf n cs = emit m buf n 0 (text_or_null cs)

unfoldable pub format_char : Mem → (buf n c : ℕ) → Mem × ℕ
format_char m buf n c = (if ltb 0 n then write m buf (c % 256) else m, 1)

-- The hexadecimal digits of a pointer, `k` of them.
unfoldable pub pointer_digits : ℕ → ℕ → List ℕ
pointer_digits zero ptr = []
pointer_digits (suc k) ptr = hex_digit b'a' (ptr / 16 ^ k % 16) ∷ pointer_digits k ptr

unfoldable pub format_pointer : Mem → (buf n ptr : ℕ) → Mem × ℕ
unfolding emit pointer_digits
format_pointer m buf n ptr = emit m buf n 0 (b'0' ∷ b'x' ∷ pointer_digits 16 ptr)
