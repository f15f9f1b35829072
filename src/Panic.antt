-- ===== src/Panic.antt =====
-- kernel/utils/panic.cpp: the loop of `panicf` that finds the size of its message, and the walk over the
-- stack frames. `halt` is an endless loop, and left out.
mod Tests
use dvnetos.Base.{
  ℕ, zero, suc, ◌+◌, ◌^◌, Bool, true, false, not, ◌&&◌, Option, none, some, List, [], ◌∷◌, ◌++◌,
  ltb, leb, ◌==◌, if◌then◌else◌, ℤ, pos, negsuc, ◌-ℤ◌,
}
use dvnetos.CString.{Mem}
use dvnetos.Stdio.{Run, ok, panic, undefined, ◌>>=◌, Arg}
use dvnetos.Stdio.Print.{kvsnprintf}

-- A mark, which is not a byte, at every address from `a` on, and whether the `n` bytes at `a` have
-- kept it.
unfoldable marked : Mem → (a : ℕ) → Mem
marked m a x = if leb a x then 256 else m x

unfoldable is_marked : Mem → (a n : ℕ) → Bool
is_marked m a zero = true
is_marked m a (suc n) = m a == 256 && is_marked m (a + 1) n

-- One round: kvsnprintf with a buffer of `i` bytes at `a`. It stores within as many bytes as it
-- counts; a store behind the end of the buffer is undefined.
unfoldable print_round : Mem → (a i : ℕ) → (format : List ℕ) → List Arg → Run (Mem × ℕ)
unfolding kvsnprintf marked is_marked
print_round m a i format args = do
  (m', size) ← kvsnprintf (marked m (a + i)) a i format args
  let restored : Mem = λ x. if leb (a + i) x then m x else m' x
  if is_marked m' (a + i) (size + 1) then ok (restored, size) else undefined

-- The loop at the size `i`: the memory and the buffer of the round that ends it. `alloca` is the address
-- of a new block of a size on the stack. On fuel for the rounds; `undefined` also stands for its end.
unfoldable pub panicf_loop :
    ℕ → (alloca : ℕ → ℕ) → Mem → (format : List ℕ) → List Arg → (i : ℕ) → Run (Mem × ℕ)
unfolding print_round
panicf_loop zero alloca m format args i = undefined
panicf_loop (suc fuel) alloca m format args i = do
  (m', size) ← print_round m (alloca i) i format args
  let more = panicf_loop fuel alloca m' format args (size + 1)
  let checked = if ltb (size + 1) (2 ^ 31) then more else undefined
  if ltb i (size + 1) then checked else ok (m', alloca i)

-- The message of `panicf`.
unfoldable pub panicf : ℕ → (alloca : ℕ → ℕ) → Mem → (format : List ℕ) → List Arg → Run (Mem × ℕ)
unfolding panicf_loop
panicf fuel alloca m format args = panicf_loop fuel alloca m format args 2

abbrev is_zero : ℤ → Bool
is_zero (pos n) = n == 0
is_zero (negsuc n) = false

-- The return addresses that `dumpStack` prints, over a memory of 64-bit words, on fuel for the frames.
unfoldable pub dump_stack : ℕ → (words : ℕ → ℕ) → (frame_pointer : ℕ) → (drop : ℤ) → Option (List ℕ)
dump_stack zero words frame_pointer drop = none
dump_stack (suc fuel) words frame_pointer drop =
    let return_address = words (frame_pointer + 8) in
    let printed = dump_stack fuel words (words frame_pointer) drop in
    let dropped = dump_stack fuel words (words frame_pointer) (drop -ℤ pos 1) in
    if frame_pointer == 0
    then some []
    else if is_zero drop && not (return_address == 0)
    then elim printed [ none ↦ none | some rs ↦ some (return_address ∷ rs) ]
    else dropped
