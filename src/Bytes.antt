-- ===== src/Bytes.antt =====
-- kernel/utils/bytes.cpp.
pub mod Text
pub mod Total
mod Tests
use dvnetos.Base.{
  ℕ, zero, suc, ◌+◌, ◌-◌, ◌*◌, ◌/◌, ◌%◌, ◌^◌, Bool, true, false, ◌&&◌, List, [], ◌∷◌, ltb,
  if◌then◌else◌, String, codes, ℤ, pos, negsuc, add64, sub64,
}
use dvnetos.CString.{Mem, write}
use dvnetos.Stdio.{Run, ok, panic, undefined, ◌>>=◌, Arg, long}
use dvnetos.Stdio.Print.{ksnprintf}

-- An int as a size_t.
abbrev pub to_size : ℤ → ℕ
to_size (pos n) = n
to_size (negsuc n) = sub64 0 (n + 1)

-- The unit that a number of bytes is counted in, with its name.
unfoldable pub unit_of : ℕ → ℕ × String
unit_of bytes =
    if ltb bytes 1024
    then (1, "%lu B")
    else if ltb bytes (1024 * 1024)
    then (1024, "%lu KiB")
    else if ltb bytes (1024 * 1024 * 1024)
    then (1024 * 1024, "%lu MiB")
    else (1024 * 1024 * 1024, "%lu GiB")

-- `llen` behind the call of ksnprintf: the first branch leaves it 0.
abbrev pub llen_of : (bytes : ℕ) → ℤ → ℕ
llen_of bytes r = if ltb bytes 1024 then 0 else to_size r

-- On fuel: each call counts in a smaller unit than the one before, so four calls are enough.
unfoldable pub bytes_to_human_readable : ℕ → Mem → (buf len bytes : ℕ) → Run Mem
unfolding unit_of ksnprintf
bytes_to_human_readable zero m buf len bytes = undefined
bytes_to_human_readable (suc fuel) m buf len bytes = do
  let unit = unit_of bytes
  (m', r) ← ksnprintf m buf len (codes unit.1) (long (bytes / unit.0) ∷ [])
  let llen = llen_of bytes r
  let more =
      bytes_to_human_readable fuel (write m' (buf + llen) b' ') (buf + (llen + 1))
        (sub64 len (llen + 1)) (bytes % unit.0)
  if ltb 0 (bytes % unit.0) && ltb llen len then more else ok m'
