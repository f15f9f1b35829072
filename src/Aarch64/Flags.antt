-- ===== src/Aarch64/Flags.antt =====
-- `tableFlagsToString` of aarch64, on the memory of CString. `buf` is the address of its array.
use dvnetos.Base.{ℕ, ◌+◌, [], ◌∷◌, if◌then◌else◌, codes, add64, bit_and, sub64}
use dvnetos.CString.{Mem, write}
use dvnetos.Stdio.{Run, ok, ◌>>=◌, long}
use dvnetos.Stdio.Print.{ksnprintf}
use dvnetos.Bytes.{to_size}
use dvnetos.Paging.{complement, is_set}
use dvnetos.Paging.Flags.{put_flag}
use dvnetos.Aarch64.{page_valid, page_table}

unfoldable pub table_flags_to_string : Mem → (buf flags : ℕ) → Run Mem
unfolding put_flag ksnprintf
table_flags_to_string m buf flags = do
  let (m1, n) = put_flag flags page_table b'T' buf (put_flag flags page_valid b'V' buf (m, 0))
  let others = bit_and flags (complement (page_valid + page_table))
  (m2, n2) ←
      if is_set flags (complement (page_valid + page_table))
      then (do
        (m', r) ← ksnprintf m1 (buf + n) (sub64 32 n) (codes "%lx") (long others ∷ [])
        ok (m', add64 n (to_size r)))
      else ok (m1, n)
  ok (write m2 (buf + n2) 0)
