-- ===== src/Paging/Flags.antt =====
-- `tableFlagsToString` of x86-64, on the memory of CString. `buf` is the address of its array.
use dvnetos.Base.{ℕ, ◌+◌, if◌then◌else◌}
use dvnetos.CString.{Mem, write}
use dvnetos.Paging.{is_set, page_present, page_write, page_user, page_size_flag}

abbrev pub page_write_through : ℕ
page_write_through = 8

abbrev pub page_cache_disable : ℕ
page_cache_disable = 0x10

abbrev pub page_global : ℕ
page_global = 0x100

abbrev pub page_nx : ℕ
page_nx = 0x8000000000000000

-- `if (flags & flag) { buf[n++] = c; }`
unfoldable pub put_flag : (flags flag c buf : ℕ) → Mem × ℕ → Mem × ℕ
put_flag flags flag c buf (m, n) =
    if is_set flags flag then (write m (buf + n) c, n + 1) else (m, n)

unfoldable pub table_flags_to_string : Mem → (buf flags : ℕ) → Mem
unfolding put_flag
table_flags_to_string m buf flags =
    let p = put_flag flags page_present b'P' buf (m, 0) in
    let w = put_flag flags page_write b'W' buf p in
    let u = put_flag flags page_user b'U' buf w in
    let t = put_flag flags page_write_through b'T' buf u in
    let c = put_flag flags page_cache_disable b'C' buf t in
    let s = put_flag flags page_size_flag b'S' buf c in
    let g = put_flag flags page_global b'G' buf s in
    let x = put_flag flags page_nx b'X' buf (put_flag flags page_nx b'N' buf g) in
    write x.0 (buf + x.1) 0
