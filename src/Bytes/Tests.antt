-- ===== src/Bytes/Tests.antt =====
-- bytesToHumanReadable at concrete numbers.
use dvnetos.Base.{ℕ, ◌+◌, ◌*◌, ◌<◌, ◌^◌, ◌≡◌, refl, arith, List, [], ◌∷◌, ◌++◌, length, codes}
use dvnetos.CString.{Mem}
use dvnetos.Stdio.{ok, digits_loop}
use dvnetos.Stdio.Print.{read_spec, take_unsigned}
use dvnetos.Stdio.Render.{render, directive_text}
use dvnetos.Stdio.Emit.{store}
use dvnetos.Bytes.{bytes_to_human_readable}
use dvnetos.Bytes.Text.{human}
use dvnetos.Bytes.Total.{bytes_to_human_readable-total}

mixed : human 4 (5 * 1024 * 1024 + 17) ≡ ok (codes "5 MiB 17 B")
unfolding human digits_loop read_spec take_unsigned render directive_text
mixed = refl

bytes_to_human_readable-total_example :
    (cs : List ℕ) × (human 4 1536 ≡ ok cs)
    × ((m : Mem) (buf len : ℕ)
        → length cs < len
        → len < 2 ^ 64
        → bytes_to_human_readable 4 m buf len 1536 ≡ ok (store m buf (cs ++ 0 ∷ [])))
bytes_to_human_readable-total_example = bytes_to_human_readable-total 1536 (omega arith)
