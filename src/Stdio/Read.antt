-- ===== src/Stdio/Read.antt =====
-- A text read back from memory, as `%s` and `appendText` read it.
use dvnetos.Base.{ℕ, zero, suc, ◌+◌, List, [], ◌∷◌, ◌==◌, if◌then◌else◌}
use dvnetos.CString.{Mem}
use dvnetos.Stdio.{Run, ok, undefined, ◌>>=◌}

-- The text at an address, on fuel for its characters and the terminator.
unfoldable pub read_text : ℕ → Mem → ℕ → Run (List ℕ)
read_text zero m a = undefined
read_text (suc fuel) m a =
    let rest = (do cs ← read_text fuel m (a + 1); ok (m a ∷ cs)) in if m a == 0 then ok [] else rest
