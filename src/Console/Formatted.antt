-- ===== src/Console/Formatted.antt =====
-- `VirtualConsole::appendFormattedText`.
use dvnetos.Base.{ℕ, List}
use dvnetos.Stdio.{Run, ok, ◌>>=◌, Arg}
use dvnetos.Stdio.Print.{kvsnprintf}
use dvnetos.Stdio.Read.{read_text}
use dvnetos.Console.{Console, append_text}

-- `buf` is the address of the local buffer of 1024 bytes, where the text is read up to its terminator.
unfoldable pub append_formatted_text :
    Console → (buf : ℕ) → (format : List ℕ) → List Arg → Run Console
unfolding kvsnprintf read_text append_text
append_formatted_text c buf format args = do
  (m, size) ← kvsnprintf c.memory buf 1024 format args
  cs ← read_text 1024 m buf
  ok (append_text (record c { memory = m }) cs)
