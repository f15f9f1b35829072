-- ===== src/Panic/Tests.antt =====
-- Messages that the first buffer is too small for, and a stack of two frames.
use dvnetos.Base.{ℕ, ◌+◌, ◌≡◌, refl, some, [], ◌∷◌, codes, ◌==◌, if◌then◌else◌, pos}
use dvnetos.CString.{Mem}
use dvnetos.Stdio.{ok, undefined, ◌>>=◌, Run, text, format_string}
use dvnetos.Panic.{print_round, panicf, dump_stack}

abbrev blank : Mem
blank x = 0

-- The buffer, and the first, last and terminating characters of a message of four.
abbrev ends_of : Run (Mem × ℕ) → Run (ℕ × ℕ × ℕ × ℕ)
ends_of run = do (m, a) ← run; ok (a, m a, m (a + 3), m (a + 4))

-- A message without a specifier: the second round has a buffer that is large enough.
plain_message :
    ends_of (panicf 2 (λ i. 1000 + i) blank (codes "lost") []) ≡ ok (1005, b'l', b't', 0)
unfolding panicf print_round
plain_message = refl

-- The text of a %s overruns the buffer of the first round.
formatted_message :
    panicf 2 (λ i. 1000 + i) blank (codes "page %s") (text (some (codes "lost")) ∷ []) ≡ undefined
unfolding panicf print_round format_string
formatted_message = refl

-- The frame at 100 is the one of dumpStack's caller; its return address is dropped.
abbrev frames : ℕ → ℕ
frames a = if a == 100 then 200 else if a == 108 then 7 else if a == 208 then 9 else 0

dumped : dump_stack 3 frames 100 (pos 1) ≡ some (9 ∷ [])
unfolding dump_stack
dumped = refl
