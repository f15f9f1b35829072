-- ===== src/Serial/Tests.antt =====
-- The port of x86-64 at a concrete text.
use dvnetos.Base.{◌≡◌, ◌==◌, refl, if◌then◌else◌, some, [], ◌∷◌}
use dvnetos.CString.{Mem}
use dvnetos.Serial.{write_x86}

abbrev texts : Mem
texts x = if x == 0 then 72 else if x == 1 then 105 else 0

whole_text : write_x86 4 texts 0 1 [] ≡ some (72 ∷ 105 ∷ [])
unfolding write_x86
whole_text = refl
