-- ===== src/Console/Tests.antt =====
-- The theorems on the console at concrete texts.
use dvnetos.Base.{ℕ, ◌+◌, ◌≡◌, refl, arith, true, List, [], ◌∷◌, codes}
use dvnetos.CString.{Mem}
use dvnetos.Console.{Console, init, append_text}
use dvnetos.Console.Cursor.{IsConsole, Keeps, append_text-IsConsole}
use dvnetos.Console.Sheet.{Sheet, blank_sheet, type_text, Shows}
use dvnetos.Console.Window.{append_text-Shows, init-Shows}

abbrev blank : Mem
blank x = 32

-- Three lines of four characters.
abbrev small : Console
small = record {
  cursor_x = 2;
  cursor_y = 2;
  line_length = 4;
  line_count = 3;
  init_complete = true;
  memory = blank;
  buffer = 1000;
}

abbrev line : ℕ → Mem → List ℕ
line a m = m a ∷ m (a + 1) ∷ m (a + 2) ∷ m (a + 3) ∷ []

-- The text wraps, and the screen scrolls.
wrapped : line 1004 (append_text small (codes "abcd")).memory ≡ codes "  ab"
unfolding append_text
wrapped = refl

append_text-IsConsole_example :
    IsConsole (append_text small (codes "abcd")) × Keeps small (append_text small (codes "abcd"))
append_text-IsConsole_example =
    append_text-IsConsole small (codes "abcd")
      (record { column = omega arith; row = omega arith; fits = omega arith })

abbrev unset : Console
unset = record small { cursor_x = 0; cursor_y = 0 }

init-Shows_example :
    IsConsole (init unset 8 16 1920 1080) × Shows (init unset 8 16 1920 1080) blank_sheet
init-Shows_example =
    init-Shows unset 8 16 1920 1080 (omega arith) (omega arith) (omega arith) (omega arith) refl
      refl

-- The blank sheet whose third line is being typed.
abbrev sheet : Sheet
sheet = record blank_sheet { x = 2; y = 2 }

-- The first line of the text ends on the third line of the sheet.
typed : (type_text 4 sheet (codes "abcd")).line 3 1 ≡ b'd'
unfolding type_text
typed = refl

append_text-Shows_example :
    Shows (append_text small (codes "abcd")) (type_text 4 sheet (codes "abcd"))
append_text-Shows_example =
    append_text-Shows small sheet (codes "abcd")
      (record { column = omega arith; row = omega arith; fits = omega arith })
      (record {
        pictures = record {
          row = omega arith;
          cells = λ r col h h'. refl;
          below = λ k col less. refl;
        };
        column = refl;
        rest = λ col after. refl;
      })
