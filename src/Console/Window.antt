-- ===== src/Console/Window.antt =====
-- The screen as a window on a sheet of unbounded length, on which the text is typed.
use mathlib.Core.Path.{subst}
use dvnetos.Base.{
  ℕ, ◌+◌, ◌-◌, ◌*◌, ◌≤◌, ◌<◌, ◌≡◌, refl, ◌∙◌, sym, ap, inl, inr, arith, Bool, true, false, ◌&&◌,
  List, [], ◌∷◌, leb, ◌==◌, if◌then◌else◌, Bool-cases, same_cell,
}
use dvnetos.CString.{write}
use dvnetos.CString.Copy.{memset_lem, inside}
use dvnetos.Console.{
  Console, blank_line, put_char, advance, append_text, init, at_most, max_res_width, max_res_height,
  buffer_size,
}
use dvnetos.Console.Cursor.{IsConsole, typed-IsConsole, cell, init-IsConsole}
use dvnetos.Console.Sheet.{
  Sheet, blank_sheet, put, type_char, type_text, Pictures, Shows, blank_line-same, blank_line-moved,
  advance-wrap, advance-right, wrap-Shows,
}

-- A newline fills the rest of the line with blanks that stand there already.
newline-Pictures :
    (c : Console) (s : Sheet)
    → IsConsole c
    → Shows c s
    → Pictures (blank_line (c.line_length - c.cursor_x) c) s
newline-Pictures c s h shows =
    let k = c.line_length - c.cursor_x in
    let blank : (j : ℕ)
        → j < k
        → c.memory (c.buffer + c.cursor_y * c.line_length + c.cursor_x + j) ≡ b' ' =
      λ j less.
        let place : c.buffer + c.cursor_y * c.line_length + c.cursor_x + j
            ≡ c.buffer + (c.cursor_y * c.line_length + (c.cursor_x + j)) =
          omega arith in
        let this : s.y - c.cursor_y + c.cursor_y ≡ s.y = omega (arith, shows.pictures.row) in
        ap c.memory place
        ∙ shows.pictures.cells c.cursor_y (c.cursor_x + j) h.row (omega arith)
        ∙ ap (λ k. s.line k (c.cursor_x + j)) this
        ∙ shows.rest (c.cursor_x + j) (omega (arith, shows.column)) in
    rw (blank_line-moved k c) (record {
      row = shows.pictures.row;
      cells = λ r col h' h''.
          blank_line-same k c blank (c.buffer + (r * c.line_length + col))
          ∙ shows.pictures.cells r col h' h'';
      below = shows.pictures.below;
    })

-- A character is put where the sheet has it.
put-Pictures :
    (c : Console) (s : Sheet) (ch : ℕ)
    → IsConsole c
    → Shows c s
    → Pictures
        (record c {
          memory = write c.memory (c.buffer + c.cursor_y * c.line_length + c.cursor_x) ch;
        })
        (put s ch)
put-Pictures c s ch h shows = record {
  row = shows.pictures.row;
  cells = λ r col h' h''.
      let same : (c.buffer + (r * c.line_length + col)
            == c.buffer + c.cursor_y * c.line_length + c.cursor_x)
          ≡ (r == c.cursor_y && col == c.cursor_x) =
        shifted c.buffer (r * c.line_length + col) (c.cursor_y * c.line_length) c.cursor_x
        ∙ same_cell c.line_length r col c.cursor_y c.cursor_x h'' h.column in
      let place : (s.y - c.cursor_y + r == s.y) ≡ (r == c.cursor_y) =
        ground (arith, shows.pictures.row) in
      rw (same, place, sym shows.column)
        (chosen (r == c.cursor_y && col == c.cursor_x) (shows.pictures.cells r col h' h''));
  below = λ k col less.
      let other : (k == s.y) ≡ false = ground (arith, less) in
      rw other (shows.pictures.below k col less);
}
  where
    shifted : (b a d e : ℕ) → (b + a == b + d + e) ≡ (a == d + e)
    shifted b a d e = ground arith

    chosen : (b : Bool) {v w : ℕ} → v ≡ w → (if b then ch else v) ≡ (if b then ch else w)
    chosen b e = ap (λ v. if b then ch else v) e

type_char-Shows :
    (c : Console) (s : Sheet) (ch : ℕ)
    → IsConsole c
    → Shows c s
    → Shows (advance (put_char c ch)) (type_char c.line_length s ch)
unfolding put_char
type_char-Shows c s ch h shows = elim (Bool-cases (ch == b'\n')) [
  | inl newline ↦
      let k = c.line_length - c.cursor_x in
      let c' = record c { memory = (blank_line k c).memory; cursor_x = c.cursor_x + k } in
      let full : leb c.line_length (c.cursor_x + k + 1) ≡ true = ground (arith, h.column) in
      let pictures : Pictures c' s =
        subst (λ d. Pictures d s) (blank_line-moved k c) (newline-Pictures c s h shows) in
      rw (newline, blank_line-moved k c, advance-wrap c' full) (wrap-Shows c' s h.row pictures)
  | inr other ↦
      let c' = record c {
        memory = write c.memory (c.buffer + c.cursor_y * c.line_length + c.cursor_x) ch;
      } in
      let pictures = put-Pictures c s ch h shows in
      elim (Bool-cases (leb c.line_length (c.cursor_x + 1))) [
        | inl full ↦
            let full' : leb c.line_length (s.x + 1) ≡ true = rw (sym shows.column) full in
            rw (other, full', advance-wrap c' full) (wrap-Shows c' (put s ch) h.row pictures)
        | inr free ↦
            let free' : leb c.line_length (s.x + 1) ≡ false = rw (sym shows.column) free in
            rw (other, free', advance-right c' free)
              (record {
                pictures = record {
                  row = pictures.row;
                  cells = pictures.cells;
                  below = pictures.below;
                };
                column = ap (λ x. x + 1) shows.column;
                rest = λ col after.
                    let next : (s.y == s.y && col == s.x) ≡ false = ground (arith, after) in
                    rw next (shows.rest col (omega (arith, after)));
              })
      ]
]

-- A console whose cursor is on the screen, and which shows the end of a sheet, shows after appendText of
-- any text the end of the sheet on which the text has been typed: the screen is a window on all that was
-- written, with the lines of the text wrapped at the width of the screen, the last line at the cursor, and
-- nothing lost or repeated when lines move up.
pub append_text-Shows :
    (c : Console) (s : Sheet) (cs : List ℕ)
    → IsConsole c
    → Shows c s
    → Shows (append_text c cs) (type_text c.line_length s cs)
unfolding append_text type_text
append_text-Shows c s [] h shows = shows
append_text-Shows c s (ch ∷ cs) h shows =
    let (next, kept) = typed-IsConsole c ch h in
    subst
      (λ l.
        Shows (append_text (advance (put_char c ch)) cs)
          (type_text l (type_char c.line_length s ch) cs))
      kept.same_length
      (append_text-Shows (advance (put_char c ch)) (type_char c.line_length s ch) cs next
        (type_char-Shows c s ch h shows))

init-Pictures :
    (c : Console) (fw fh w h : ℕ)
    → IsConsole (init c fw fh w h)
    → c.cursor_x ≡ 0
    → c.cursor_y ≡ 0
    → Shows (init c fw fh w h) blank_sheet
unfolding init
init-Pictures c fw fh w h console x0 y0 = record {
  pictures = record {
    row = omega (arith, y0);
    cells = λ r col h' h''.
        let place =
          cell col r (init c fw fh w h).line_length (init c fw fh w h).line_count h'' h' in
        let a = c.buffer + (r * (init c fw fh w h).line_length + col) in
        let blank : inside c.buffer buffer_size a ≡ true = ground (arith, place, console.fits) in
        memset_lem c.memory c.buffer b' ' buffer_size a ∙ rw blank refl;
    below = λ k col less. refl;
  };
  column = x0;
  rest = λ col after. refl;
}

-- After init with a font of at least 8 by 16 pixels that is not larger than the screen, the lines fit
-- in the buffer, whatever the resolution; a console whose cursor is at the start is in order, and shows a
-- blank sheet.
pub init-Shows :
    (c : Console) (fw fh w h : ℕ)
    → 8 ≤ fw
    → 16 ≤ fh
    → fw ≤ at_most max_res_width w
    → fh ≤ at_most max_res_height h
    → c.cursor_x ≡ 0
    → c.cursor_y ≡ 0
    → IsConsole (init c fw fh w h) × Shows (init c fw fh w h) blank_sheet
init-Shows c fw fh w h wide high some_width some_height x0 y0 =
    let console = init-IsConsole c fw fh w h wide high some_width some_height x0 y0 in
    (console, init-Pictures c fw fh w h console x0 y0)
