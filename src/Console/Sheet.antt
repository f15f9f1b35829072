-- ===== src/Console/Sheet.antt =====
-- A sheet of unbounded length on which a text is typed, and a screen that shows a part of it.

use dvnetos.Base.{
  ℕ, zero, suc, ◌+◌, ◌-◌, ◌*◌, ◌≤◌, ◌<◌, ◌≡◌, refl, ◌∙◌, sym, ap, inl, inr, arith, true, false,
  ◌&&◌, List, [], ◌∷◌, leb, ◌==◌, if◌then◌else◌, Bool-cases, row_before,
}
use dvnetos.CString.{Mem, write, memmove, memset}
use dvnetos.CString.Copy.{memmove_lem, memset_lem, inside}
use dvnetos.Console.{Console, blank_line, scroll, advance}

-- The characters of each line, and the place where the next one goes.
pub record Sheet : Type 0 where
  pub line : ℕ → ℕ → ℕ
  pub x : ℕ
  pub y : ℕ

abbrev pub blank_sheet : Sheet
blank_sheet = record { line = λ k col. b' '; x = 0; y = 0 }

abbrev pub next_line : Sheet → Sheet
next_line s = record s { x = 0; y = s.y + 1 }

abbrev pub put : Sheet → ℕ → Sheet
put s ch = record s { line = λ k col. if k == s.y && col == s.x then ch else s.line k col }

-- A character on lines of length `l`.
abbrev pub type_char : ℕ → Sheet → ℕ → Sheet
type_char l s ch =
    if ch == b'\n'
    then next_line s
    else if leb l (s.x + 1)
    then next_line (put s ch)
    else record (put s ch) { x = s.x + 1 }

unfoldable pub type_text : ℕ → Sheet → List ℕ → Sheet
type_text l s [] = s
type_text l s (ch ∷ cs) = type_text l (type_char l s ch) cs

-- The screen shows the lines of the sheet down to the one that is typed, and blanks below.
pub record Pictures (c : Console) (s : Sheet) : Type 0 where
  pub row : c.cursor_y ≤ s.y
  pub cells :
      (r col : ℕ)
      → r < c.line_count
      → col < c.line_length
      → c.memory (c.buffer + (r * c.line_length + col)) ≡ s.line (s.y - c.cursor_y + r) col
  pub below : (k col : ℕ) → s.y < k → s.line k col ≡ b' '

pub record Shows (c : Console) (s : Sheet) : Type 0 where
  pub pictures : Pictures c s
  pub column : c.cursor_x ≡ s.x
  pub rest : (col : ℕ) → s.x ≤ col → s.line s.y col ≡ b' '

-- Blanks over blanks.
pub blank_line-same :
    (k : ℕ) (c : Console)
    → ((j : ℕ) → j < k → c.memory (c.buffer + c.cursor_y * c.line_length + c.cursor_x + j) ≡ b' ')
    → (a : ℕ) → (blank_line k c).memory a ≡ c.memory a
unfolding blank_line
blank_line-same zero c blank a = refl
blank_line-same (suc k) c blank a = blank_line-same k _ later a ∙ same a
  where
    here : ℕ
    here = c.buffer + c.cursor_y * c.line_length + c.cursor_x

    same : (a : ℕ) → write c.memory here b' ' a ≡ c.memory a
    same a = elim (Bool-cases (a == here)) [
      | inl at ↦
          let first : c.memory (here + 0) ≡ b' ' = blank 0 (omega arith) in
          let place : here + 0 ≡ a = ground (arith, at) in rw at (sym first ∙ ap c.memory place)
      | inr elsewhere ↦ rw elsewhere refl
    ]

    later :
        (j : ℕ)
        → j < k
        → write c.memory here b' ' (c.buffer + c.cursor_y * c.line_length + (c.cursor_x + 1) + j)
          ≡ b' '
    later j less =
        same (c.buffer + c.cursor_y * c.line_length + (c.cursor_x + 1) + j)
        ∙ ap c.memory (omega arith)
        ∙ blank (suc j) (omega arith)

pub blank_line-moved :
    (k : ℕ) (c : Console)
    → blank_line k c ≡ record c { memory = (blank_line k c).memory; cursor_x = c.cursor_x + k }
unfolding blank_line
blank_line-moved zero c =
    let none_left : c.cursor_x + 0 ≡ c.cursor_x = omega arith in rw none_left refl
blank_line-moved (suc k) c =
    let next = record c {
      memory = write c.memory (c.buffer + c.cursor_y * c.line_length + c.cursor_x) b' ';
      cursor_x = c.cursor_x + 1;
    } in
    let more : c.cursor_x + suc k ≡ c.cursor_x + 1 + k = omega arith in
    rw more (blank_line-moved k next)

-- The cursor goes to the start of the next line.
abbrev pub wrap : Console → Console
wrap c =
    let wrapped = record c { cursor_x = 0; cursor_y = c.cursor_y + 1 } in
    if leb c.line_count (c.cursor_y + 1) then scroll wrapped else wrapped

pub advance-wrap : (c : Console) → leb c.line_length (c.cursor_x + 1) ≡ true → advance c ≡ wrap c
unfolding advance
advance-wrap c full = rw full refl

pub advance-right :
    (c : Console)
    → leb c.line_length (c.cursor_x + 1) ≡ false
    → advance c ≡ record c { cursor_x = c.cursor_x + 1 }
unfolding advance
advance-right c free = rw free refl

-- The bytes behind a scroll.
scroll-cell :
    (m : Mem) (buffer l n r col : ℕ)
    → r < suc n
    → col < l
    → memset
        (memmove m buffer (buffer + l) (l * n))
        (buffer + l * n)
        b' '
        l
        (buffer + (r * l + col))
      ≡ (if r == n then b' ' else m (buffer + ((r + 1) * l + col)))
scroll-cell m buffer l n r col h h' =
    memset_lem (memmove m buffer (buffer + l) (l * n)) (buffer + l * n) b' ' l
      (buffer + (r * l + col))
    ∙ elim (Bool-cases (r == n)) [
      | inl last ↦
          let here : r ≡ n = ground (arith, last) in
          let turned : l * n ≡ r * l = ap (λ k. l * k) (sym here) ∙ omega arith in
          let inside_last : inside (buffer + l * n) l (buffer + (r * l + col)) ≡ true =
            ground (arith, turned) in
          rw (last, inside_last) refl
      | inr other ↦
          let before : r * l + l ≤ n * l = row_before l r n (ground (arith, other)) in
          let turned : l * n ≡ n * l = omega arith in
          let above : inside (buffer + l * n) l (buffer + (r * l + col)) ≡ false =
            ground (arith, turned, before) in
          let one_more : (r + 1) * l ≡ r * l + l = omega arith in
          let moved : inside buffer (l * n) (buffer + (r * l + col)) ≡ true =
            ground (arith, turned, before) in
          let place : buffer + l + (buffer + (r * l + col) - buffer)
              ≡ buffer + ((r + 1) * l + col) =
            omega (arith, one_more) in
          rw (other, above)
            (memmove_lem m buffer (buffer + l) (l * n) (buffer + (r * l + col))
              ∙ rw (moved, place) refl)
    ]

pub wrap-Shows :
    (c : Console) (s : Sheet)
    → c.cursor_y < c.line_count
    → Pictures c s
    → Shows (wrap c) (next_line s)
unfolding scroll
wrap-Shows c s on_screen pictures = elim (Bool-cases (leb c.line_count (c.cursor_y + 1))) [
  | inl bottom ↦
      let n = c.line_count - 1 in
      let lines : c.line_count ≡ suc n = omega arith in
      let last_row : c.cursor_y ≡ n = ground (arith, bottom) in
      rw bottom (record {
        pictures = record {
          row = omega (arith, pictures.row);
          cells = λ r col h h'.
              scroll-cell c.memory c.buffer c.line_length n r col (omega arith) h'
              ∙ elim (Bool-cases (r == n)) [
                | inl last ↦ rw last (
                    sym (
                      pictures.below (s.y + 1 - (c.cursor_y + 1 - 1) + r) col
                        (ground (arith, last, pictures.row))))
                | inr other ↦
                    let place : s.y - c.cursor_y + (r + 1) ≡ s.y + 1 - (c.cursor_y + 1 - 1) + r =
                      omega (arith, pictures.row) in
                    rw other (
                      pictures.cells (r + 1) col (ground (arith, other)) h'
                      ∙ ap (λ k. s.line k col) place)
              ];
          below = λ k col less. pictures.below k col (omega arith);
        };
        column = refl;
        rest = λ col after. pictures.below (s.y + 1) col (omega arith);
      })
  | inr above ↦ rw above (record {
    pictures = record {
      row = omega (arith, pictures.row);
      cells = λ r col h h'.
          let place : s.y - c.cursor_y + r ≡ s.y + 1 - (c.cursor_y + 1) + r = omega arith in
          pictures.cells r col h h' ∙ ap (λ k. s.line k col) place;
      below = λ k col less. pictures.below k col (omega arith);
    };
    column = refl;
    rest = λ col after. pictures.below (s.y + 1) col (omega arith);
  })
]
