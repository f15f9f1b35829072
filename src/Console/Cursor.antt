-- ===== src/Console/Cursor.antt =====
-- The cursor stays on the screen, and no character is stored outside the buffer.
use native.Mathlib.Nat.{mul-le-mul_right, mul-le-mul, div-le_of_le-mul, le-div_iff_mul-le}
use dvnetos.Base.{
  ℕ, zero, suc, ◌+◌, ◌-◌, ◌*◌, ◌/◌, ◌≤◌, ◌<◌, ◌≡◌, ◌⊎◌, refl, ◌∙◌, inl, inr, arith, List, [], ◌∷◌,
  leb, ◌==◌, Bool-cases,
}
use dvnetos.CString.{write, memmove}
use dvnetos.CString.Copy.{memmove_lem, memset_lem}
use dvnetos.Console.{
  Console, buffer_size, init, at_most, max_res_width, max_res_height, blank_line, put_char, scroll,
  advance, append_text,
}

-- The lines fit in the buffer, and the cursor is on one of them.
pub record IsConsole (c : Console) : Type 0 where
  pub column : c.cursor_x < c.line_length
  pub row : c.cursor_y < c.line_count
  pub fits : c.line_length * c.line_count ≤ buffer_size

-- From `c` to `c'` only bytes of the buffer have changed.
pub record Keeps (c c' : Console) : Type 0 where
  pub same_buffer : c'.buffer ≡ c.buffer
  pub same_length : c'.line_length ≡ c.line_length
  pub same_count : c'.line_count ≡ c.line_count
  pub same_complete : c'.init_complete ≡ c.init_complete
  pub outside : (x : ℕ) → (x < c.buffer) ⊎ (c.buffer + buffer_size ≤ x) → c'.memory x ≡ c.memory x

Keeps-trans : (a b c : Console) → Keeps a b → Keeps b c → Keeps a c
Keeps-trans a b c h k = record {
  same_buffer = k.same_buffer ∙ h.same_buffer;
  same_length = k.same_length ∙ h.same_length;
  same_count = k.same_count ∙ h.same_count;
  same_complete = k.same_complete ∙ h.same_complete;
  outside = λ x out. k.outside x (moved x out) ∙ h.outside x out;
}
  where
    moved :
        (x : ℕ)
        → (x < a.buffer) ⊎ (a.buffer + buffer_size ≤ x)
        → (x < b.buffer) ⊎ (b.buffer + buffer_size ≤ x)
    moved x (inl below) = inl (omega (arith, h.same_buffer))
    moved x (inr above) = inr (omega (arith, h.same_buffer))

pub cell : (x y l n : ℕ) → x < l → y < n → y * l + x < l * n
cell x y l n h w = let rows : suc y * l ≤ n * l = mul-le-mul_right l w in grind (arith, rows)

-- A character is stored in a cell of the screen.
write-Keeps :
    (c : Console) (ch x : ℕ)
    → IsConsole c
    → Keeps c (record c {
      memory = write c.memory (c.buffer + c.cursor_y * c.line_length + c.cursor_x) ch;
      cursor_x = x;
    })
write-Keeps c ch x h =
    let inside = cell c.cursor_x c.cursor_y c.line_length c.line_count h.column h.row in
    record {
      same_buffer = refl;
      same_length = refl;
      same_count = refl;
      same_complete = refl;
      outside = λ a out. ground (arith, inside, h.fits, out);
    }

-- What a character leaves: the cursor in its line, or right behind it.
record Stored (c c' : Console) : Type 0 where
  keeps : Keeps c c'
  column : c'.cursor_x ≤ c.line_length
  row : c'.cursor_y ≡ c.cursor_y

Keeps-refl : (c : Console) → Keeps c c
Keeps-refl c = record {
  same_buffer = refl;
  same_length = refl;
  same_count = refl;
  same_complete = refl;
  outside = λ x out. refl;
}

blank_line-Stored :
    (k : ℕ) (c : Console)
    → c.cursor_x + k ≤ c.line_length
    → c.cursor_y < c.line_count
    → c.line_length * c.line_count ≤ buffer_size
    → Stored c (blank_line k c)
unfolding blank_line
blank_line-Stored zero c h w fits = record {
  keeps = Keeps-refl c;
  column = omega arith;
  row = refl;
}
blank_line-Stored (suc k) c h w fits =
    let here : IsConsole c = record { column = omega arith; row = w; fits = fits } in
    let next = blank_line-Stored k _ (omega arith) w fits in
    record {
      keeps = Keeps-trans c _ _ (write-Keeps c b' ' (c.cursor_x + 1) here) next.keeps;
      column = next.column;
      row = next.row;
    }

put_char-Stored : (c : Console) (ch : ℕ) → IsConsole c → Stored c (put_char c ch)
unfolding put_char
put_char-Stored c ch h = elim (Bool-cases (ch == b'\n')) [
  | inl newline ↦
      rw newline
        (blank_line-Stored (c.line_length - c.cursor_x) c (omega (arith, h.column)) h.row h.fits)
  | inr other ↦ rw other (record {
    keeps = write-Keeps c ch c.cursor_x h;
    column = omega (arith, h.column);
    row = refl;
  })
]

scroll-Keeps :
    (c : Console)
    → 0 < c.line_count
    → c.line_length * c.line_count ≤ buffer_size
    → Keeps c (scroll c)
unfolding scroll
scroll-Keeps c some_line fits =
    let last = c.line_length * (c.line_count - 1) in
    let whole : last + c.line_length ≤ buffer_size =
      lines c.line_length c.line_count some_line fits in
    let moved = memmove c.memory c.buffer (c.buffer + c.line_length) last in
    record {
      same_buffer = refl;
      same_length = refl;
      same_count = refl;
      same_complete = refl;
      outside = λ x out.
          memset_lem moved (c.buffer + last) b' ' c.line_length x
          ∙ ground
              (arith, out, whole, memmove_lem c.memory c.buffer (c.buffer + c.line_length) last x);
    }
  where
    lines : (l n : ℕ) → 0 < n → l * n ≤ buffer_size → l * (n - 1) + l ≤ buffer_size
    lines l zero h w = absurd (omega arith)
    lines l (suc n) h w = let less : suc n - 1 ≡ n = omega arith in rw less (grind (arith, w))

moved : (c : Console) (x y : ℕ) → Keeps c (record c { cursor_x = x; cursor_y = y })
moved c x y = record {
  same_buffer = refl;
  same_length = refl;
  same_count = refl;
  same_complete = refl;
  outside = λ a out. refl;
}

advance-IsConsole :
    (c : Console)
    → c.cursor_x ≤ c.line_length
    → c.cursor_y < c.line_count
    → 0 < c.line_length
    → c.line_length * c.line_count ≤ buffer_size
    → IsConsole (advance c) × Keeps c (advance c)
unfolding advance scroll
advance-IsConsole c column row some_column fits =
    elim (Bool-cases (leb c.line_length (c.cursor_x + 1))) [
      | inl full ↦ elim (Bool-cases (leb c.line_count (c.cursor_y + 1))) [
        | inl bottom ↦
            rw (full, bottom)
              (
                record { column = some_column; row = omega arith; fits = fits },
                Keeps-trans c (record c { cursor_x = 0; cursor_y = c.cursor_y + 1 }) _
                    (moved c 0 (c.cursor_y + 1)) (scroll-Keeps _ (omega arith) fits),
              )
        | inr inside_screen ↦
            rw (full, inside_screen)
              (
                record { column = some_column; row = ground arith; fits = fits },
                moved c 0 (c.cursor_y + 1),
              )
      ]
      | inr inside_line ↦ rw inside_line (
        record { column = ground arith; row = row; fits = fits },
        moved c (c.cursor_x + 1) c.cursor_y,
      )
    ]

-- A character leaves the console in order.
pub typed-IsConsole :
    (c : Console) (ch : ℕ)
    → IsConsole c
    → IsConsole (advance (put_char c ch)) × Keeps c (advance (put_char c ch))
typed-IsConsole c ch h =
    let p = put_char-Stored c ch h in
    let (next, kept) =
      advance-IsConsole (put_char c ch) (omega (arith, p.column, p.keeps.same_length))
        (omega (arith, p.row, p.keeps.same_count, h.row))
        (omega (arith, p.keeps.same_length, h.column))
        (rw (p.keeps.same_length, p.keeps.same_count) h.fits) in
    (next, Keeps-trans c _ _ p.keeps kept)

-- appendText of any text leaves the cursor on the screen, keeps the sizes, and stores nothing outside
-- the buffer, for a console whose lines fit in the buffer and whose cursor is on the screen.
pub append_text-IsConsole :
    (c : Console) (cs : List ℕ)
    → IsConsole c
    → IsConsole (append_text c cs) × Keeps c (append_text c cs)
unfolding append_text
append_text-IsConsole c [] h = (h, Keeps-refl c)
append_text-IsConsole c (ch ∷ cs) h =
    let (next, kept) = typed-IsConsole c ch h in
    let (last, kept') = append_text-IsConsole (advance (put_char c ch)) cs next in
    (last, Keeps-trans c _ _ kept kept')

-- The lines fit in the buffer.
pub init-IsConsole :
    (c : Console) (fw fh w h : ℕ)
    → 8 ≤ fw
    → 16 ≤ fh
    → fw ≤ at_most max_res_width w
    → fh ≤ at_most max_res_height h
    → c.cursor_x ≡ 0
    → c.cursor_y ≡ 0
    → IsConsole (init c fw fh w h)
unfolding init
init-IsConsole c fw fh w h wide high some_width some_height x0 y0 = record {
  column = omega (arith, x0, one-div fw _ (omega arith) some_width);
  row = omega (arith, y0, one-div fh _ (omega arith) some_height);
  fits =
      mul-le-mul {n₂ = 160} {m₂ = 64}
        (div-le_of_le-mul fw (bounded 1280 w (fw * 160) (omega arith)))
        (div-le_of_le-mul fh (bounded 1024 h (fh * 64) (omega arith)));
}
  where
    one-div : (k v : ℕ) → 0 < k → k ≤ v → 0 < v / k
    one-div k v h w = (le-div_iff_mul-le h).1 (omega arith)

    bounded : (limit v n : ℕ) → limit ≤ n → at_most limit v ≤ n
    bounded limit v n h = ground arith
