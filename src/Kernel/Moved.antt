-- ===== src/Kernel/Moved.antt =====
-- What a change of the memory elsewhere leaves alone.

use dvnetos.Base.{
  ℕ, ◌+◌, ◌*◌, ◌≤◌, ◌<◌, ◌≡◌, ◌⊎◌, refl, ◌∙◌, sym, inl, inr, arith, List, [], ◌∷◌, ◌++◌,
}
use dvnetos.CString.{Mem}
use dvnetos.CString.Text.{IsString, Apart}
use dvnetos.Console.{Console, buffer_size}
use dvnetos.Console.Cursor.{IsConsole, cell}
use dvnetos.Console.Sheet.{Sheet, type_char, type_text, Shows}
use dvnetos.Serial.{Serial}
use dvnetos.Serial.Bytes.{bytes-same}
use dvnetos.Kernel.Record.{Recorded, Takes}

pub point : (a k b n x : ℕ) → Apart a k b n → a ≤ x → x < a + k → Apart x 1 b n
point a k b n x (inl below) lo hi = inl (omega arith)
point a k b n x (inr above) lo hi = inr (omega arith)

-- The same, as the lemmas on a buffer at `b'` say it.
pub outside :
    (a k b b' n n' x : ℕ)
    → b' ≡ b
    → n' ≡ n
    → Apart a k b n
    → a ≤ x
    → x < a + k
    → (x < b') ⊎ (b' + n' ≤ x)
outside a k b b' n n' x at size (inl below) lo hi = inl (omega arith)
outside a k b b' n n' x at size (inr above) lo hi = inr (omega arith)

pub shorter : (a k b b' n n' : ℕ) → b' ≡ b → n' ≡ n → Apart a (k + 1) b n → Apart a k b' n'
shorter a k b b' n n' at size (inl below) = inl (omega arith)
shorter a k b b' n n' at size (inr above) = inr (omega arith)

pub Apart-sym : (a k b n : ℕ) → Apart a k b n → Apart b n a k
Apart-sym a k b n (inl below) = inr below
Apart-sym a k b n (inr above) = inl above

-- A change of the memory outside the buffer of the screen.
pub Shows-memory :
    (c : Console) (s : Sheet) (m : Mem)
    → IsConsole c
    → ((x : ℕ) → c.buffer ≤ x → x < c.buffer + buffer_size → m x ≡ c.memory x)
    → Shows c s
    → Shows (record c { memory = m }) s
Shows-memory c s m h same shows = record {
  pictures = record {
    row = shows.pictures.row;
    cells = λ r col h' h''.
        let place = cell col r c.line_length c.line_count h'' h' in
        same (c.buffer + (r * c.line_length + col)) (omega arith) (omega (arith, place, h.fits))
        ∙ shows.pictures.cells r col h' h'';
    below = shows.pictures.below;
  };
  column = shows.column;
  rest = shows.rest;
}

pub type_text-append :
    (l : ℕ) (s : Sheet) (cs ds : List ℕ)
    → type_text l s (cs ++ ds) ≡ type_text l (type_text l s cs) ds
unfolding type_text
type_text-append l s [] ds = refl
type_text-append l s (c ∷ cs) ds = type_text-append l (type_char l s c) cs ds

pub IsString-same :
    (m m' : Mem) (a n : ℕ)
    → ((x : ℕ) → a ≤ x → x < a + (n + 1) → m' x ≡ m x)
    → IsString m a n
    → IsString m' a n
IsString-same m m' a n same str = record {
  ends = same (a + n) (omega arith) (omega arith) ∙ str.ends;
  no_zero =
      λ i less there. str.no_zero i less (sym (same (a + i) (omega arith) (omega arith)) ∙ there);
}

-- The bytes held for the port stand in its buffer.
pub Recorded-memory :
    (m m' : Mem) (s : Serial) (cs : List ℕ)
    → Takes s 0
    → ((x : ℕ) → s.buffer ≤ x → x < s.buffer + s.buffer_size → m' x ≡ m x)
    → Recorded m s cs
    → Recorded m' s cs
Recorded-memory m m' s cs takes same (inl sent) = inl sent
Recorded-memory m m' s cs (inl on) same (inr (off, unsent, held)) = absurd (cc (on, off))
Recorded-memory m m' s cs (inr room) same (inr (off, unsent, held)) = inr (
  off,
  unsent,
  bytes-same m' m s.buffer s.buffer s.buffer_used
        (λ i less. same (s.buffer + i) (omega arith) (omega arith))
      ∙ held,
)
