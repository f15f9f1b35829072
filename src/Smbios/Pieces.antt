-- ===== src/Smbios/Pieces.antt =====
-- What the calls of a toString leave in its buffer.
use std.Path.{fun_ext}
use dvnetos.Base.{
  ℕ, ◌+◌, ◌-◌, ◌<◌, ◌≤◌, ltb, true, ◌^◌, ◌≡◌, refl, ◌∙◌, sym, ap, List, [], ◌∷◌, ◌++◌, arith,
  length, length-append, append_assoc, String, codes, add64, sub64,
}
use dvnetos.CString.{Mem, write}
use dvnetos.Stdio.{ok, Arg}
use dvnetos.Stdio.Render.{render}
use dvnetos.Stdio.Emit.{store, store-append}
use dvnetos.Stdio.Return.{ksnprintf-text}
use dvnetos.Bytes.{to_size}
use dvnetos.Smbios.Print.{State, append}

-- The buffer holds the text `cs`, and `n` is its length.
unfoldable pub held : Mem → (buf : ℕ) → List ℕ → State
unfolding store
held m buf cs = (store m buf (cs ++ 0 ∷ []), length cs)

store-over :
    (m : Mem) (a c : ℕ) (ds : List ℕ)
    → store (write m a c) a (ds ++ 0 ∷ []) ≡ store m a (ds ++ 0 ∷ [])
unfolding store
store-over m a c [] = fun_ext (λ x. ground arith)
store-over m a c (d ∷ ds) = ap (λ m'. store m' (a + 1) (ds ++ 0 ∷ [])) (fun_ext (λ x. ground arith))

-- A text stored over the terminator of another one.
store-joined :
    (m : Mem) (a : ℕ) (cs ds : List ℕ)
    → store (store m a (cs ++ 0 ∷ [])) (a + length cs) (ds ++ 0 ∷ [])
      ≡ store m a ((cs ++ ds) ++ 0 ∷ [])
unfolding store
store-joined m a cs ds =
    ap (λ m'. store m' (a + length cs) (ds ++ 0 ∷ [])) (store-append m a cs (0 ∷ []))
    ∙ store-over (store m a cs) (a + length cs) 0 ds
    ∙ sym (store-append m a cs (ds ++ 0 ∷ []))
    ∙ ap (store m a) (sym (append_assoc cs ds (0 ∷ [])))

-- A call of ksnprintf behind a text `cs` that the buffer holds, with the text `ds` of its format
-- defined, the format and `ds` shorter than 2^31, and a buffer of less than 2^31 bytes that ends below 2^64 and holds
-- `cs` with a terminator: where both texts fit with a terminator, it appends `ds`; otherwise `n`
-- becomes the last index of the buffer.
pub append-text :
    (m : Mem) (buf size : ℕ) (cs : List ℕ) (format : String) (args : List Arg) (ds : List ℕ)
    → render (length (codes format) + 1) (codes format) args ≡ ok ds
    → length (codes format) < 2 ^ 31
    → length ds < 2 ^ 31
    → length cs < size
    → size < 2 ^ 31
    → buf + size < 2 ^ 64
    → (length cs + length ds < size
        → append buf size format args (held m buf cs) ≡ ok (held m buf (cs ++ ds)))
      × (size ≤ length cs + length ds
          → (m' : Mem) × (append buf size format args (held m buf cs) ≡ ok (m', size - 1)))
unfolding append held
append-text m buf size cs format args ds text form short room_left int_size small =
    let at : add64 buf (length cs) ≡ buf + length cs = omega arith in
    let room : sub64 size (length cs) ≡ size - length cs = omega arith in
    let before = store m buf (cs ++ 0 ∷ []) in
    let (m', r, returns, stored, full, _) =
      ksnprintf-text before (buf + length cs) (size - length cs) (codes format) args ds text form
        short in
    (
      λ fits.
          let (result, memory) = stored (omega arith) (omega arith) in
          let joined : m' ≡ store m buf ((cs ++ ds) ++ 0 ∷ []) =
            memory ∙ store-joined m buf cs ds in
          let total : add64 (length cs) (to_size r) ≡ length cs + length ds =
            rw result (omega arith) in
          let counted : ltb (length cs + length ds) (2 ^ 31) ≡ true = ground arith in
          rw (at, room, returns, joined, total, counted, length-append cs ds) refl,
      λ long.
          let total : add64 (length cs) (to_size r) ≡ size - 1 =
            rw (full (omega arith) (omega arith)) (omega arith) in
          let counted : ltb (size - 1) (2 ^ 31) ≡ true = ground arith in
          (m', rw (at, room, returns, total, counted) refl),
    )
