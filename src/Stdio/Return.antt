-- ===== src/Stdio/Return.antt =====
-- kvsnprintf prints the text of its format, and returns its length.
use dvnetos.Base.{
  ℕ, ◌+◌, ◌-◌, ◌≤◌, ◌<◌, ◌^◌, ◌≡◌, refl, ◌∙◌, ap, true, List, [], ◌∷◌, ◌++◌, arith, ltb, length, ℤ,
  pos, negsuc,
}
use dvnetos.CString.{Mem}
use dvnetos.Stdio.{ok, Arg}
use dvnetos.Stdio.Print.{terminate, kvsnprintf, capped, ksnprintf}
use dvnetos.Stdio.Render.{render}
use dvnetos.Stdio.Emit.{store, store-append}
use dvnetos.Stdio.Loop.{print_loop-Prints}

terminate-store :
    (m : Mem) (buf n : ℕ) (cs : List ℕ)
    → length cs < n
    → terminate (store m buf cs) buf n (length cs) ≡ store m buf (cs ++ 0 ∷ [])
unfolding terminate store
terminate-store m buf n cs h = rw store-append (ground arith)

-- Where the format and its text, which is defined, are shorter than 2^31, kvsnprintf returns the length
-- of the text, whatever the size of the buffer, a store behind the end of which counts as one to the
-- memory there; where the text and its terminator fit in the buffer, of a size below 2^64, it stores
-- exactly these.
pub kvsnprintf-text :
    (m : Mem) (buf n : ℕ) (format : List ℕ) (args : List Arg) (cs : List ℕ)
    → render (length format + 1) format args ≡ ok cs
    → length format < 2 ^ 31
    → length cs < 2 ^ 31
    → (m' : Mem) × (kvsnprintf m buf n format args ≡ ok (m', length cs))
      × (length cs < n → n < 2 ^ 64 → m' ≡ store m buf (cs ++ 0 ∷ []))
unfolding kvsnprintf
kvsnprintf-text m buf n format args cs h f b =
    let counts : ltb (length format) (2 ^ 31) ≡ true = ground (arith, f) in
    let (r, returns, p) =
      print_loop-Prints buf n (length format + 1) m format args 0 0 cs h (omega arith) in
    (
      terminate r.0 buf n r.1,
      rw (counts, returns) (ap (λ k. ok (terminate r.0 buf n r.1, k)) (omega (arith, p.count))),
      λ fits w.
          ap (terminate r.0 buf n) (omega (arith, p.index))
          ∙ ap (λ m'. terminate m' buf n (length cs))
              (p.stored (omega (arith, fits)) w ∙ ap (λ a. store m a cs) (omega arith))
          ∙ terminate-store m buf n cs fits,
    )

-- Where the format and its text, which is defined, are shorter than 2^31, ksnprintf returns the length of
-- the text if it fits in the buffer, of a size below 2^64, with its terminator, and has stored exactly
-- these; where it does not fit, it returns one less than the size of the buffer, and -1 for an empty
-- buffer, a store behind the end of which counts as one to the memory there.
pub ksnprintf-text :
    (m : Mem) (buf n : ℕ) (format : List ℕ) (args : List Arg) (cs : List ℕ)
    → render (length format + 1) format args ≡ ok cs
    → length format < 2 ^ 31
    → length cs < 2 ^ 31
    → (m' : Mem) × (r : ℤ) × (ksnprintf m buf n format args ≡ ok (m', r))
      × (length cs < n → n < 2 ^ 64 → (r ≡ pos (length cs)) × (m' ≡ store m buf (cs ++ 0 ∷ [])))
      × (0 < n → n ≤ length cs → r ≡ pos (n - 1))
      × (n ≡ 0 → r ≡ negsuc 0)
unfolding ksnprintf capped
ksnprintf-text m buf n format args cs h f b =
    let (m', returns, stored) = kvsnprintf-text m buf n format args cs h f b in
    (
      m',
      capped n (length cs),
      rw returns refl,
      λ fits w. (ground arith, stored fits w),
      λ some_room full. ground arith,
      λ empty. ground arith,
    )
