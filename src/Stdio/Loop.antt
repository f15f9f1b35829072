-- ===== src/Stdio/Loop.antt =====
-- What the loop of kvsnprintf prints.
use dvnetos.Base.{
  ℕ, zero, suc, ◌+◌, ◌<◌, ◌^◌, ◌≡◌, refl, ◌∙◌, sym, ap, Bool, true, false, List, [], ◌∷◌, ◌++◌,
  arith, ltb, ◌==◌, if◌then◌else◌, length, length-append,
}
use dvnetos.CString.{Mem, write}
use dvnetos.Stdio.{Run, ok, panic, undefined, ◌>>=◌, Spec, Arg}
use dvnetos.Stdio.Print.{read_spec, directive, rem, checked, print_loop}
use dvnetos.Stdio.Render.{directive_text, render}
use dvnetos.Stdio.Emit.{store, store-append, put-store}
use dvnetos.Stdio.Output.{Placed, directive-Agrees}

-- The loop has printed `cs` from `j` on.
pub record Printed (m : Mem) (buf n j total : ℕ) (cs : List ℕ) (r : Mem × ℕ × ℕ) : Type 0 where
  pub index : r.1 ≡ j + length cs
  pub count : r.2 ≡ total + length cs
  pub stored : j + length cs < n → n < 2 ^ 64 → r.0 ≡ store m (buf + j) cs

pub bind-ok :
    {A B : Type 0} (o : Run A) (f : A → Run B) (b : B)
    → (o >>= f) ≡ ok b
    → (a : A) × (o ≡ ok a) × (f a ≡ ok b)
bind-ok (ok a) f b h = (a, refl, h)
bind-ok (panic c) f b h = cc
bind-ok undefined f b h = cc

module _ (buf n : ℕ) where
  none-Printed : (m : Mem) (j total : ℕ) → Printed m buf n j total [] (m, j, total)
  unfolding store
  none-Printed m j total = record { index = omega arith; count = omega arith; stored = λ h w. refl }

  -- One character, and then the text `cs`.
  step-Printed :
      (m m' : Mem) (j total c : ℕ) (cs : List ℕ) (r : Mem × ℕ × ℕ)
      → (j + 1 < n → n < 2 ^ 64 → m' ≡ write m (buf + j) c)
      → Printed m' buf n (j + 1) (total + 1) cs r
      → Printed m buf n j total (c ∷ cs) r
  unfolding store
  step-Printed m m' j total c cs r h p = record {
    index = omega (arith, p.index);
    count = omega (arith, p.count);
    stored = λ fits w.
        p.stored (omega arith) w
        ∙ ap (λ a. store m' a cs) (omega arith)
        ∙ ap (λ m'. store m' (buf + j + 1) cs) (h (omega arith) w);
  }

  -- A text `cs` at the place that is left, and then the text `ds`.
  append-Printed :
      (m m' : Mem) (j k total : ℕ) (cs ds : List ℕ) (r : Mem × ℕ × ℕ)
      → Placed m (buf + j) (rem n j) cs (m', k)
      → Printed m' buf n (j + k) (total + k) ds r
      → Printed m buf n j total (cs ++ ds) r
  append-Printed m m' j k total cs ds r q p = record {
    index = p.index ∙ sum j;
    count = p.count ∙ sum total;
    stored = λ fits w.
        let bound : j + (length cs + length ds) < n = rw (sym (length-append cs ds)) fits in
        let first = q.stored (room bound) (least bound w) in
        p.stored (omega (arith, bound, q.count)) w
        ∙ ap (λ a. store m' a ds) (omega (arith, q.count))
        ∙ ap (λ m'. store m' (buf + j + length cs) ds) first
        ∙ sym (store-append m (buf + j) cs ds);
  }
    where
      sum : (a : ℕ) → a + k + length ds ≡ a + length (cs ++ ds)
      sum a = rw length-append (omega (arith, q.count))

      room : j + (length cs + length ds) < n → length cs < rem n j
      room bound = ground arith

      least : j + (length cs + length ds) < n → n < 2 ^ 64 → rem n j < 2 ^ 64
      least bound w = ground arith

  -- Where the text is defined and its end counts as an int, the loop returns, and has printed it.
  abbrev pub Prints : Mem → (j total : ℕ) → Run (List ℕ) → Run (Mem × ℕ × ℕ) → Type 0
  Prints m j total text run =
      (cs : List ℕ)
      → text ≡ ok cs
      → total + length cs < 2 ^ 31
      → (r : Mem × ℕ × ℕ) × (run ≡ ok r) × Printed m buf n j total cs r

  checked-Prints :
      (m : Mem) (j total : ℕ) (text : Run (List ℕ)) (run : Run (Mem × ℕ × ℕ))
      → Prints m j total text run
      → Prints m j total text (checked total run)
  checked-Prints m j total text run p cs e b =
      let small : ltb total (2 ^ 31) ≡ true = ground (arith, b) in rw small (p cs e b)

  step-Prints :
      (m m' : Mem) (j total c : ℕ) (text : Run (List ℕ)) (run : Run (Mem × ℕ × ℕ))
      → (j + 1 < n → n < 2 ^ 64 → m' ≡ write m (buf + j) c)
      → Prints m' (j + 1) (total + 1) text run
      → Prints m j total (do cs ← text; ok (c ∷ cs)) run
  step-Prints m m' j total c (ok ds) run h p cs e b =
      let same : cs ≡ c ∷ ds = ground arith in
      let (r, returns, printed) = p ds refl (omega (arith, b, ap length same)) in
      (r, returns, rw same (step-Printed m m' j total c ds r h printed))
  step-Prints m m' j total c (panic k) run h p cs e b = cc
  step-Prints m m' j total c undefined run h p cs e b = cc

  abbrev Rest : Type 0
  Rest = Mem → (j total : ℕ) → List Arg → Run (Mem × ℕ × ℕ)

  append-Prints :
      (m : Mem) (j total : ℕ) (text : Run (List ℕ × List Arg)) (spec : Spec) (args : List Arg)
      → (more : List Arg → Run (List ℕ)) (go : Rest) → directive_text spec args ≡ text
      → ((m' : Mem) (j' total' : ℕ) (rest : List Arg)
          → Prints m' j' total' (more rest) (go m' j' total' rest))
      → Prints m j total
          (do (cs, rest) ← text; ds ← more rest; ok (cs ++ ds))
          (do
            ((m', k), rest) ← directive m (buf + j) (rem n j) spec args
            go m' (j + k) (total + k) rest)
  append-Prints m j total (ok (front, rest)) spec args more go same p cs e b =
      let (r, runs, placed) = directive-Agrees m (buf + j) (rem n j) spec args front rest same in
      let (back, prints, joined) = bind-ok (more rest) (λ ds. ok (front ++ ds)) cs e in
      let split : cs ≡ front ++ back = ground arith in
      let sum : length cs ≡ length front + length back =
        ap length split ∙ length-append front back in
      let (r', returns, printed) =
        p r.0 (j + r.1) (total + r.1) rest back prints (omega (arith, b, sum, placed.count)) in
      (
        r',
        rw runs returns,
        rw split (append-Printed m r.0 j r.1 total front back r' placed printed),
      )
  append-Prints m j total (panic k) spec args more go same p cs e b = cc
  append-Prints m j total undefined spec args more go same p cs e b = cc

  plain-write :
      (m : Mem) (j c : ℕ)
      → j + 1 < n
      → n < 2 ^ 64
      → (if ltb 1 (rem n j) then write m (buf + j) c else m) ≡ write m (buf + j) c
  plain-write m j c h w = ground arith

  if-Prints :
      (b : Bool) (m : Mem) (j total : ℕ) (t t' : Run (List ℕ)) (p p' : Run (Mem × ℕ × ℕ))
      → Prints m j total t p
      → Prints m j total t' p'
      → Prints m j total (if b then t else t') (if b then p else p')
  if-Prints true m j total t t' p p' h h' = h
  if-Prints false m j total t t' p p' h h' = h'

  pub print_loop-Prints :
      (fuel : ℕ) (m : Mem) (format : List ℕ) (args : List Arg) (j total : ℕ)
      → Prints m j total (render fuel format args) (print_loop fuel m buf n format args j total)
  unfolding render print_loop
  print_loop-Prints zero m format args j total = λ cs h b. cc
  print_loop-Prints (suc fuel) m [] args j total =
      checked-Prints m j total (ok []) (ok (m, j, total)) (λ cs h b.
        let none_left : cs ≡ [] = ground arith in
        ((m, j, total), refl, rw none_left (none-Printed m j total)))
  print_loop-Prints (suc fuel) m (c ∷ []) args j total = checked-Prints m j total _ _ (
      step-Prints m _ j total c (render fuel [] args) _ (plain-write m j c)
        (print_loop-Prints fuel _ [] args (j + 1) (total + 1)))
  print_loop-Prints (suc fuel) m (c ∷ d ∷ format) args j total = checked-Prints m j total _ _ (
      if-Prints (c == b'%') m j total _ _ _ _
        (if-Prints (d == b'%') m j total _ _ _ _
          (step-Prints m _ j total b'%' (render fuel format args) _ (put-store m buf n j b'%')
            (print_loop-Prints fuel _ format args (j + 1) (total + 1)))
          (append-Prints m j total _ (read_spec (d ∷ format)).0 args
            (render fuel (read_spec (d ∷ format)).1)
            (λ m' j' total' rest.
              print_loop fuel m' buf n (read_spec (d ∷ format)).1 rest j' total')
            refl
            (λ m' j' total' rest.
              print_loop-Prints fuel m' (read_spec (d ∷ format)).1 rest j' total')))
        (step-Prints m _ j total c (render fuel (d ∷ format) args) _ (plain-write m j c)
          (print_loop-Prints fuel _ (d ∷ format) args (j + 1) (total + 1))))
