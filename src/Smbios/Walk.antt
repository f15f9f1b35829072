-- ===== src/Smbios/Walk.antt =====
-- The walk of dumpTable over a table of well-formed structures.
use dvnetos.Base.{
  ℕ, zero, suc, ◌+◌, ◌<◌, ◌^◌, ◌≡◌, ◌≢◌, refl, ◌∙◌, sym, ap, true, false, Option, some, List, [],
  ◌∷◌, ◌++◌, arith, ltb, ◌==◌, length, ◌⊎◌, inl, inr, ◌≤◌, Bool, if◌then◌else◌, ◌>>=◌,
}
use dvnetos.CString.{Mem}
use dvnetos.Smbios.Strings.{smbios_struct_len, Action, end_of_table, action, dump_loop, dump_table}
use dvnetos.Smbios.Scan.{set_size, area_size, IsArea, smbios_struct_len-IsArea}

pub record Structure : Type 0 where
  pub type : ℕ
  pub length : ℕ
  pub strings : List (List ℕ)

abbrev pub stride : Structure → ℕ
stride s = s.length + area_size s.strings

-- The structure stands at `a`, and is not the end of the table.
unfoldable pub IsStructure : Mem → ℕ → Structure → Type 0
unfolding IsArea
IsStructure m a s =
    (m a ≡ s.type)
    × (s.type ≢ 127)
    × (m (a + 1) ≡ s.length)
    × IsArea m (a + s.length) s.strings
    × (set_size s.strings + 1 < 2 ^ 16)

-- Structures one behind the other.
unfoldable pub IsSequence : Mem → ℕ → List Structure → Type 0
unfolding IsStructure
IsSequence m a [] = Unit
IsSequence m a (s ∷ ss) = IsStructure m a s × IsSequence m (a + stride s) ss

-- The place behind the last structure.
abbrev pub behind : ℕ → List Structure → ℕ
behind a [] = a
behind a (s ∷ ss) = behind (a + stride s) ss

-- The actions of the structures, in their order.
abbrev pub actions : Mem → ℕ → List Structure → List Action
actions m a [] = []
actions m a (s ∷ ss) = action m a ∷ actions m (a + stride s) ss

behind-le : (a : ℕ) (ss : List Structure) → a ≤ behind a ss
behind-le a [] = omega arith
behind-le a (s ∷ ss) = omega (arith, behind-le (a + stride s) ss)

area_size-pos : (ss : List (List ℕ)) → 1 ≤ area_size ss
area_size-pos [] = omega arith
area_size-pos (s ∷ ss) = omega arith

below_limit : {a limit : ℕ} → a < limit → ltb a limit ≡ true
below_limit h = ground arith

at_limit : {a limit : ℕ} → a ≡ limit → ltb a limit ≡ false
at_limit h = ground arith

is_end : {a : ℕ} → a ≡ 127 → (a == 127) ≡ true
is_end h = ground arith

no_end : {a t : ℕ} → a ≡ t → t ≢ 127 → (a == 127) ≡ false
no_end h other = ground arith

module _ {A : Type 0} {b : Bool} (x y : A) where
  if-true : b ≡ true → (if b then x else y) ≡ x
  if-true h = rw h refl

  if-false : b ≡ false → (if b then x else y) ≡ y
  if-false h = rw h refl

-- A round of the loop, over its tests and its scan.
round :
    {room last : Bool} {scan : Option ℕ} {len : ℕ} {as' : List Action} {a : Action}
    (walk : ℕ → Option (List Action)) (stop nothing : Option (List Action))
    → room ≡ true
    → last ≡ false
    → scan ≡ some len
    → walk len ≡ some as'
    → (if room then (if last then stop else (do l ← scan; bs ← walk l; some (a ∷ bs))) else nothing)
      ≡ some (a ∷ as')
round walk stop nothing room last scan rest = rw (room, last, scan, rest) refl

dump_loop-next :
    (fuel : ℕ) (m : Mem) (a limit : ℕ) (s : Structure) (as' : List Action)
    → IsStructure m a s
    → a < limit
    → dump_loop fuel m (a + stride s) limit ≡ some as'
    → dump_loop (suc fuel) m a limit ≡ some (action m a ∷ as')
unfolding dump_loop IsStructure
dump_loop-next fuel m a limit s as' (type, other, len, area, narrow) below rest =
    let scan : smbios_struct_len (2 ^ 16) m a ≡ some (stride s) =
      smbios_struct_len-IsArea (2 ^ 16) m a s.strings (rw len area) narrow
      ∙ ap (λ l. some (l + area_size s.strings)) len in
    round (λ l. dump_loop fuel m (a + l) limit) _ _ (below_limit below) (no_end type other) scan
      rest

-- What stands at `a` ends the walk: the limit, or the end of the table, with what that prints.
abbrev pub Ends : Mem → (a limit : ℕ) → List Action → Type 0
Ends m a limit last =
    (a ≡ limit) × (last ≡ []) ⊎ (a < limit) × (m a ≡ 127) × (last ≡ end_of_table ∷ [])

Ends-le : (m : Mem) {a limit : ℕ} {last : List Action} → Ends m a limit last → a ≤ limit
Ends-le m (inl (end, _)) = omega arith
Ends-le m (inr (below, _, _)) = omega arith

dump_loop-Ends :
    (fuel : ℕ) (m : Mem) (a limit : ℕ) (last : List Action)
    → Ends m a limit last
    → dump_loop (suc fuel) m a limit ≡ some last
unfolding dump_loop
dump_loop-Ends fuel m a limit last (inl (end, nothing)) =
    if-false _ _ (at_limit end) ∙ ap some (sym nothing)
dump_loop-Ends fuel m a limit last (inr (below, type, one)) =
    if-true _ _ (below_limit below) ∙ if-true _ _ (is_end type) ∙ ap some (sym one)

dump_loop-actions :
    (fuel : ℕ) (m : Mem) (a limit : ℕ) (ss : List Structure) (last : List Action)
    → IsSequence m a ss
    → Ends m (behind a ss) limit last
    → length ss < fuel
    → dump_loop fuel m a limit ≡ some (actions m a ss ++ last)
unfolding IsSequence
dump_loop-actions zero m a limit ss last h ends w = absurd (omega arith)
dump_loop-actions (suc fuel) m a limit [] last h ends w = dump_loop-Ends fuel m a limit last ends
dump_loop-actions (suc fuel) m a limit (s ∷ ss) last (here, rest) ends w =
    let room : a < limit =
      omega (arith, behind-le (a + stride s) ss, area_size-pos s.strings, Ends-le m ends) in
    dump_loop-next fuel m a limit s (actions m (a + stride s) ss ++ last) here room
      (dump_loop-actions fuel m (a + stride s) limit ss last rest ends (omega arith))

-- dumpTable ends on a table of well-formed structures, on fuel above their number: it handles every
-- structure once and in order, whatever the strings behind it, and stops where the structures reach
-- the length of the table, or at the end-of-table structure that stands below it.
pub dump_table-actions :
    (fuel : ℕ) (m : Mem) (table size : ℕ) (ss : List Structure) (last : List Action)
    → IsSequence m table ss
    → Ends m (behind table ss) (table + size) last
    → length ss < fuel
    → dump_table fuel m table size ≡ some (actions m table ss ++ last)
unfolding dump_table
dump_table-actions fuel m table size ss last h ends w =
    dump_loop-actions fuel m table (table + size) ss last h ends w
