-- ===== src/Smbios/Tests.antt =====
-- The theorems on SMBIOS structures at concrete structures.
use dvnetos.Base.{
  ℕ, ◌-◌, ◌*◌, ◌%◌, ◌^◌, ◌≤◌, ◌<◌, ◌≡◌, refl, arith, some, [], ◌∷◌, ◌++◌, codes, ◌==◌, inr,
  if◌then◌else◌,
}
use dvnetos.CString.{Mem}
use dvnetos.Stdio.{ok, int, digits_loop}
use dvnetos.Stdio.Print.{read_spec, take_signed}
use dvnetos.Stdio.Render.{render, directive_text}
use dvnetos.Smbios.Names.{to_string}
use dvnetos.Smbios.Enums.{memory_error_correction_names}
use dvnetos.Smbios.Strings.{get_string, system, end_of_table, action, dump_table}
use dvnetos.Smbios.Getters.{get_size}
use dvnetos.Smbios.Lookup.{IsText, IsTable, get_string-lookup}
use dvnetos.Smbios.Layout.{read_memory_device}
use dvnetos.Smbios.Sizes.{get_size-read_memory_device}
use dvnetos.Smbios.Scan.{IsStringSet, IsArea}
use dvnetos.Smbios.Walk.{IsStructure, IsSequence, dump_table-actions}
use dvnetos.Smbios.Print.{append}
use dvnetos.Smbios.Pieces.{held, append-text}

known_name : to_string memory_error_correction_names 5 ≡ ok (codes "Single-bit error correction")
unfolding to_string
known_name = refl

unknown_name : to_string memory_error_correction_names 9 ≡ ok (codes "Unknown(9)")
unfolding to_string render digits_loop directive_text read_spec take_signed
unknown_name = refl

-- A structure of two bytes at 100, with the strings "ab" and "c".
abbrev strings : Mem
strings x =
    if x == 101
    then 2
    else if x == 102
    then 97
    else if x == 103
    then 98
    else if x == 105
    then 99
    else 0

get_string-lookup_example :
    (get_string 8 strings 100 0 ≡ some 0)
    × ((p : ℕ) × (get_string 8 strings 100 2 ≡ some p) × IsText strings p (codes "c"))
unfolding IsTable IsText
get_string-lookup_example =
    get_string-lookup 8 strings 100 1 (codes "ab" ∷ codes "c" ∷ []) (codes "c")
      ((refl, omega arith, (refl, omega arith, refl)), ((refl, omega arith, refl), tt))
      (omega arith, (omega arith, tt)) refl

-- A structure of type 1 and four bytes at 100, with the string "ab", and the end of the table.
abbrev table : Mem
table x =
    if x == 100
    then 1
    else if x == 101
    then 4
    else if x == 104
    then 97
    else if x == 105
    then 98
    else if x == 108
    then 127
    else 0

dump_table-actions_example : dump_table 2 table 100 12 ≡ some (system 100 ∷ end_of_table ∷ [])
unfolding IsSequence IsStructure IsArea IsStringSet IsText action
dump_table-actions_example =
    dump_table-actions 2 table 100 12
      (record { type = 1; length = 4; strings = codes "ab" ∷ [] } ∷ []) (end_of_table ∷ [])
      (
        (
          refl,
          omega arith,
          refl,
          ((refl, omega arith, (refl, omega arith, refl)), refl),
          omega arith,
        ),
        tt,
      )
      (inr (omega arith, refl, refl)) (omega arith)

append-text_example :
    (14 < 64
      → append 1000 64 " devices: %d" (int 12 ∷ []) (held strings 1000 (codes "ab"))
        ≡ ok (held strings 1000 (codes "ab" ++ codes " devices: 12")))
    × (64 ≤ 14
        → (m' : Mem) × (append 1000 64 " devices: %d" (int 12 ∷ []) (held strings 1000 (codes "ab"))
            ≡ ok (m', 63)))
unfolding render digits_loop directive_text read_spec take_signed
append-text_example =
    append-text strings 1000 64 (codes "ab") " devices: %d" (int 12 ∷ []) (codes " devices: 12")
      refl (omega arith) (omega arith) (omega arith) (omega arith) (omega arith)

-- A memory device at 100 with the escape value and an extended size of 65536 megabytes.
abbrev device : Mem
device x =
    if x == 101
    then 98
    else if x == 112
    then 255
    else if x == 113
    then 127
    else if x == 130
    then 1
    else 0

get_size-read_memory_device_example :
    (let d = read_memory_device device 100 in
      (0x7fff < 0x7fff → get_size d ≡ 0x7fff * 2 ^ 20)
      × (0x8000 ≤ 0x7fff → get_size d ≡ (0x7fff - 0x8000) * 2 ^ 10)
      × (◌≡◌ {A = ℕ} 0x7fff 0x7fff → 32 ≤ 98 → get_size d ≡ 65536 % 2 ^ 31 * 2 ^ 20)
      × (◌≡◌ {A = ℕ} 0x7fff 0x7fff → 98 < 32 → get_size d ≡ 0))
get_size-read_memory_device_example = get_size-read_memory_device device 100 (λ x. ground arith)
