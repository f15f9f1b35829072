-- ===== src/Smbios/Strings.antt =====
-- The strings behind a structure: `smbiosStructLen` and `getString`, and the walk over the table.
use dvnetos.Base.{
  ℕ, zero, suc, ◌+◌, ◌-◌, ◌^◌, not, ◌&&◌, Option, none, some, ◌>>=◌, List, [], ◌∷◌, ltb, ◌==◌,
  if◌then◌else◌,
}
use dvnetos.CString.{Mem}

-- The scan for a double zero, on fuel.
unfoldable pub struct_end : ℕ → Mem → (strtab i : ℕ) → Option ℕ
struct_end zero m strtab i = none
struct_end (suc fuel) m strtab i =
    let more = struct_end fuel m strtab (i + 1) in
    if not (m (strtab + (i - 1)) == 0 && m (strtab + i) == 0) then more else some i

-- `hd` is the address of the structure, whose second byte is its length.
unfoldable pub smbios_struct_len : ℕ → Mem → (hd : ℕ) → Option ℕ
unfolding struct_end
smbios_struct_len fuel m hd = do
  let len = m (hd + 1)
  i ← struct_end fuel m (hd + len) 1
  some (len + i + 1)

-- `while (*strtab != '\0') strtab++;`
unfoldable pub string_end : ℕ → Mem → (strtab : ℕ) → Option ℕ
string_end zero m strtab = none
string_end (suc fuel) m strtab =
    let more = string_end fuel m (strtab + 1) in if m strtab == 0 then some strtab else more

-- The outer loop with the rounds left.
unfoldable pub skip_strings : (rounds fuel : ℕ) → Mem → (strtab : ℕ) → Option ℕ
unfolding string_end
skip_strings zero fuel m strtab = some strtab
skip_strings (suc rounds) fuel m strtab = do
  e ← string_end fuel m strtab
  skip_strings rounds fuel m (e + 1)

-- The null pointer is 0.
unfoldable pub get_string : (fuel : ℕ) → Mem → (entry index : ℕ) → Option ℕ
unfolding skip_strings
get_string fuel m entry index =
    if index == 0 then some 0 else skip_strings (index - 1) fuel m (entry + m (entry + 1))

-- What `dumpTable` does with a structure.
pub data Action : Type 0 where
  firmware system chassis processor memory_array memory_device : ℕ → Action
  unhandled : (type length : ℕ) → Action
  end_of_table : Action

unfoldable pub action : Mem → ℕ → Action
action m ptr =
    let type = m ptr in
    if type == 0
    then firmware ptr
    else if type == 1
    then system ptr
    else if type == 3
    then chassis ptr
    else if type == 4
    then processor ptr
    else if type == 16
    then memory_array ptr
    else if type == 17
    then memory_device ptr
    else if type == 127
    then end_of_table
    else unhandled type (m (ptr + 1))

-- The loop from `ptr` on, up to `limit`, and the actions in their order.
unfoldable pub dump_loop : ℕ → Mem → (ptr limit : ℕ) → Option (List Action)
unfolding action smbios_struct_len
dump_loop zero m ptr limit = none
dump_loop (suc fuel) m ptr limit =
    let more : Option (List Action) = (do
      len ← smbios_struct_len (2 ^ 16) m ptr
      as' ← dump_loop fuel m (ptr + len) limit
      some (action m ptr ∷ as')) in
    if ltb ptr limit then if m ptr == 127 then some (end_of_table ∷ []) else more else some []

unfoldable pub dump_table : (fuel : ℕ) → Mem → (table length : ℕ) → Option (List Action)
unfolding dump_loop
dump_table fuel m table length = dump_loop fuel m table (table + length)
