-- ===== src/Smbios/Init.antt =====
-- `SMBIOS::init` of smbios.cpp: the entry that the boot loader has found, and its table, are mapped and the
-- table is walked. Paging is a parameter, since the kernel is built with that of its architecture; so is
-- what stands in the memory that is mapped.
use dvnetos.Base.{ℕ, ◌%◌, ◌^◌, Option, none, some, ◌>>=◌, List, [], add64}
use dvnetos.CString.{Mem}
use dvnetos.Smbios.Strings.{Action, dump_table}

pub record Entry32 : Type 0 where
  pub anchor : List ℕ
  pub checksum : ℕ
  pub length : ℕ
  pub major_version : ℕ
  pub minor_version : ℕ
  pub max_structure_size : ℕ
  pub implementation_revision : ℕ
  pub formatted_area : List ℕ
  pub anchor_string : List ℕ
  pub checksum2 : ℕ
  pub table_length : ℕ
  pub table_address : ℕ
  pub number_of_structures : ℕ
  pub bcd_revision : ℕ

pub record Entry64 : Type 0 where
  pub anchor : List ℕ
  pub checksum : ℕ
  pub length : ℕ
  pub major_version : ℕ
  pub minor_version : ℕ
  pub docrev : ℕ
  pub entry_point_revision : ℕ
  pub reserved : ℕ
  pub table_length : ℕ
  pub table_address : ℕ

-- The answer of the boot loader: the addresses of the two entries, where it has found them.
pub record Response : Type 0 where
  pub entry_64 : Option ℕ
  pub entry_32 : Option ℕ

module _ {P : Type 0}
    (map_partial : P → (physical_address virtual_address size flags : ℕ) → Option P) (memory : Mem)
    (read_entry64 : ℕ → Entry64) (read_entry32 : ℕ → Entry32) (fuel : ℕ) where
  -- The entry and then its table, with the actions of dumpTable, whose length has 16 bits. `none` is a
  -- panic of paging, or a table that is not walked on the fuel.
  unfoldable pub map_and_dump :
      (entry size table_address table_length flags hhdm_offset : ℕ) → P → Option (P × List Action)
  unfolding dump_table
  map_and_dump entry size table_address table_length flags hhdm_offset p = do
    p1 ← map_partial p entry (add64 entry hhdm_offset) size flags
    let table = add64 table_address hhdm_offset
    p2 ← map_partial p1 table_address table table_length flags
    actions ← dump_table fuel memory table (table_length % 2 ^ 16)
    some (p2, actions)

  unfoldable pub init : Option Response → (hhdm_offset : ℕ) → P → Option (P × List Action)
  unfolding map_and_dump
  init none hhdm_offset p = some (p, [])
  init (some r) hhdm_offset p = elim r.entry_64 [
    | some entry ↦
        let e = read_entry64 (add64 entry hhdm_offset) in
        map_and_dump entry 24 e.table_address e.table_length 0x700 hhdm_offset p
    | none ↦ elim r.entry_32 [
      | some entry ↦
          let e = read_entry32 (add64 entry hhdm_offset) in
          map_and_dump entry 31 e.table_address e.table_length 0 hhdm_offset p
      | none ↦ some (p, [])
    ]
  ]
