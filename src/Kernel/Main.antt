-- ===== src/Kernel/Main.antt =====
-- `MemMap::init` of kernel/memory/MemMap.cpp with what it prints, and `kmain` of kernel/main.cpp, for
-- aarch64.
use dvnetos.Base.{
  ℕ, zero, suc, ◌+◌, Bool, not, Option, none, some, List, [], ◌∷◌, length, ltb, ◌==◌, if◌then◌else◌,
  String, codes, add64, sub64,
}
use dvnetos.Stdio.{Run, ok, panic, ◌>>=◌, Arg, int, long, text, pointer}
use dvnetos.Stdio.Read.{read_text}
use dvnetos.Bytes.{bytes_to_human_readable}
use dvnetos.Paging.Memmap.{MemmapEntry}
use dvnetos.Aarch64.{Paging}
use dvnetos.Aarch64.Init.{Boot}
use dvnetos.MemMap.{get_mem_map_type_description, per_type_memory}
use dvnetos.Smbios.Init.{Response}
use dvnetos.Kernel.Start.{LimineFramebuffer, start_console}
use dvnetos.Kernel.Tables.{smbios_init}
use dvnetos.Kernel.{Devices, or_panic, print, print_formatted, init_serial}

-- The answers of the boot loader and of the device, the numbers of limine.h, and the places of local
-- buffers and of the texts of kprint.
pub record Loader : Type 0 where
  pub revision_supported : Bool
  pub mappings : List MemmapEntry
  pub reserved : ℕ
  pub boot : Boot
  pub kernel_address_response : ℕ
  pub physical_base : ℕ
  pub virtual_base : ℕ
  pub hhdm_offset : ℕ
  pub dtb : Option ℕ
  pub efi_system_table : Option ℕ
  pub rsdp : Option ℕ
  pub smbios : Option Response
  pub framebuffers : Option (List LimineFramebuffer)
  pub fr : ℕ
  pub literal : String → ℕ
  pub format_buffer : ℕ
  pub buf : ℕ
  pub buf2 : ℕ
  pub per_type : ℕ

pub record System : Type 0 where
  pub devices : Devices
  pub paging : Paging

module _ (l : Loader) (fuel : ℕ) where
  -- `kprintf` and `kprint`.
  abbrev pub kprintf : String → List Arg → Devices → Run Devices
  kprintf format args = print_formatted l.format_buffer (codes format) args

  abbrev pub kprint : String → Devices → Run Devices
  kprint s = print fuel (l.literal s)

  -- `bytesToHumanReadable(buf, sizeof(buf), bytes)`, with the text that it stores.
  unfoldable pub readable : ℕ → Devices → Run (Devices × List ℕ)
  unfolding bytes_to_human_readable read_text
  readable bytes d = do
    m ← bytes_to_human_readable 4 d.console.memory l.buf 256 bytes
    cs ← read_text 256 m l.buf
    ok (record d { console = record d.console { memory = m } }, cs)

  -- The loop over the entries, from the entry `i` on.
  unfoldable pub print_entries : (i : ℕ) → List MemmapEntry → Devices → Run Devices
  unfolding readable print_formatted get_mem_map_type_description
  print_entries i [] d = ok d
  print_entries i (e ∷ es) d = do
    let entry = (do
      (d1, size) ← readable e.length d
      kprintf "Entry %d: %p - %p %s %s\n"
          (int i
            ∷ pointer e.base
            ∷ pointer (add64 e.base e.length)
            ∷ text (some size)
            ∷ text (some (codes (get_mem_map_type_description e.type)))
            ∷ [])
          d1)
    d' ← if not (e.type == l.reserved) then entry else ok d
    print_entries (i + 1) es d'

  -- The loop over the totals, with the rounds left.
  unfoldable pub print_totals : (rounds i : ℕ) → (totals : ℕ → ℕ) → Devices → Run Devices
  unfolding readable print_formatted get_mem_map_type_description
  print_totals zero i totals d = ok d
  print_totals (suc rounds) i totals d = do
    let total = (do
      (d1, size) ← readable (totals i) d
      kprintf "%s: %s\n"
          (text (some (codes (get_mem_map_type_description i))) ∷ text (some size) ∷ []) d1)
    d' ← if ltb 0 (totals i) then total else ok d
    print_totals rounds (i + 1) totals d'

  unfoldable pub mem_map_init : System → Run System
  unfolding print_entries print_totals print_formatted per_type_memory dvnetos.Aarch64.Init.init
  mem_map_init s = do
    let last_type = l.boot.framebuffer
    d1 ← kprintf "%lu mem map entries\n" (long (length l.mappings) ∷ []) s.devices
    d2 ←
        kprintf "kernel at %p/%p stack at %p hhdm offset %p\n"
          (pointer l.physical_base
            ∷ pointer l.virtual_base
            ∷ pointer l.per_type
            ∷ pointer l.hhdm_offset
            ∷ [])
          d1
    d3 ←
        kprintf "limine response pointer is %p/%p\n"
          (pointer l.kernel_address_response
            ∷ pointer (sub64 l.kernel_address_response l.hhdm_offset)
            ∷ [])
          d2
    d4 ← print_entries 0 l.mappings d3
    d5 ← print_totals (last_type + 1) 0 (per_type_memory last_type l.mappings (λ t. 0)) d4
    (p, ttbr0, ttbr1) ← or_panic (
        dvnetos.Aarch64.Init.init l.boot l.mappings l.hhdm_offset
          (sub64 l.virtual_base l.physical_base) s.paging)
    ok (record { devices = d5; paging = p })

  -- A pointer of the boot loader, or that there is none.
  abbrev pub kprint_pointer : Option ℕ → (format missing : String) → Devices → Run Devices
  kprint_pointer none format missing = kprint missing
  kprint_pointer (some p) format missing = kprintf format (pointer p ∷ [])

  abbrev pub construct : List (System → System) → System → System
  construct [] s = s
  construct (f ∷ fs) s = construct fs (f s)

  -- The constructors of the global objects, which the compiler collects, are a parameter. The result is the
  -- state in which `halt` is called.
  unfoldable pub kmain : List (System → System) → System → Run System
  unfolding start_console mem_map_init init_serial print print_formatted smbios_init
  kmain constructors s = do
    s0 ← if l.revision_supported then ok (construct constructors s) else panic 0
    d1 ← start_console l.format_buffer (l.literal " ") l.framebuffers s0.devices
    s1 ← mem_map_init (record s0 { devices = d1 })
    (p2, d2) ←
        init_serial fuel (l.literal "Serial Port Found\n") (l.literal "Serial not found\n") l.fr
          l.hhdm_offset s1.paging s1.devices
    d3 ← kprint_pointer l.dtb "DTB at %p\n" "No DTB\n" d2
    d4 ← kprint_pointer l.efi_system_table "EFI system table at %p\n" "No EFI system table\n" d3
    d5 ← kprint_pointer l.rsdp "RSDP at %p\n" "No RSDP\n" d4
    (p6, d6) ← smbios_init fuel l.literal l.format_buffer l.buf l.buf2 l.smbios l.hhdm_offset p2 d5
    d7 ← kprint "start complete\n" d6
    ok (record { devices = d7; paging = p6 })
