-- ===== src/Smbios/Processor.antt =====
-- The getters of `ProcessorInfo`. `text` is `getString(this, ·)`, as the text that it points to.
use dvnetos.Base.{
  ℕ, ◌-◌, ◌/◌, ◌%◌, ◌^◌, Bool, Option, none, some, List, leb, ◌==◌, if◌then◌else◌, codes, get_elem?,
}
use dvnetos.Smbios.{ProcessorInfo}
use dvnetos.Smbios.Sockets.{processor_sockets_list, cpu_status_list}

unfoldable pub is_populated : ProcessorInfo → Bool
is_populated p = p.status / 2 ^ 6 % 2 == 1

unfoldable pub get_status : ProcessorInfo → ℕ
get_status p = p.status % 8

-- The null pointer is `none`.
unfoldable pub get_status_string : ProcessorInfo → Option (List ℕ)
unfolding get_status
get_status_string p = elim (get_elem? cpu_status_list (get_status p)) [
  | some (some name) ↦ some (codes name)
  | some none ↦ none
  | none ↦ none
]

unfoldable pub get_cores : ProcessorInfo → ℕ
get_cores p = if leb 36 p.header.length then p.core_count else 0

unfoldable pub get_cores_enabled : ProcessorInfo → ℕ
get_cores_enabled p = if leb 37 p.header.length then p.core_enabled else 0

unfoldable pub get_threads : ProcessorInfo → ℕ
get_threads p = if leb 38 p.header.length then p.thread_count else 0

module _ (text : ℕ → Option (List ℕ)) where
  unfoldable pub get_serial_number : ProcessorInfo → Option (List ℕ)
  get_serial_number p = if leb 33 p.header.length then text p.serial_number else none

  unfoldable pub get_asset_tag : ProcessorInfo → Option (List ℕ)
  get_asset_tag p = if leb 34 p.header.length then text p.asset_tag else none

  unfoldable pub get_part_number : ProcessorInfo → Option (List ℕ)
  get_part_number p = if leb 35 p.header.length then text p.part_number else none

  unfoldable pub get_socket : ProcessorInfo → Option (List ℕ)
  get_socket p =
      let otherwise : Option (List ℕ) =
        if p.processor_upgrade == 0xff then text p.socket_type else some (codes "unknown") in
      if p.processor_upgrade == 0
      then otherwise
      else elim (get_elem? processor_sockets_list (p.processor_upgrade - 1)) [
        | some name ↦ some (codes name)
        | none ↦ otherwise
      ]
