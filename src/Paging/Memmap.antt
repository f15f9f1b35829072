-- ===== src/Paging/Memmap.antt =====
-- The entries of the memory map that the boot loader passes on.
use dvnetos.Base.{ℕ}

-- `limine_memmap_entry`, the fields that the kernel uses.
pub record MemmapEntry : Type 0 where
  pub base : ℕ
  pub length : ℕ
  pub type : ℕ
