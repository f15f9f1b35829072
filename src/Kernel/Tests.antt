-- ===== src/Kernel/Tests.antt =====
-- The texts of a kernel with a small screen.
use dvnetos.Base.{
  ℕ, ◌+◌, ◌<◌, ◌≡◌, ◌≢◌, refl, zero, suc, inl, inr, arith, false, Option, none, some, [], ◌++◌,
  ◌==◌, if◌then◌else◌,
}
use dvnetos.CString.{Mem}
use dvnetos.Stdio.{ok}
use dvnetos.Console.{init}
use dvnetos.Aarch64.{Paging}
use dvnetos.Serial.Bytes.{bytes}
use dvnetos.Kernel.{Devices, print}
use dvnetos.Kernel.Drawn.{ShowsText, print-ShowsText}
use dvnetos.Kernel.Mirror.{Mirrors, Literal}
use dvnetos.Kernel.Session.{IsStart, init-Mirrors}

-- "Hi" stands at 0, "!" at 8 and "?" at 16.
abbrev memory : Mem
memory x =
    if x == 0 then 72 else if x == 1 then 105 else if x == 8 then 33 else if x == 16 then 63 else 0

abbrev devices : Devices
devices = record {
  console = record {
    cursor_x = 0;
    cursor_y = 0;
    line_length = 80;
    line_count = 10;
    init_complete = false;
    memory = memory;
    buffer = 0x10000;
  };
  screen = record {
    framebuffer = record { fb = λ i. 0; width = 640; height = 480; pitch = 2560 };
    font = record {
      magic = 0;
      version = 0;
      headersize = 32;
      flags = 0;
      numglyph = 256;
      bytesperglyph = 16;
      height = 16;
      width = 8;
    };
    font_data = λ i. 0;
    char_signed = false;
  };
  serial = record {
    base = 0x9000000;
    buffer = 0x1000;
    buffer_size = 16;
    buffer_used = 0;
    enabled = false;
    sent = [];
  };
}

abbrev tables : Paging
tables = record {
  root1 = 0x100000;
  root2 = 0x101000;
  tcr_el1 = 0;
  page_table_offset = 0;
  higher_half_offset = 0xFFFF000000000000;
  words = λ x. 0;
  pool = 0x100000;
  used_count = 2;
}

abbrev or_tables : Option Paging → Paging
or_tables none = tables
or_tables (some p) = p

hi : Literal memory 0x10000 0x1000 16 0 2
hi = record {
  string = record { ends = refl; no_zero = at };
  off_screen = inl (omega arith);
  off_port = inl (omega arith);
}
  where
    at : (i : ℕ) → i < 2 → memory (0 + i) ≢ 0
    at zero h = omega arith
    at (suc zero) h = omega arith
    at (suc (suc i)) h = absurd (omega arith)

start : IsStart 8 16 640 480 devices
start = record {
  wide = omega arith;
  high = omega arith;
  some_width = omega arith;
  some_height = omega arith;
  x0 = refl;
  y0 = refl;
  idle = (refl, refl, refl);
  apart = inl (omega arith);
  bound = omega arith;
}

abbrev started : Devices
unfolding init
started = record devices { console = init devices.console 8 16 640 480 }

print-ShowsText_example :
    (d' : Devices) × (print 8 0 started ≡ ok d')
    × Mirrors memory 0x10000 0x1000 16 d' ([] ++ bytes memory 0 2)
    × ShowsText 640 d'.screen d'.console ([] ++ bytes memory 0 2) 0 1 3 4
unfolding init
print-ShowsText_example =
    print-ShowsText memory 0x10000 0x1000 16 640 (inl (omega arith)) (omega arith) 8 0 2 started []
      0 1 3 4 (init-Mirrors 8 16 640 480 devices start) hi (inr (omega arith)) (omega arith)
      (record {
        complete = refl;
        pitch = refl;
        room = record {
          across = omega arith;
          narrow = omega arith;
          down = omega arith;
          bytes = omega arith;
        };
      })
      (omega arith) (omega arith) (omega arith) (omega arith)
