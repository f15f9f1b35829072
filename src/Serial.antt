-- ===== src/Serial.antt =====
-- kernel/arch/aarch64/serial/Serial.cpp and kernel/arch/x86_64/serial/Serial.cpp. What a port sends is the
-- list `sent`; the loop that waits for the device is left out, and what the device answers to init is a
-- parameter. The messages that init prints are calls of `write` of their own; Kernel has init with them.
mod Tests
pub mod Bytes
pub mod Order
use dvnetos.Base.{
  ℕ, zero, suc, ◌+◌, ◌*◌, Bool, true, false, not, ◌&&◌, Option, none, some, ◌>>=◌, List, [], ◌∷◌,
  ◌++◌, ltb, leb, ◌==◌, if◌then◌else◌, add64,
}
use dvnetos.CString.{Mem, memmove}
use dvnetos.Paging.{page_size}
use dvnetos.Aarch64.{Paging, map_memory, unmap_memory}

-- `serial::aarch64::Serial`
pub record Serial : Type 0 where
  pub base : ℕ
  pub buffer : ℕ
  pub buffer_size : ℕ
  pub buffer_used : ℕ
  pub enabled : Bool
  pub sent : List ℕ

-- The loop over the characters of a text, from `text` on.
unfoldable pub send : Mem → (text length : ℕ) → List ℕ → List ℕ
send m text zero sent = sent
send m text (suc length) sent = send m (text + 1) length (sent ++ m text ∷ [])

-- `none` is a failed assertion: the buffer is full.
unfoldable pub write : Mem → (text length : ℕ) → Serial → Option (Mem × Serial)
unfolding send memmove
write m text length s =
    if s.enabled
    then some (m, record s { sent = send m text length s.sent })
    else if not (leb (add64 s.buffer_used length) s.buffer_size)
    then none
    else some (
      memmove m (s.buffer + s.buffer_used) text length,
      record s { buffer_used = add64 s.buffer_used length },
    )

-- `fr` is what the flag register answers.
unfoldable pub init : (fr hhdm_offset : ℕ) → Paging → Mem → Serial → Option (Paging × Mem × Serial)
unfolding write map_memory unmap_memory
init fr hhdm_offset p m s = do
  p1 ← map_memory p s.base (add64 s.base hhdm_offset) page_size 1 0x700
  let moved = record s { base = add64 s.base hhdm_offset }
  if not (fr == 0xFFFFFFFF) && not (fr == 0)
      then (do
        (m', sent) ← write m moved.buffer moved.buffer_used (record moved { enabled = true })
        some (p1, m', record sent { buffer_used = 0 }))
      else (do p2 ← unmap_memory p1 moved.base 1 page_size; some (p2, m, moved))

-- `serial::x86_64::Serial::write`: the characters up to the terminator go to the port, whatever `length`
-- is. On fuel for the characters and the terminator.
unfoldable pub write_x86 : ℕ → Mem → (text length : ℕ) → List ℕ → Option (List ℕ)
write_x86 zero m text length sent = none
write_x86 (suc fuel) m text length sent =
    let more = write_x86 fuel m (text + 1) length (sent ++ m text ∷ []) in
    if m text == 0 then some sent else more
