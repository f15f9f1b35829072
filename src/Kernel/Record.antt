-- ===== src/Kernel/Record.antt =====
-- What the serial port has been given: sent, or held in its buffer until the port is found.
use dvnetos.Base.{
  ℕ, zero, suc, ◌+◌, ◌^◌, ◌≤◌, ◌<◌, ◌≡◌, ◌⊎◌, refl, ◌∙◌, ap, inl, inr, arith, true, false, some,
  List, [], ◌++◌, ◌==◌,
}
use dvnetos.CString.{Mem}
use dvnetos.CString.Text.{IsString}
use dvnetos.Stdio.{ok}
use dvnetos.Stdio.Read.{read_text}
use dvnetos.Serial.{Serial, write}
use dvnetos.Serial.Order.{Pending, write-Pending}
use dvnetos.Serial.Bytes.{bytes, send-append}

-- The bytes `cs` have been written to the port.
abbrev pub Recorded : Mem → Serial → List ℕ → Type 0
Recorded m s cs =
    (s.enabled ≡ true) × (s.sent ≡ cs)
    ⊎ (s.enabled ≡ false) × (s.sent ≡ []) × (bytes m s.buffer s.buffer_used ≡ cs)

-- Outside the buffer of the port.
abbrev pub Outside : Serial → ℕ → Type 0
Outside s x = (x < s.buffer) ⊎ (s.buffer + s.buffer_size ≤ x)

-- The port takes a text of `n` bytes.
abbrev pub Takes : Serial → ℕ → Type 0
Takes s n = (s.enabled ≡ true) ⊎ (s.buffer_used + n ≤ s.buffer_size)

pub record Written (m : Mem) (s : Serial) (n : ℕ) (cs : List ℕ) (m' : Mem) (s' : Serial)
    : Type 0 where
  pub recorded : Recorded m' s' cs
  pub same : (x : ℕ) → Outside s x → m' x ≡ m x
  pub same_enabled : s'.enabled ≡ s.enabled
  pub same_buffer : s'.buffer ≡ s.buffer
  pub same_size : s'.buffer_size ≡ s.buffer_size
  pub same_base : s'.base ≡ s.base
  pub used : s'.buffer_used ≤ s.buffer_used + n

pub write-Written :
    (m : Mem) (s : Serial) (cs : List ℕ) (text n : ℕ)
    → s.buffer + s.buffer_size < 2 ^ 64
    → Recorded m s cs
    → Takes s n
    → (text + n ≤ s.buffer) ⊎ (s.buffer + s.buffer_size ≤ text)
    → (m' : Mem) × (s' : Serial) × (write m text n s ≡ some (m', s'))
      × Written m s n (cs ++ bytes m text n) m' s'
unfolding write
write-Written m s cs text n bound (inl (on, sent)) room apart =
    let added = send-append m text n s.sent in
    (
      m,
      record s { sent = s.sent ++ bytes m text n },
      rw (on, added) refl,
      record {
        recorded = inl (on, ap (λ ds. ds ++ bytes m text n) sent);
        same = λ x out. refl;
        same_enabled = refl;
        same_buffer = refl;
        same_size = refl;
        same_base = refl;
        used = omega arith;
      },
    )
write-Written m s cs text n bound (inr (off, unsent, held)) (inl on) apart = absurd (cc (off, on))
write-Written m s cs text n bound (inr (off, unsent, held)) (inr room) apart =
    let pending : Pending m m s cs = record {
      off = off;
      unsent = unsent;
      held = held;
      same = λ x out. refl;
    } in
    let (m', runs, after) = write-Pending m m s cs text n bound pending apart room in
    (
      m',
      record s { buffer_used = s.buffer_used + n },
      runs,
      record {
        recorded = inr (after.off, after.unsent, after.held);
        same = after.same;
        same_enabled = refl;
        same_buffer = refl;
        same_size = refl;
        same_base = refl;
        used = omega arith;
      },
    )

-- A text is read back up to its terminator.
pub read_text-bytes :
    (fuel : ℕ) (m : Mem) (a n : ℕ)
    → IsString m a n
    → n < fuel
    → read_text fuel m a ≡ ok (bytes m a n)
unfolding read_text
read_text-bytes zero m a n str h = absurd (omega arith)
read_text-bytes (suc fuel) m a zero str h =
    let ends : (m a == 0) ≡ true = ground (arith, str.ends) in rw ends refl
read_text-bytes (suc fuel) m a (suc n) str h =
    let goes : (m a == 0) ≡ false = ground (arith, str.no_zero 0 (omega arith)) in
    let rest : IsString m (a + 1) n = record {
      ends = ap m (omega arith) ∙ str.ends;
      no_zero =
          λ i less zero_there. str.no_zero (i + 1) (omega arith) (ap m (omega arith) ∙ zero_there);
    } in
    rw (goes, read_text-bytes fuel m (a + 1) n rest (omega arith)) refl
