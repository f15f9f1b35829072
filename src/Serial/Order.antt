-- ===== src/Serial/Order.antt =====
-- The order of what is written before and after the port is found.
use dvnetos.Base.{
  ℕ, ◌+◌, ◌-◌, ◌^◌, ◌≤◌, ◌<◌, ◌≡◌, ◌⊎◌, refl, ◌∙◌, sym, ap, inl, inr, arith, true, false, Option,
  some, ◌>>=◌, List, [], ◌∷◌, ◌++◌, append-nil, append_assoc, leb, ◌==◌, if◌then◌else◌, add64,
}
use dvnetos.CString.{Mem, memmove}
use dvnetos.CString.Copy.{memmove_lem, inside}
use dvnetos.Paging.{page_size}
use dvnetos.Aarch64.{Paging, map_memory}
use dvnetos.Serial.{Serial, send, write, init}
use dvnetos.Serial.Bytes.{bytes, send-append, bytes-same, bytes-append}

-- The calls of `write`: where the text is, and its length.
abbrev pub Calls : Type 0
Calls = List (ℕ × ℕ)

abbrev pub write_all : Mem → Calls → Serial → Option (Mem × Serial)
write_all m [] s = some (m, s)
write_all m ((text, n) ∷ calls) s = do (m', s') ← write m text n s; write_all m' calls s'

abbrev pub all_bytes : Mem → Calls → List ℕ
all_bytes m [] = []
all_bytes m ((text, n) ∷ calls) = bytes m text n ++ all_bytes m calls

abbrev pub total : Calls → ℕ
total [] = 0
total ((text, n) ∷ calls) = n + total calls

-- No text overlaps the buffer.
abbrev pub AllApart : Serial → Calls → Type 0
AllApart s [] = Unit
AllApart s ((text, n) ∷ calls) =
    ((text + n ≤ s.buffer) ⊎ (s.buffer + s.buffer_size ≤ text)) × AllApart s calls

-- The memory differs from `m` only in the buffer.
abbrev pub IsApart : Serial → (m m' : Mem) → Type 0
IsApart s m m' = (x : ℕ) → (x < s.buffer) ⊎ (s.buffer + s.buffer_size ≤ x) → m' x ≡ m x

bytes-apart :
    (s : Serial) (m m' : Mem) (text n : ℕ)
    → IsApart s m m'
    → (text + n ≤ s.buffer) ⊎ (s.buffer + s.buffer_size ≤ text)
    → bytes m' text n ≡ bytes m text n
bytes-apart s m m' text n same (inl below) =
    bytes-same m' m text text n (λ i less. same (text + i) (inl (omega arith)))
bytes-apart s m m' text n same (inr above) =
    bytes-same m' m text text n (λ i less. same (text + i) (inr (omega arith)))

-- The port is not enabled, and its buffer holds `cs`.
pub record Pending (m : Mem) (m' : Mem) (s : Serial) (cs : List ℕ) : Type 0 where
  pub off : s.enabled ≡ false
  pub unsent : s.sent ≡ []
  pub held : bytes m' s.buffer s.buffer_used ≡ cs
  pub same : IsApart s m m'

pub write-Pending :
    (m m' : Mem) (s : Serial) (cs : List ℕ) (text n : ℕ)
    → s.buffer + s.buffer_size < 2 ^ 64
    → Pending m m' s cs
    → (text + n ≤ s.buffer) ⊎ (s.buffer + s.buffer_size ≤ text)
    → s.buffer_used + n ≤ s.buffer_size
    → (m'' : Mem) × (write m' text n s ≡ some (m'', record s { buffer_used = s.buffer_used + n }))
      × Pending m m'' (record s { buffer_used = s.buffer_used + n }) (cs ++ bytes m text n)
unfolding write
write-Pending m m' s cs text n bound pending apart room =
    let at = s.buffer + s.buffer_used in
    let sum : add64 s.buffer_used n ≡ s.buffer_used + n = omega arith in
    let fits : leb (s.buffer_used + n) s.buffer_size ≡ true = ground arith in
    (
      memmove m' at text n,
      rw (pending.off, sum, fits) refl,
      record {
        off = pending.off;
        unsent = pending.unsent;
        held =
            bytes-append (memmove m' at text n) s.buffer s.buffer_used n
            ∙ ap (λ ds. ds ++ bytes (memmove m' at text n) at n)
                (bytes-same (memmove m' at text n) m' s.buffer s.buffer s.buffer_used
                    (λ i less. memmove_lem m' at text n (s.buffer + i) ∙ ground arith)
                  ∙ pending.held)
            ∙ ap (λ ds. cs ++ ds)
                (bytes-same (memmove m' at text n) m' at text n
                    (λ i less. memmove_lem m' at text n (at + i) ∙ moved i less)
                  ∙ bytes-apart s m m' text n pending.same apart);
        same = λ x out. memmove_lem m' at text n x ∙ kept x out ∙ pending.same x out;
      },
    )
  where
    moved :
        (i : ℕ)
        → i < n
        → (let at = s.buffer + s.buffer_used in
            if inside at n (at + i) then m' (text + (at + i - at)) else m' (at + i))
          ≡ m' (text + i)
    moved i less = ground arith

    kept :
        (x : ℕ)
        → (x < s.buffer) ⊎ (s.buffer + s.buffer_size ≤ x)
        → (let at = s.buffer + s.buffer_used in
            if inside at n x then m' (text + (x - at)) else m' x)
          ≡ m' x
    kept x (inl below) = ground arith
    kept x (inr above) = ground arith

write_all-Pending :
    (calls : Calls) (m m' : Mem) (s : Serial) (cs : List ℕ)
    → s.buffer + s.buffer_size < 2 ^ 64
    → Pending m m' s cs
    → AllApart s calls
    → s.buffer_used + total calls ≤ s.buffer_size
    → (m'' : Mem) × (write_all m' calls s
        ≡ some (m'', record s { buffer_used = s.buffer_used + total calls }))
      × Pending m m''
          (record s { buffer_used = s.buffer_used + total calls })
          (cs ++ all_bytes m calls)
write_all-Pending [] m m' s cs bound pending apart room =
    let none_left : s.buffer_used + 0 ≡ s.buffer_used = omega arith in
    rw (none_left, append-nil cs) (m', refl, pending)
write_all-Pending ((text, n) ∷ calls) m m' s cs bound pending (here, apart) room =
    let (m1, runs, pending1) = write-Pending m m' s cs text n bound pending here (omega arith) in
    let (m2, runs2, pending2) =
      write_all-Pending calls m m1 (record s { buffer_used = s.buffer_used + n })
        (cs ++ bytes m text n) bound pending1 apart (omega arith) in
    let sum : s.buffer_used + (n + total calls) ≡ s.buffer_used + n + total calls = omega arith in
    let joined : cs ++ (bytes m text n ++ all_bytes m calls)
        ≡ cs ++ bytes m text n ++ all_bytes m calls =
      sym (append_assoc cs (bytes m text n) (all_bytes m calls)) in
    rw (sum, joined) (m2, rw runs runs2, pending2)

write-sent :
    (m m' : Mem) (s : Serial) (text n : ℕ)
    → s.enabled ≡ true
    → bytes m' text n ≡ bytes m text n
    → write m' text n s ≡ some (m', record s { sent = s.sent ++ bytes m text n })
unfolding write
write-sent m m' s text n on same = rw (on, send-append m' text n s.sent, same) refl

-- With the port enabled, what is written is sent, in order.
write_all-sent :
    (calls : Calls) (m m' : Mem) (s : Serial)
    → s.enabled ≡ true
    → IsApart s m m'
    → AllApart s calls
    → write_all m' calls s ≡ some (m', record s { sent = s.sent ++ all_bytes m calls })
write_all-sent [] m m' s on same apart = rw (append-nil s.sent) refl
write_all-sent ((text, n) ∷ calls) m m' s on same (here, apart) =
    let joined : s.sent ++ (bytes m text n ++ all_bytes m calls)
        ≡ s.sent ++ bytes m text n ++ all_bytes m calls =
      sym (append_assoc s.sent (bytes m text n) (all_bytes m calls)) in
    rw (write-sent m m' s text n on (bytes-apart s m m' text n same here), joined)
      (write_all-sent calls m m' (record s { sent = s.sent ++ bytes m text n }) on same apart)

-- Calls of `write` before and after a call of `init`.
abbrev pub session :
    (fr hhdm_offset : ℕ) → (before after : Calls) → Paging → Mem → Serial → Option Serial
session fr hhdm_offset before after p m s = do
  (m1, s1) ← write_all m before s
  (p1, m2, s2) ← init fr hhdm_offset p m1 s1
  (m3, s3) ← write_all m2 after s2
  some s3

-- A port that has sent nothing and buffers nothing.
abbrev pub IsIdle : Serial → Type 0
IsIdle s = (s.enabled ≡ false) × (s.sent ≡ []) × (s.buffer_used ≡ 0)

init-found :
    (fr hhdm_offset : ℕ) (p p1 : Paging) (m m1 : Mem) (s : Serial) (cs : List ℕ)
    → Pending m m1 s cs
    → (fr == 0xFFFFFFFF) ≡ false
    → (fr == 0) ≡ false
    → map_memory p s.base (add64 s.base hhdm_offset) page_size 1 0x700 ≡ some p1
    → init fr hhdm_offset p m1 s
      ≡ some (
        p1,
        m1,
        record s { base = add64 s.base hhdm_offset; enabled = true; sent = cs; buffer_used = 0 },
      )
unfolding init write
init-found fr hhdm_offset p p1 m m1 s cs pending not_ones not_zero maps =
    let flushed : send m1 s.buffer s.buffer_used s.sent ≡ cs =
      send-append m1 s.buffer s.buffer_used s.sent
      ∙ ap (λ ds. ds ++ bytes m1 s.buffer s.buffer_used) pending.unsent
      ∙ pending.held in
    rw (maps, not_ones, not_zero, flushed) refl

-- Where init finds the port, all that was written before init and after it is sent, each byte once
-- and in the order of the calls, as long as the buffer has room for what is written before init and no
-- text stands in the buffer.
pub session_sent :
    (fr hhdm_offset : ℕ) (before after : Calls) (p p1 : Paging) (m : Mem) (s : Serial)
    → IsIdle s
    → s.buffer + s.buffer_size < 2 ^ 64
    → total before ≤ s.buffer_size
    → AllApart s before
    → AllApart s after
    → (fr == 0xFFFFFFFF) ≡ false
    → (fr == 0) ≡ false
    → map_memory p s.base (add64 s.base hhdm_offset) page_size 1 0x700 ≡ some p1
    → (s' : Serial) × (session fr hhdm_offset before after p m s ≡ some s')
      × (s'.sent ≡ all_bytes m before ++ all_bytes m after)
session_sent fr hhdm_offset before after p p1 m s (off, unsent, unused) bound room apart apart'
      not_ones not_zero maps =
    let idle : Pending m m s [] = record {
      off = off;
      unsent = unsent;
      held = rw unused refl;
      same = λ x out. refl;
    } in
    let (m1, runs, pending) = write_all-Pending before m m s [] bound idle apart (omega arith) in
    let found =
      init-found fr hhdm_offset p p1 m m1 (record s { buffer_used = s.buffer_used + total before })
        (all_bytes m before) pending not_ones not_zero maps in
    let s2 = record s {
      base = add64 s.base hhdm_offset;
      enabled = true;
      sent = all_bytes m before;
      buffer_used = 0;
    } in
    (
      record s2 { sent = all_bytes m before ++ all_bytes m after },
      rw (runs, found, write_all-sent after m m1 s2 refl pending.same apart') refl,
      refl,
    )
