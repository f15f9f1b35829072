-- ===== src/Serial/Bytes.antt =====
-- The bytes of a text in memory.
use dvnetos.Base.{
  ℕ, zero, suc, ◌+◌, ◌<◌, ◌≡◌, refl, ◌∙◌, sym, ap, arith, List, [], ◌∷◌, ◌++◌, append-nil,
  append_assoc, length,
}
use dvnetos.CString.{Mem}
use dvnetos.Serial.{send}

-- The bytes of a text.
abbrev pub bytes : Mem → (text length : ℕ) → List ℕ
bytes m text zero = []
bytes m text (suc length) = m text ∷ bytes m (text + 1) length

pub send-append :
    (m : Mem) (text length : ℕ) (sent : List ℕ)
    → send m text length sent ≡ sent ++ bytes m text length
unfolding send
send-append m text zero sent = sym (append-nil sent)
send-append m text (suc n) sent =
    send-append m (text + 1) n (sent ++ m text ∷ [])
    ∙ append_assoc sent (m text ∷ []) (bytes m (text + 1) n)

pub bytes-same :
    (m m' : Mem) (a b n : ℕ)
    → ((i : ℕ) → i < n → m (a + i) ≡ m' (b + i))
    → bytes m a n ≡ bytes m' b n
bytes-same m m' a b zero h = refl
bytes-same m m' a b (suc n) h =
    let first : m a ≡ m' b = ap m (omega arith) ∙ h 0 (omega arith) ∙ ap m' (omega arith) in
    let rest : bytes m (a + 1) n ≡ bytes m' (b + 1) n =
      bytes-same m m' (a + 1) (b + 1) n
        (λ i less. ap m (omega arith) ∙ h (i + 1) (omega arith) ∙ ap m' (omega arith)) in
    rw (first, rest) refl

pub bytes-append : (m : Mem) (a n k : ℕ) → bytes m a (n + k) ≡ bytes m a n ++ bytes m (a + n) k
bytes-append m a zero k =
    let none_read : 0 + k ≡ k = omega arith in
    let here : a + 0 ≡ a = omega arith in rw (none_read, here) refl
bytes-append m a (suc n) k =
    let shifted : a + suc n ≡ a + 1 + n = omega arith in
    let more : suc n + k ≡ suc (n + k) = omega arith in
    rw (shifted, more) (ap (λ cs. m a ∷ cs) (bytes-append m (a + 1) n k))
