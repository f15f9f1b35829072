-- ===== src/CString/Text.antt =====
-- `strlen`, `strncpy` and `strncat`.
use dvnetos.Base.{
  ℕ, zero, suc, ◌+◌, ◌-◌, ◌≤◌, ◌<◌, ◌≡◌, ◌≢◌, refl, ◌∙◌, ◌⊎◌, some, min, arith, ltb, ◌==◌, not,
  ◌&&◌, Bool-cases, inl, inr, if◌then◌else◌,
}
use dvnetos.CString.{Mem, write, strlen_loop, strlen, strncpy_loop, strncpy, strncat}
use dvnetos.CString.Copy.{inside}

-- A text of `n` characters at `s`, with its terminator.
pub record IsString (m : Mem) (s n : ℕ) : Type 0 where
  pub ends : m (s + n) ≡ 0
  pub no_zero : (i : ℕ) → i < n → m (s + i) ≢ 0

-- The `k` bytes from `a` on and the `n` bytes from `b` on have none in common.
abbrev pub Apart : (a k b n : ℕ) → Type 0
Apart a k b n = (a + k ≤ b) ⊎ (b + n ≤ a)

strlen_loop_lem :
    (fuel : ℕ) {m : Mem} {s n : ℕ} (i : ℕ)
    → IsString m s n
    → i ≤ n
    → n - i < fuel
    → strlen_loop fuel m s i ≡ some n
unfolding strlen_loop
strlen_loop_lem zero i str le h = absurd (omega arith)
strlen_loop_lem (suc fuel) {m} {s} {n} i str le h =
    ground (arith, str.ends, str.no_zero i, strlen_loop_lem fuel (i + 1) str)

-- `strlen` of a text of `n` characters is `n`, with fuel above `n`.
pub strlen_lem :
    {m : Mem} {s n : ℕ} (fuel : ℕ) → IsString m s n → n < fuel → strlen fuel m s ≡ some n
unfolding strlen
strlen_lem fuel str h = strlen_loop_lem fuel 0 str (omega arith) (omega arith)

IsString-write :
    {m : Mem} {s n : ℕ} (a v : ℕ)
    → IsString m s n
    → Apart a 1 s (n + 1)
    → IsString (write m a v) s n
IsString-write {m} {s} {n} a v str apart = record {
  ends = ground (arith, str.ends);
  no_zero = λ i h. ground (arith, str.no_zero i);
}

-- What the copying loop leaves, from `i` characters copied to the end.
abbrev Copied : (m : Mem) (dest src i k : ℕ) → Mem
Copied m dest src i k x =
    if inside (dest + i) (k - i) x then m (src + (x - dest)) else if x == dest + k then 0 else m x

Copied_step :
    (m : Mem) (dest src i k n x : ℕ)
    → i < k
    → Apart dest (k + 1) src (n + 1)
    → k ≤ n
    → Copied (write m (dest + i) (m (src + i))) dest src (i + 1) k x ≡ Copied m dest src i k x
Copied_step m dest src i k n x h (inl apart) le = ground arith
Copied_step m dest src i k n x h (inr apart) le = ground arith

Copied_end :
    (m : Mem) (dest src i k x : ℕ) → i ≡ k → write m (dest + i) 0 x ≡ Copied m dest src i k x
Copied_end m dest src i k x h = ground arith

strncpy_loop_lem :
    (fuel : ℕ) {m : Mem} {src len : ℕ} (dest n i : ℕ)
    → IsString m src len
    → Apart dest (min len n + 1) src (len + 1)
    → i ≤ min len n
    → min len n - i < fuel
    → (m' : Mem) × (strncpy_loop fuel m dest src n i ≡ some m')
      × ((x : ℕ) → m' x ≡ Copied m dest src i (min len n) x)
unfolding strncpy_loop
strncpy_loop_lem zero dest n i str apart le h = absurd (omega arith)
strncpy_loop_lem (suc fuel) {m} {src} {len} dest n i str apart le h =
    elim (Bool-cases (not (m (src + i) == 0) && ltb i n)) [
      | inl e ↦
          let below : i < min len n = ground (arith, str.ends) in
          let near : Apart (dest + i) 1 src (len + 1) = omega arith in
          let (m', run, at) =
            strncpy_loop_lem fuel dest n (i + 1) (IsString-write (dest + i) (m (src + i)) str near)
              apart (omega arith) (omega arith) in
          (
            m',
            rw e run,
            λ x. at x ∙ Copied_step m dest src i (min len n) len x below apart (omega arith),
          )
      | inr e ↦
          let done : i ≡ min len n = ground (arith, str.no_zero i) in
          (write m (dest + i) 0, rw e refl, λ x. Copied_end m dest src i (min len n) x done)
    ]

-- `strncpy` of a text of `len` characters that it does not overlap copies its first characters, `n`
-- at most, and stores a zero behind them; so it writes `n + 1` bytes where `n` does not exceed the
-- length. No other byte changes.
pub strncpy_lem :
    (fuel : ℕ) {m : Mem} {src len : ℕ} (dest n : ℕ)
    → IsString m src len
    → Apart dest (min len n + 1) src (len + 1)
    → min len n < fuel
    → (m' : Mem) × (strncpy fuel m dest src n ≡ some m')
      × ((x : ℕ)
          → m' x ≡ (
              if inside dest (min len n) x
              then m (src + (x - dest))
              else if x == dest + min len n
              then 0
              else m x))
unfolding strncpy
strncpy_lem fuel dest n str apart h =
    let (m', run, at) = strncpy_loop_lem fuel dest n 0 str apart (omega arith) (omega arith) in
    (m', run, λ x. at x ∙ ground arith)

-- `strncat` appends: it puts the first characters of the source, `n` at most, and a zero behind the
-- text at `dest`, and changes no other byte.
pub strncat_lem :
    (fuel : ℕ) {m : Mem} {dest size src len : ℕ} (n : ℕ)
    → IsString m dest size
    → IsString m src len
    → Apart (dest + size) (min len n + 1) src (len + 1)
    → size < fuel
    → min len n < fuel
    → (m' : Mem) × (strncat fuel m dest src n ≡ some m')
      × ((x : ℕ)
          → m' x ≡ (
              if inside (dest + size) (min len n) x
              then m (src + (x - (dest + size)))
              else if x == dest + size + min len n
              then 0
              else m x))
unfolding strncat strncpy
strncat_lem fuel {dest} {size} n str str' apart h h' =
    let (m', run, at) = strncpy_lem fuel (dest + size) n str' apart h' in
    (m', rw (strlen_lem fuel str h) run, at)
