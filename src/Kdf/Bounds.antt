-- ===== src/Kdf/Bounds.antt =====
-- What the validation of key derivation settings promises.
use passwall_server.Base.{
  ℕ, ◌≤◌, Option, none, some, true, false, ◌==◌, ok, ◌≡◌, ◌↔◌, ◌⊎◌, inl, inr, arith, Bool-cases, ok,
  ==→eq,
}
use passwall_server.Kdf.Config.{
  KdfConfig, validate, validate_pbkdf2, validate_argon2, validate_argon2_values,
  validate_argon2_pointers, validate_for_prelogin, known_below,
}

abbrev pub Between : ℕ → ℕ → Option ℕ → Type 0
Between low high none = ⊥
Between low high (some n) = (low ≤ n) × (n ≤ high)

-- A PBKDF2 configuration with 600,000 to 2,000,000 iterations, or an Argon2id one with 2 to 10
-- iterations, 16 to 1024 MB and 1 to 16 threads.
abbrev pub WithinLimits : KdfConfig → Type 0
WithinLimits c =
    ((c.kind ≡ 0) × (600_000 ≤ c.iterations) × (c.iterations ≤ 2_000_000))
    ⊎ ((c.kind ≡ 1)
        × (2 ≤ c.iterations)
        × (c.iterations ≤ 10)
        × Between 16 1024 c.memory
        × Between 1 16 c.parallelism)

values_ok :
    (i m p : ℕ)
    → validate_argon2_values i m p ≡ ok tt
    → (2 ≤ i) × (i ≤ 10) × ((16 ≤ m) × (m ≤ 1024)) × ((1 ≤ p) × (p ≤ 16))
unfolding validate_argon2_values
values_ok i m p h = ground arith

ok_values :
    (i m p : ℕ)
    → (2 ≤ i) × (i ≤ 10) × ((16 ≤ m) × (m ≤ 1024)) × ((1 ≤ p) × (p ≤ 16))
    → validate_argon2_values i m p ≡ ok tt
unfolding validate_argon2_values
ok_values i m p h = ground arith

pointers_ok :
    (i : ℕ) (m p : Option ℕ)
    → (validate_argon2_pointers i m p ≡ ok tt)
      ↔ ((2 ≤ i) × (i ≤ 10) × Between 16 1024 m × Between 1 16 p)
unfolding validate_argon2_pointers
pointers_ok i none p = (λ h. absurd (ground arith), λ h. absurd h.2)
pointers_ok i (some m) none = (λ h. absurd (ground arith), λ h. absurd h.3)
pointers_ok i (some m) (some p) = (values_ok i m p, ok_values i m p)

unknown_type : (c : KdfConfig) → (c.kind == 0) ≡ false → (c.kind == 1) ≡ false → ¬ WithinLimits c
unknown_type c p q h = ground arith

pbkdf2_ok :
    (c : KdfConfig)
    → validate_pbkdf2 c ≡ ok tt
    → (600_000 ≤ c.iterations) × (c.iterations ≤ 2_000_000)
unfolding validate_pbkdf2
pbkdf2_ok c h = ground arith

ok_pbkdf2 : (c : KdfConfig) → (c.kind == 0) ≡ true → WithinLimits c → validate_pbkdf2 c ≡ ok tt
unfolding validate_pbkdf2
ok_pbkdf2 c k h = ground arith

ok_argon2 : (c : KdfConfig) → (c.kind == 1) ≡ true → WithinLimits c → validate_argon2 c ≡ ok tt
unfolding validate_argon2
ok_argon2 c k (inl (e, low, high)) = absurd (ground arith)
ok_argon2 c k (inr (e, low, high, m, q)) =
    (pointers_ok c.iterations c.memory c.parallelism).1 (low, high, m, q)

-- Validate accepts a configuration exactly if it is within the limits; no other type of key
-- derivation is accepted.
pub validate_iff : (c : KdfConfig) → (validate c ≡ ok tt) ↔ WithinLimits c
unfolding validate validate_pbkdf2 validate_argon2
validate_iff c = elim (Bool-cases (c.kind == 0)) [
  | inl p ↦
      rw p (λ h. let (low, high) = pbkdf2_ok c h in inl (==→eq _ _ p, low, high), ok_pbkdf2 c p)
  | inr n ↦ elim (Bool-cases (c.kind == 1)) [
    | inl a ↦
        rw (n, a)
          (
            λ h.
                let (low, high, m, q) = (pointers_ok c.iterations c.memory c.parallelism).0 h in
                inr (==→eq _ _ a, low, high, m, q),
            ok_argon2 c a,
          )
    | inr m ↦ rw (n, m) (λ h. absurd (ground arith), λ h. absurd (unknown_type c n m h))
  ]
]

not_below : (low high : ℕ) (o : Option ℕ) → Between low high o → known_below o low ≡ false
not_below low high none b = absurd b
not_below low high (some n) b = ground arith

-- What Validate accepts, ValidateForPrelogin accepts.
pub validate-prelogin : (c : KdfConfig) → validate c ≡ ok tt → validate_for_prelogin c ≡ ok tt
unfolding validate_for_prelogin
validate-prelogin c h = elim ((validate_iff c).0 h) [
  | inl p ↦ ground arith
  | inr a ↦ rw (not_below 16 1024 c.memory a.3, not_below 1 16 c.parallelism a.4) (ground arith)
]
