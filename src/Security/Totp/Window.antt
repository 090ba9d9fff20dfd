-- ===== src/Security/Totp/Window.antt =====
-- What `verify_totp_secret` accepts: the codes of three neighbouring half minutes.
use Prim.Native.Char.{code}
use Prim.Native.String.{◌++◌}
use nexvary_panel.Base.{
  ℕ, zero, suc, ◌+◌, ◌-◌, ◌*◌, ◌/◌, ◌%◌, ◌^◌, ◌≤◌, ◌<◌, String, ◌==◌, ◌≡◌, refl, ◌⊎◌, inl, inr,
  Bool, true, Option, none, some, List, [], ◌∷◌, arith, eq_iff, leb, Option-cases,
}
use nexvary_panel.Base.Lists.{length}
use nexvary_panel.Base.Text.{chars, all_chars, is_digit, truthy, upper, compare_digest}
use nexvary_panel.Security.Store.{Crypto}
use nexvary_panel.Security.Totp.{
  code_at, totp, verify_totp_secret, truncate, six_digits, digit, matches, any_of, totp_before,
  padding, last, unpack_u32, pack_u64,
}

digit-is_digit : (n : ℕ) → is_digit (code (digit n)) ≡ true
unfolding digit
digit-is_digit zero = refl
digit-is_digit (suc zero) = refl
digit-is_digit (suc (suc zero)) = refl
digit-is_digit (suc (suc (suc zero))) = refl
digit-is_digit (suc (suc (suc (suc zero)))) = refl
digit-is_digit (suc (suc (suc (suc (suc zero))))) = refl
digit-is_digit (suc (suc (suc (suc (suc (suc zero)))))) = refl
digit-is_digit (suc (suc (suc (suc (suc (suc (suc zero))))))) = refl
digit-is_digit (suc (suc (suc (suc (suc (suc (suc (suc zero)))))))) = refl
digit-is_digit (suc (suc (suc (suc (suc (suc (suc (suc (suc zero))))))))) = refl
digit-is_digit (suc (suc (suc (suc (suc (suc (suc (suc (suc (suc n)))))))))) = refl

abbrev IsCode : String → Type 0
IsCode s = (all_chars is_digit s ≡ true) × (chars s ≡ 6)

six_digits-IsCode : (v : ℕ) → IsCode (six_digits v)
unfolding six_digits all_chars chars
six_digits-IsCode v = (
  rw (
    digit-is_digit (v / 100_000 % 10),
    digit-is_digit (v / 10_000 % 10),
    digit-is_digit (v / 1_000 % 10),
    digit-is_digit (v / 100 % 10),
    digit-is_digit (v / 10 % 10),
    digit-is_digit (v % 10),
  ),
  refl,
)

truncate-IsCode : (digest : List ℕ) (s : String) → truncate digest ≡ some s → IsCode s
unfolding truncate
truncate-IsCode digest s h = elim (Option-cases (last digest)) [
  | inl empty ↦ absurd (ground arith)
  | inr (b, e) ↦ elim (Option-cases (unpack_u32 (b % 16) digest)) [
    | inl short ↦ absurd (ground arith)
    | inr (word, e') ↦
        let same : s ≡ six_digits (word % 2 ^ 31 % 1_000_000) = ground arith in
        rw same (six_digits-IsCode (word % 2 ^ 31 % 1_000_000))
  ]
]

code_at-IsCode :
    (c : Crypto) (secret : String) (k : ℕ) (s : String) → code_at c secret k ≡ some s → IsCode s
unfolding code_at
code_at-IsCode c secret k s h =
    elim (Option-cases (c.b32decode (upper secret ++ padding ((8 - chars secret % 8) % 8)))) [
      | inl refused ↦ absurd (ground arith)
      | inr (key, e) ↦ truncate-IsCode (c.hmac_sha1 key (pack_u64 k)) s (ground arith)
    ]

matches-eq : (o : Option String) (otp : String) → matches o otp ≡ some true → o ≡ some otp
unfolding matches compare_digest
matches-eq none otp h = absurd (cc)
matches-eq (some e) otp h = ground (arith, eq_iff e otp)

any_of_three :
    (a b c : Option Bool)
    → any_of (a ∷ b ∷ c ∷ []) ≡ true
    → (a ≡ some true) ⊎ (b ≡ some true) ⊎ (c ≡ some true)
unfolding any_of
any_of_three a b c h = ground arith

totp_before-some :
    (c : Crypto) (secret otp : String) (now : ℕ)
    → totp_before c secret now ≡ some otp
    → (30 ≤ now) × (code_at c secret ((now - 30) / 30) ≡ some otp)
unfolding totp_before totp
totp_before-some c secret otp now h = ground arith

-- A code that is accepted is the code of the present half minute or of one beside it.
pub accepted_in_window :
    (c : Crypto) (secret otp : String) (now : ℕ)
    → verify_totp_secret c secret otp now ≡ true
    → (k : ℕ) × (now / 30 ≤ k + 1) × (k ≤ now / 30 + 1) × (code_at c secret k ≡ some otp)
unfolding verify_totp_secret totp
accepted_in_window c secret otp now h =
    elim (any_of_three (matches (totp_before c secret now) otp) (matches (totp c secret now) otp)
      (matches (totp c secret (now + 30)) otp) (ground arith)) [
        | inl before ↦
            let (late, e) = totp_before-some c secret otp now (matches-eq _ otp before) in
            ((now - 30) / 30, omega arith, omega arith, e)
        | inr (inl present) ↦ (now / 30, omega arith, omega arith, matches-eq _ otp present)
        | inr (inr after) ↦ ((now + 30) / 30, omega arith, omega arith, matches-eq _ otp after)
      ]

last-some : (bs : List ℕ) → 0 < length bs → (b : ℕ) × (last bs ≡ some b)
unfolding last
last-some [] h = absurd (omega arith)
last-some (b ∷ []) h = (b, refl)
last-some (b ∷ c ∷ bs) h = last-some (c ∷ bs) (omega arith)

unpack_u32-some : (n : ℕ) (bs : List ℕ) → n + 4 ≤ length bs → (w : ℕ) × (unpack_u32 n bs ≡ some w)
unfolding unpack_u32
unpack_u32-some zero (a ∷ b ∷ c ∷ d ∷ bs) h = (a * 2 ^ 24 + b * 2 ^ 16 + c * 2 ^ 8 + d, refl)
unpack_u32-some zero [] h = absurd (omega arith)
unpack_u32-some zero (a ∷ []) h = absurd (omega arith)
unpack_u32-some zero (a ∷ b ∷ []) h = absurd (omega arith)
unpack_u32-some zero (a ∷ b ∷ c ∷ []) h = absurd (omega arith)
unpack_u32-some (suc n) [] h = absurd (omega arith)
unpack_u32-some (suc n) (b ∷ bs) h = unpack_u32-some n bs (omega arith)

truncate-some : (digest : List ℕ) → length digest ≡ 20 → (s : String) × (truncate digest ≡ some s)
unfolding truncate
truncate-some digest h =
    let (b, e) = last-some digest (omega arith) in
    let (w, e') = unpack_u32-some (b % 16) digest (omega arith) in
    (six_digits (w % 2 ^ 31 % 1_000_000), ground arith)

-- HMAC-SHA1 gives twenty bytes.
abbrev pub GivesDigests : Crypto → Type 0
GivesDigests c = (key msg : List ℕ) → length (c.hmac_sha1 key msg) ≡ 20

-- Where a secret has a code at one time it has one at every other.
code_at-some :
    (c : Crypto) (secret otp : String) (k j : ℕ)
    → GivesDigests c
    → code_at c secret k ≡ some otp
    → j < 2 ^ 64
    → (s : String) × (code_at c secret j ≡ some s)
unfolding code_at
code_at-some c secret otp k j g h small =
    elim (Option-cases (c.b32decode (upper secret ++ padding ((8 - chars secret % 8) % 8)))) [
      | inl refused ↦ absurd (ground arith)
      | inr (key, e) ↦
          let (s, t) = truncate-some (c.hmac_sha1 key (pack_u64 j)) (g key (pack_u64 j)) in
          (s, ground arith)
    ]

digits_ascii : (s : String) → all_chars is_digit s ≡ true → all_chars (λ n. leb n 127) s ≡ true
unfolding all_chars
digits_ascii String.[] h = refl
digits_ascii (String.◌∷◌ ch s) h = ground (arith, digits_ascii s)

matches-code : (s otp : String) → IsCode s → IsCode otp → matches (some s) otp ≡ some (s == otp)
unfolding matches compare_digest
matches-code s otp h k = rw (digits_ascii s h.0, digits_ascii otp k.0)

any_of_codes :
    (s₀ s₁ s₂ otp : String)
    → IsCode s₀
    → IsCode s₁
    → IsCode s₂
    → IsCode otp
    → (s₀ ≡ otp) ⊎ (s₁ ≡ otp) ⊎ (s₂ ≡ otp)
    → any_of (matches (some s₀) otp ∷ matches (some s₁) otp ∷ matches (some s₂) otp ∷ []) ≡ true
unfolding any_of
any_of_codes s₀ s₁ s₂ otp h₀ h₁ h₂ k one = ground (
  arith,
  matches-code s₀ otp h₀ k,
  matches-code s₁ otp h₁ k,
  matches-code s₂ otp h₂ k,
  eq_iff s₀ otp,
  eq_iff s₁ otp,
  eq_iff s₂ otp,
)

which_code :
    (c : Crypto) (secret otp s₀ s₁ s₂ : String) (now k : ℕ)
    → 30 ≤ now
    → now / 30 ≤ k + 1
    → k ≤ now / 30 + 1
    → code_at c secret k ≡ some otp
    → code_at c secret ((now - 30) / 30) ≡ some s₀
    → code_at c secret (now / 30) ≡ some s₁
    → code_at c secret ((now + 30) / 30) ≡ some s₂
    → (s₀ ≡ otp) ⊎ (s₁ ≡ otp) ⊎ (s₂ ≡ otp)
which_code c secret otp s₀ s₁ s₂ now k late low high h e₀ e₁ e₂ =
    let at : (k ≡ (now - 30) / 30) ⊎ (k ≡ now / 30) ⊎ (k ≡ (now + 30) / 30) = omega arith in
    ground arith

-- The code of the present half minute, or of one beside it, is accepted, given that
-- the secret can be decoded.
pub window_accepted :
    (c : Crypto) (secret otp : String) (now k : ℕ)
    → GivesDigests c
    → truthy secret ≡ true
    → 30 ≤ now
    → now < 2 ^ 64
    → now / 30 ≤ k + 1
    → k ≤ now / 30 + 1
    → code_at c secret k ≡ some otp
    → verify_totp_secret c secret otp now ≡ true
unfolding verify_totp_secret totp totp_before
window_accepted c secret otp now k g filled late small low high h =
    let (digits, six) = code_at-IsCode c secret k otp h in
    let (s₀, e₀) = code_at-some c secret otp k ((now - 30) / 30) g h (omega arith) in
    let (s₁, e₁) = code_at-some c secret otp k (now / 30) g h (omega arith) in
    let (s₂, e₂) = code_at-some c secret otp k ((now + 30) / 30) g h (omega arith) in
    let one = which_code c secret otp s₀ s₁ s₂ now k late low high h e₀ e₁ e₂ in
    ground (
      arith,
      any_of_codes s₀ s₁ s₂ otp (code_at-IsCode c secret ((now - 30) / 30) s₀ e₀)
          (code_at-IsCode c secret (now / 30) s₁ e₁)
          (code_at-IsCode c secret ((now + 30) / 30) s₂ e₂) (digits, six) one,
    )
