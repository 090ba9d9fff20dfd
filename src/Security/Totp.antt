-- ===== src/Security/Totp.antt =====
-- One-time codes: `_totp`, `verify_totp_secret`, `totp_enabled_for` and `verify_totp` of
-- panel/security.py.
pub mod Window
use Prim.Native.Char.{Char, code}
use Prim.Native.String
use Prim.Native.String.{◌++◌}
use nexvary_panel.Base.{
  ℕ, zero, suc, ◌+◌, ◌-◌, ◌*◌, ◌/◌, ◌%◌, ◌^◌, ◌≤◌, ◌<◌, String, ◌==◌, ◌≡◌, refl, Bool, true, false,
  not, ◌&&◌, ◌||◌, Option, none, some, List, [], ◌∷◌, arith, eqb, ltb, leb, if◌then◌else◌,
}
use nexvary_panel.Base.Lists.{find, length}
use nexvary_panel.Base.Text.{
  chars, all_chars, is_digit, nth_char, upper, truthy, compare_digest, strip,
}
use nexvary_panel.Security.Store.{Crypto, Db, UserSecurity}

-- `"=" * n`
padding : ℕ → String
padding zero = ""
padding (suc n) = "=" ++ padding n

-- `struct.pack(">Q", counter)`: eight bytes, the highest first
unfoldable pub pack_u64 : ℕ → List ℕ
pack_u64 n =
    n / 2 ^ 56 % 256
    ∷ n / 2 ^ 48 % 256
    ∷ n / 2 ^ 40 % 256
    ∷ n / 2 ^ 32 % 256
    ∷ n / 2 ^ 24 % 256
    ∷ n / 2 ^ 16 % 256
    ∷ n / 2 ^ 8 % 256
    ∷ n % 256
    ∷ []

-- `digest[-1]`
last : List ℕ → Option ℕ
last [] = none
last (b ∷ []) = some b
last (b ∷ c ∷ bs) = last (c ∷ bs)

-- `struct.unpack(">I", digest[offset:offset + 4])[0]`
unpack_u32 : ℕ → List ℕ → Option ℕ
unpack_u32 zero (a ∷ b ∷ c ∷ d ∷ bs) = some (a * 2 ^ 24 + b * 2 ^ 16 + c * 2 ^ 8 + d)
unpack_u32 (suc n) (b ∷ bs) = unpack_u32 n bs
unpack_u32 _ _ = none

digit : ℕ → Char
unfolding nth_char
digit n = nth_char n "0123456789" (Char.char b'0' tt)

-- `f"{value:06d}"` below a million
six_digits : ℕ → String
unfolding digit
six_digits v = String.◌∷◌ (digit (v / 100_000 % 10)) (
    String.◌∷◌ (digit (v / 10_000 % 10)) (
      String.◌∷◌ (digit (v / 1_000 % 10)) (
        String.◌∷◌ (digit (v / 100 % 10))
          (String.◌∷◌ (digit (v / 10 % 10)) (String.◌∷◌ (digit (v % 10)) String.[])))))

-- `& 0x0F`, `& 0x7FFFFFFF` and `% 1_000_000` on the digest's last byte and on the word at its place
truncate : List ℕ → Option String
unfolding last unpack_u32 six_digits
truncate digest = elim (last digest) [
  | none ↦ none
  | some b ↦ elim (unpack_u32 (b % 16) digest) [
    | none ↦ none
    | some word ↦ some (six_digits (word % 2 ^ 31 % 1_000_000))
  ]
]

-- The code of a secret at a count of half minutes. A count of 64 bits or more is a `struct.error`.
unfoldable pub code_at : Crypto → String → ℕ → Option String
unfolding padding truncate
code_at c secret counter =
    if ltb counter (2 ^ 64)
    then (elim (c.b32decode (upper secret ++ padding ((8 - chars secret % 8) % 8))) [
      | none ↦ none
      | some key ↦ truncate (c.hmac_sha1 key (pack_u64 counter))
    ])
    else none

-- `_totp(secret, timestamp)`
unfoldable pub totp : Crypto → String → ℕ → Option String
totp c secret timestamp = code_at c secret (timestamp / 30)

-- `hmac.compare_digest(_totp(secret, t), code)`
matches : Option String → String → Option Bool
matches none otp = none
matches (some expected) otp = compare_digest expected otp

-- `any(… for delta in (-1, 0, 1))` inside `try … except Exception: return False`
any_of : List (Option Bool) → Bool
any_of [] = false
any_of (none ∷ rest) = false
any_of (some true ∷ rest) = true
any_of (some false ∷ rest) = any_of rest

-- `_totp` at a time before 1970 raises.
totp_before : Crypto → String → ℕ → Option String
totp_before c secret now = if ltb now 30 then none else totp c secret (now - 30)

unfoldable pub verify_totp_secret : Crypto → String → String → ℕ → Bool
unfolding matches any_of totp_before
verify_totp_secret c secret otp now =
    if not (truthy secret) || not (all_chars is_digit otp) || not (eqb (chars otp) 6)
    then false
    else any_of (
        matches (totp_before c secret now) otp
        ∷ matches (totp c secret now) otp
        ∷ matches (totp c secret (now + 30)) otp
        ∷ [])

-- `SELECT … FROM user_security WHERE username=?`
unfoldable pub security_row : Db → String → Option UserSecurity
security_row db username = find (λ (r : UserSecurity). r.username == username) db.security

unfoldable pub totp_enabled_for : Db → String → Bool
totp_enabled_for db username =
    if truthy username
    then (elim (security_row db username) [ none ↦ false | some r ↦ r.totp_enabled ])
    else false

unfoldable pub verify_totp : Crypto → Db → String → String → ℕ → Bool
verify_totp c db username otp now = elim (security_row db username) [
  | none ↦ false
  | some r ↦ r.totp_enabled && verify_totp_secret c r.totp_secret otp now
]
