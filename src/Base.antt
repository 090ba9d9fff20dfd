-- ===== src/Base.antt =====
-- The names that every part shares: the libraries', passed on, Boolean tests on numbers, the
-- conditional and the HTTP answers of the handlers. It models no file of its own.
mod Tests
pub mod Lists
pub mod Text
pub mod Int
pub mod Sets
pub mod Json
pub mod Names
pub use Tests.*
pub use Prim.Native.Nat.{ℕ, zero, suc, ◌+◌, ◌-◌, ◌*◌, ◌/◌, ◌%◌, ◌^◌, ◌≤◌, ◌<◌}
pub use Prim.Native.String.{String}
pub use mathlib.Core.Path.{◌≡◌, refl, sym, ap, ◌∙◌}
pub use mathlib.Core.Logic.{◌≢◌, ◌↔◌, ◌⊎◌, inl, inr}
pub use mathlib.Core.Bool.{Bool, true, false, not, ◌&&◌, ◌||◌}
pub use mathlib.Core.Option.{Option, none, some}
pub use mathlib.Core.List.{List, [], ◌∷◌, ◌++◌, map}
pub use native.Mathlib.Omega.{arith}
pub use text.Mathlib.Text.{◌==◌ as str_eq, starts_with}
pub use text.Mathlib.TextEquality.{eq_iff}

-- What a Flask handler answers: `jsonify(ok=True, …), status` with a payload,
-- `jsonify(ok=False, error=…), status`, `redirect(…)`, or an exception that no handler catches.
pub data Reply {ℓ} (A : Type ℓ) : Type ℓ where
  done : ℕ → A → Reply A
  fail : ℕ → String → Reply A
  redirect : String → Reply A
  raised : String → Reply A

-- `hmac.compare_digest` on texts, `in` on a set of texts
infix 50 ◌==◌
abbrev pub ◌==◌ : String → String → Bool
s == t = str_eq s t

-- an answer with no payload of its own
abbrev pub NoBody : Type 0
NoBody = Unit

-- a result that an exception may cut off
infixl 1 ◌>>=◌
abbrev pub ◌>>=◌ {ℓ κ} : {A : Type ℓ} {B : Type κ} → Option A → (A → Option B) → Option B
none >>= f = none
some a >>= f = f a

-- What a chain that gives a result has gone through.
pub bind_some {ℓ κ} :
    {A : Type ℓ} {B : Type κ} (o : Option A) (f : A → Option B) {b : B}
    → (o >>= f) ≡ some b
    → (a : A) × (o ≡ some a) × (f a ≡ some b)
bind_some none f h = absurd (cc)
bind_some (some a) f h = (a, refl, h)
