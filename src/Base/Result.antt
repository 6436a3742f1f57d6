-- ===== src/Base/Result.antt =====
-- Code that may raise: the exception's class and what `str(e)` says.
use Prim.Native.String.{String}
use mathlib.Core.Path.{◌≡◌, refl, ap, ◌∙◌}
use mathlib.Core.Logic.{◌⊎◌, inl, inr}

-- `value_error` is a `ValueError` that is no `JSONDecodeError`. `lone_surrogate` is no exception: it
-- stands for a text with a lone surrogate, which Python has and the native texts have not, and no
-- `except` clause of the model takes it for one of its own.
pub data Error : Type 0 where
  attribute_error json_decode_error value_error context_error recursion_error : String → Error
  lone_surrogate other_error : String → Error

-- `str(e)`
abbrev pub message : Error → String
message (attribute_error s) = s
message (json_decode_error s) = s
message (value_error s) = s
message (context_error s) = s
message (lone_surrogate s) = s
message (recursion_error s) = s
message (other_error s) = s

-- What a Python call comes to.
pub data Result {ℓ} (V : Type ℓ) : Type ℓ where
  raise : Error → Result V
  ok : V → Result V

-- Each of two lets the exception pass.
infixl 5 ◌>>=◌
abbrev pub ◌>>=◌ {κ ℓ} : {V : Type κ} {W : Type ℓ} → Result V → (V → Result W) → Result W
raise e >>= next_call = raise e
ok v >>= next_call = next_call v

pub ok-injective {ℓ} : {V : Type ℓ} {v w : V} → ok v ≡ ok w → v ≡ w
ok-injective same = cc

pub Result-cases {ℓ} :
    {V : Type ℓ} (call : Result V) → ((v : V) × (call ≡ ok v)) ⊎ ((e : Error) × (call ≡ raise e))
Result-cases (raise e) = inr (e, refl)
Result-cases (ok v) = inl (v, refl)

-- A chain that returns has returned at its first step.
pub bind-eq-ok {κ ℓ} :
    {V : Type κ} {W : Type ℓ} (call : Result V) (next_call : V → Result W) {w : W}
    → (call >>= next_call) ≡ ok w
    → (v : V) × (call ≡ ok v) × (next_call v ≡ ok w)
bind-eq-ok (raise e) next_call returned = cc
bind-eq-ok (ok v) next_call returned = (v, refl, returned)

-- Two calls that return pass their values on.
pub bind_ok_ok {κ ℓ μ} :
    {V : Type κ} {W : Type ℓ} {U : Type μ} {a : Result V} {b : Result W}
    (next_call : V → W → Result U) {v : V} {w : W}
    → a ≡ ok v
    → b ≡ ok w
    → (a >>= λ x. b >>= λ y. next_call x y) ≡ next_call v w
bind_ok_ok {b = b} next_call {v = v} ha hb =
    ap (λ r. r >>= λ x. b >>= λ y. next_call x y) ha ∙ ap (λ r. r >>= λ y. next_call v y) hb
