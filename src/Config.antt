-- ===== src/Config.antt =====
-- The checks of the environment before the API starts (apps/api/src/config/validate-env.ts), and that
-- what they let through is a key of Crypto. Whether a text names a time zone is the runtime's.
use dbflow.Common.{
  ℕ, zero, suc, Option-cases, ◌+◌, ◌≡◌, refl, inl, inr, Bool, true, false, not, ◌&&◌, ◌||◌, List,
  [], ◌∷◌, ◌++◌, Option, none, some, if◌then◌else◌, ltb, ◌==◌, length, is_some, same_text, arith,
}
use dbflow.Store.{Text}
use dbflow.Sql.Regex.{codes}
use dbflow.Crypto.{hex_value, of_hex, load_key}

pub record Env : Type 0 where
  pub jwt_secret : Option Text
  pub app_encryption_key : Option Text
  pub dbflow_tz : Option Text

pub data EnvError : Type 0 where
  jwt_secret_weak encryption_key_invalid time_zone_invalid : EnvError

abbrev all_of : (ℕ → Bool) → Text → Bool
all_of test [] = true
all_of test (c ∷ s) = test c && all_of test s

-- `text.length`: a character above the basic plane counts twice.
abbrev units : Text → ℕ
units [] = 0
units (c ∷ s) = (if ltb c 65536 then 1 else 2) + units s

abbrev is_hex : ℕ → Bool
is_hex c = is_some (hex_value c)

abbrev weak_secret : Option Text → Bool
weak_secret none = true
weak_secret (some s) =
    same_text s [] || (same_text s (codes "change-me-in-prod") || ltb (units s) 16)

-- Not `/^[0-9a-fA-F]{64}$/`, or only zeros.
abbrev bad_key : Option Text → Bool
bad_key none = true
bad_key (some s) = not ((length s == 64) && all_of is_hex s) || all_of (λ c. c == b'0') s

abbrev bad_zone : (Text → Bool) → Option Text → Bool
bad_zone is_zone none = false
bad_zone is_zone (some []) = false
bad_zone is_zone (some (c ∷ s)) = not (is_zone (c ∷ s))

abbrev reported : Bool → EnvError → List EnvError
reported test e = if test then e ∷ [] else []

-- `validateEnv`.
unfoldable pub validate_env : (Text → Bool) → Env → List EnvError
validate_env is_zone env =
    reported (weak_secret env.jwt_secret) EnvError.jwt_secret_weak
    ++ (reported (bad_key env.app_encryption_key) EnvError.encryption_key_invalid
        ++ reported (bad_zone is_zone env.dbflow_tz) EnvError.time_zone_invalid)

abbrev is_nil : List EnvError → Bool
is_nil [] = true
is_nil (e ∷ es) = false

-- The start: `process.exit(1)` on any error, except in tests.
unfoldable pub may_start : (Text → Bool) → Bool → Env → Bool
unfolding validate_env
may_start is_zone is_test env = is_test || is_nil (validate_env is_zone env)

length-of_hex :
    (n : ℕ) (s : Text) → length s ≡ n + n → all_of is_hex s ≡ true → length (of_hex s) ≡ n
unfolding of_hex
length-of_hex n [] l h = omega arith
length-of_hex n (c ∷ []) l h = absurd (omega arith)
length-of_hex zero (c ∷ d ∷ s) l h = absurd (omega arith)
length-of_hex (suc n) (c ∷ d ∷ s) l h = elim (Option-cases (hex_value c)) [
  | inl none' ↦ absurd (ground arith)
  | inr (x, high) ↦ elim (Option-cases (hex_value d)) [
    | inl none' ↦ absurd (ground arith)
    | inr (y, low) ↦
        let rest : length (of_hex s) ≡ n = length-of_hex n s (omega arith) (ground arith) in
        rw (high, low) (omega (arith, rest))
  ]
]

bad_key-load_key :
    (variable : Option Text)
    → bad_key variable ≡ false
    → (key : List ℕ) × (load_key variable ≡ inr key) × (length key ≡ 32)
unfolding load_key
bad_key-load_key none h = absurd (ground arith)
bad_key-load_key (some []) h = absurd (ground arith)
bad_key-load_key (some (c ∷ s)) h =
    let size : length (c ∷ s) ≡ 32 + 32 = ground arith in
    let digits : all_of is_hex (c ∷ s) ≡ true = ground arith in
    let key_size = length-of_hex 32 (c ∷ s) size digits in
    (of_hex (c ∷ s), rw key_size refl, key_size)

-- Outside tests, an API that starts has a key of 32 bytes for the credentials.
pub may_start-load_key :
    (is_zone : Text → Bool) (env : Env)
    → may_start is_zone false env ≡ true
    → (key : List ℕ) × (load_key env.app_encryption_key ≡ inr key) × (length key ≡ 32)
unfolding may_start
may_start-load_key is_zone env h = bad_key-load_key env.app_encryption_key (ground arith)
