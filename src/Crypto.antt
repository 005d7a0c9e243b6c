-- ===== src/Crypto.antt =====
-- The encryption of the credentials of target databases: apps/api/src/crypto/encryption.util.ts. The
-- cipher and UTF-8 are the runtime's, a parameter with the laws that the round trip needs.
pub mod RoundTrip
use dbflow.Common.{
  ℕ, ◌+◌, ◌-◌, ◌*◌, ◌/◌, ◌%◌, ◌<◌, ◌≡◌, refl, ◌⊎◌, inl, inr, List, [], ◌∷◌, Option, none, some,
  if◌then◌else◌, ltb, leb, ◌==◌, ◌&&◌, length, All, join, split,
}
use dbflow.Store.{Text}

-- `createCipheriv` and `createDecipheriv` with AES-256-GCM, and UTF-8. `unseal` is null where
-- the tag does not fit or the sizes are refused.
pub record Cipher : Type 0 where
  pub utf8 : Text → List ℕ
  pub of_utf8 : List ℕ → Text
  pub seal : List ℕ → List ℕ → List ℕ → List ℕ × List ℕ
  pub unseal : List ℕ → List ℕ → List ℕ → List ℕ → Option (List ℕ)

abbrev pub AreBytes : List ℕ → Type 0
AreBytes bytes = All (λ b. b < 256) bytes

-- A decipher given the key, the nonce and the tag of a sealed text gives the text back.
pub record IsCipher (c : Cipher) : Type 0 where
  pub of_utf8_utf8 : (t : Text) → c.of_utf8 (c.utf8 t) ≡ t
  pub tag_bytes : (key iv plain : List ℕ) → AreBytes (c.seal key iv plain).0
  pub sealed_bytes : (key iv plain : List ℕ) → AreBytes (c.seal key iv plain).1
  pub unseal_seal :
      (key iv plain : List ℕ)
      → c.unseal key iv (c.seal key iv plain).0 (c.seal key iv plain).1 ≡ some plain

abbrev pub hex_digit : ℕ → ℕ
hex_digit n = if ltb n 10 then n + 48 else n + 87

-- `buffer.toString('hex')`.
unfoldable pub to_hex : List ℕ → Text
to_hex [] = []
to_hex (b ∷ bytes) = hex_digit (b / 16) ∷ hex_digit (b % 16) ∷ to_hex bytes

abbrev pub hex_value : ℕ → Option ℕ
hex_value c =
    if leb 48 c && leb c 57
    then some (c - 48)
    else if leb 97 c && leb c 102
    then some (c - 87)
    else if leb 65 c && leb c 70
    then some (c - 55)
    else none

abbrev pub byte_of : Option ℕ → Option ℕ → List ℕ → List ℕ
byte_of (some h) (some l) rest = (h * 16 + l) ∷ rest
byte_of _ _ rest = []

-- `Buffer.from(text, 'hex')`, which stops at the first pair that is no byte.
unfoldable pub of_hex : Text → List ℕ
of_hex [] = []
of_hex (h ∷ []) = []
of_hex (h ∷ l ∷ s) = byte_of (hex_value h) (hex_value l) (of_hex s)

pub data SecretError : Type 0 where
  key_missing payload_format not_authentic : SecretError
  key_length : ℕ → SecretError

-- `loadKey`, of the variable APP_ENCRYPTION_KEY.
unfoldable pub load_key : Option Text → SecretError ⊎ List ℕ
unfolding of_hex
load_key none = inl SecretError.key_missing
load_key (some []) = inl SecretError.key_missing
load_key (some (c ∷ s)) =
    let key = of_hex (c ∷ s) in
    if length key == 32 then inr key else inl (SecretError.key_length (length key))

module _ (cipher : Cipher) where
  open cipher use {utf8, of_utf8, seal, unseal}

  abbrev payload : List ℕ → List ℕ × List ℕ → Text
  payload iv (tag, sealed) = join (58 ∷ []) (to_hex iv ∷ to_hex tag ∷ to_hex sealed ∷ [])

  -- `encryptSecret`, with the random nonce.
  unfoldable pub encrypt_secret : Option Text → List ℕ → Text → SecretError ⊎ Text
  unfolding load_key to_hex join
  encrypt_secret variable iv plaintext = elim (load_key variable) [
    | inl e ↦ inl e
    | inr key ↦ inr (payload iv (seal key iv (utf8 plaintext)))
  ]

  unfoldable pub open_parts : List ℕ → List Text → SecretError ⊎ Text
  unfolding of_hex
  open_parts key (iv ∷ tag ∷ sealed ∷ []) =
      elim (unseal key (of_hex iv) (of_hex tag) (of_hex sealed)) [
        | none ↦ inl SecretError.not_authentic
        | some plain ↦ inr (of_utf8 plain)
      ]
  open_parts key _ = inl SecretError.payload_format

  -- `decryptSecret`.
  unfoldable pub decrypt_secret : Option Text → Text → SecretError ⊎ Text
  unfolding load_key open_parts split
  decrypt_secret variable text = elim (load_key variable) [
    | inl e ↦ inl e
    | inr key ↦ open_parts key (split 58 text)
  ]
