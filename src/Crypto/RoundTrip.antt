-- ===== src/Crypto/RoundTrip.antt =====
-- What is encrypted is decrypted again, and when decryption succeeds (Crypto).
use dbflow.Common.{
  ℕ, ◌+◌, ◌*◌, ◌/◌, ◌%◌, ◌<◌, ◌≡◌, refl, sym, ◌∙◌, ap, ◌⊎◌, inl, inr, List, [], ◌∷◌, Option, some,
  join, split, Lacks, split-join, arith,
}
use dbflow.Store.{Text}
use dbflow.Crypto.{
  Cipher, IsCipher, AreBytes, hex_digit, hex_value, to_hex, of_hex, load_key, encrypt_secret,
  open_parts, decrypt_secret,
}

hex_value-hex_digit : (n : ℕ) → n < 16 → hex_value (hex_digit n) ≡ some n
hex_value-hex_digit n h = ground arith

of_hex-to_hex : (bytes : List ℕ) → AreBytes bytes → of_hex (to_hex bytes) ≡ bytes
unfolding of_hex to_hex
of_hex-to_hex [] h = refl
of_hex-to_hex (b ∷ bytes) h =
    let high : b / 16 < 16 = omega arith in
    let low : b % 16 < 16 = omega arith in
    let whole : (b / 16) * 16 + b % 16 ≡ b = omega arith in
    rw (hex_value-hex_digit (b / 16) high, hex_value-hex_digit (b % 16) low)
      (ap (λ x. x ∷ of_hex (to_hex bytes)) whole ∙ ap (λ r. b ∷ r) (of_hex-to_hex bytes h.1))

Sum-cases : {A B : Type 0} (s : A ⊎ B) → ((a : A) × (s ≡ inl a)) ⊎ ((b : B) × (s ≡ inr b))
Sum-cases (inl a) = inl (a, refl)
Sum-cases (inr b) = inr (b, refl)

to_hex-Lacks : (bytes : List ℕ) → AreBytes bytes → Lacks 58 (to_hex bytes)
unfolding to_hex
to_hex-Lacks [] h = refl
to_hex-Lacks (b ∷ bytes) h = ground (arith, to_hex-Lacks bytes h.1)

module _ (cipher : Cipher) (laws : IsCipher cipher) where
  open cipher use {utf8, of_utf8, seal, unseal}

  open_parts-eq :
      (key : List ℕ) (a b c : Text) {a' b' c' p : List ℕ}
      → of_hex a ≡ a'
      → of_hex b ≡ b'
      → of_hex c ≡ c'
      → unseal key a' b' c' ≡ some p
      → open_parts cipher key (a ∷ b ∷ c ∷ []) ≡ inr (of_utf8 p)
  unfolding open_parts
  open_parts-eq key a b c {p = p} x y z h =
      let opened : unseal key (of_hex a) (of_hex b) (of_hex c) ≡ some p = rw (x, y, z) h in
      ground arith

  open_parts-seal :
      (key iv : List ℕ) (plaintext : Text)
      → AreBytes iv
      → open_parts cipher key (
          to_hex iv
          ∷ to_hex (seal key iv (utf8 plaintext)).0
          ∷ to_hex (seal key iv (utf8 plaintext)).1
          ∷ [])
        ≡ inr plaintext
  open_parts-seal key iv plaintext bytes =
      let plain = utf8 plaintext in
      open_parts-eq key (to_hex iv) (to_hex (seal key iv plain).0) (to_hex (seal key iv plain).1)
        (of_hex-to_hex iv bytes) (of_hex-to_hex (seal key iv plain).0 (laws.tag_bytes key iv plain))
        (of_hex-to_hex (seal key iv plain).1 (laws.sealed_bytes key iv plain))
        (laws.unseal_seal key iv plain)
      ∙ ap inr (laws.of_utf8_utf8 plaintext)

  -- What was encrypted under a key, with any nonce of bytes, is decrypted under it to the same text.
  pub decrypt_secret-encrypt_secret :
      (variable : Option Text) (iv : List ℕ) (plaintext text : Text)
      → AreBytes iv
      → encrypt_secret cipher variable iv plaintext ≡ inr text
      → decrypt_secret cipher variable text ≡ inr plaintext
  unfolding encrypt_secret decrypt_secret
  decrypt_secret-encrypt_secret variable iv plaintext text bytes e =
      elim (Sum-cases (load_key variable)) [
        | inl (failure, bad) ↦ absurd (ground arith)
        | inr (key, good) ↦
            let sealed = seal key iv (utf8 plaintext) in
            let written : join (58 ∷ []) (to_hex iv ∷ to_hex sealed.0 ∷ to_hex sealed.1 ∷ [])
                ≡ text =
              ground arith in
            let parts : split 58 text ≡ to_hex iv ∷ to_hex sealed.0 ∷ to_hex sealed.1 ∷ [] =
              ap (split 58) (sym written)
              ∙ split-join 58 (to_hex iv) (to_hex sealed.0 ∷ to_hex sealed.1 ∷ [])
                  (to_hex-Lacks iv bytes)
                  (
                    to_hex-Lacks sealed.0 (laws.tag_bytes key iv (utf8 plaintext)),
                    (to_hex-Lacks sealed.1 (laws.sealed_bytes key iv (utf8 plaintext)), tt),
                  ) in
            let step : decrypt_secret cipher variable text ≡ open_parts cipher key (split 58 text) =
              ground arith in
            step ∙ ap (open_parts cipher key) parts ∙ open_parts-seal key iv plaintext bytes
      ]
