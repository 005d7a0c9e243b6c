-- ===== src/Tests/Targets.antt =====
-- Examples of the credentials and the visibility of the target databases.
use dbflow.Common.{
  ℕ, zero, suc, ◌+◌, ◌==◌, if◌then◌else◌, sym, ap, ◌∙◌, ◌≡◌, ◌↔◌, refl, inl, inr, List, [], ◌∷◌,
  Option, none, some, In, arith,
}
use dbflow.Store.{Text, DbType, TargetEnv, Status, Db, ok}
use dbflow.Sql.Regex.{codes}
use dbflow.Crypto.{Cipher, IsCipher, AreBytes, encrypt_secret, decrypt_secret}
use dbflow.Crypto.RoundTrip.{decrypt_secret-encrypt_secret}
use dbflow.TargetDatabases.{CreateTargetDto, SanitizedTargetDatabase, find_target_for, list_targets}
use dbflow.TargetDatabases.Visible.{HaveUniqueKeys, find_target_for_iff}
use dbflow.TargetDatabases.Credentials.{
  TargetRequest, serve_all, AreReadable, serve_all-AreReadable,
}
use dbflow.Tests.Fixtures.{ctx, approver, db_with}

-- A number as so many ones and a zero.
ones : ℕ → List ℕ → List ℕ
ones zero rest = 0 ∷ rest
ones (suc n) rest = 1 ∷ ones n rest

unary : List ℕ → List ℕ
unary [] = []
unary (n ∷ s) = ones n (unary s)

of_unary : ℕ → List ℕ → List ℕ
of_unary n [] = []
of_unary n (b ∷ s) =
    let more = of_unary (n + 1) s in let next = n ∷ of_unary 0 s in if b == 0 then next else more

of_unary-ones : (k n : ℕ) (rest : List ℕ) → of_unary k (ones n rest) ≡ (k + n) ∷ of_unary 0 rest
unfolding ones of_unary
of_unary-ones k zero rest = ground arith
of_unary-ones k (suc n) rest = ground (arith, of_unary-ones (k + 1) n rest)

of_unary-unary : (s : List ℕ) → of_unary 0 (unary s) ≡ s
unfolding unary of_unary
of_unary-unary [] = refl
of_unary-unary (n ∷ s) = ground (arith, of_unary-ones 0 n (unary s), of_unary-unary s)

ones-AreBytes : (n : ℕ) (rest : List ℕ) → AreBytes rest → AreBytes (ones n rest)
unfolding ones
ones-AreBytes zero rest h = (omega arith, h)
ones-AreBytes (suc n) rest h = (omega arith, ones-AreBytes n rest h)

unary-AreBytes : (s : List ℕ) → AreBytes (unary s)
unfolding unary
unary-AreBytes [] = tt
unary-AreBytes (n ∷ s) = ones-AreBytes n (unary s) (unary-AreBytes s)

-- A cipher that hides nothing.
abbrev open_cipher : Cipher
open_cipher = record {
  utf8 = λ t. t;
  of_utf8 = λ t. t;
  seal = λ key iv plain. ([], unary plain);
  unseal = λ key iv tag sealed. some (of_unary 0 sealed);
}

open_cipher-IsCipher : IsCipher open_cipher
open_cipher-IsCipher = record {
  of_utf8_utf8 = λ t. refl;
  tag_bytes = λ key iv plain. tt;
  sealed_bytes = λ key iv plain. unary-AreBytes plain;
  unseal_seal = λ key iv plain. ap some (of_unary-unary plain);
}

-- APP_ENCRYPTION_KEY: 64 digits.
abbrev key_variable : Option Text
key_variable = some (codes "0123456789abcdef0123456789ABCDEF0123456789abcdef0123456789abcdef")

abbrev secret : Text
secret = 2 ∷ 0 ∷ []

abbrev sealed_secret : Text
sealed_secret = codes "07ff::01010000"

encrypted_secret : encrypt_secret open_cipher key_variable (7 ∷ 255 ∷ []) secret ≡ inr sealed_secret
unfolding encrypt_secret unary ones
encrypted_secret = refl

decrypt_secret-encrypt_secret_example :
    decrypt_secret open_cipher key_variable sealed_secret ≡ inr secret
decrypt_secret-encrypt_secret_example =
    decrypt_secret-encrypt_secret open_cipher open_cipher-IsCipher key_variable (7 ∷ 255 ∷ [])
      secret sealed_secret (omega arith) encrypted_secret

abbrev db : Db
db = db_with Status.draft none

abbrev registry : Db
registry = record db { targets = [] }

abbrev new_database : CreateTargetDto
new_database = record {
  name = "n";
  env = TargetEnv.dev;
  db_type = none;
  host = "h";
  port = 3306;
  username = "u";
  password = secret;
  database = codes "d";
}

abbrev requests : List TargetRequest
requests =
    TargetRequest.create ctx (7 ∷ []) new_database approver
    ∷ TargetRequest.update ctx (8 ∷ []) 100
        (record {
          name = none;
          env = none;
          db_type = none;
          host = none;
          port = none;
          username = none;
          password = some (3 ∷ []);
          database = none;
        })
        approver
    ∷ []

serve_all-AreReadable_example :
    AreReadable open_cipher key_variable (serve_all open_cipher key_variable requests registry)
serve_all-AreReadable_example =
    serve_all-AreReadable open_cipher open_cipher-IsCipher key_variable requests registry
      (omega arith) (λ t m. absurd m)

unique_targets : HaveUniqueKeys db.targets
unique_targets t u (inl a) (inl b) e = a ∙ sym b
unique_targets t u (inr m) n e = absurd m
unique_targets t u (inl a) (inr m) e = absurd m

abbrev view : SanitizedTargetDatabase
view = record {
  id = 30;
  env = TargetEnv.staging;
  db_type = DbType.mysql;
  name = "t";
  host = "h";
  port = 3306;
  username = "u";
  database = [];
}

find_target_for_iff_example :
    (find_target_for db approver 30 ≡ ok view)
    ↔ (In view (list_targets db approver) × (view.id ≡ 30))
find_target_for_iff_example = find_target_for_iff db approver 30 view unique_targets
