-- ===== src/TargetDatabases/Credentials.antt =====
-- The stored credentials of the target databases stay readable, with the encryption of Crypto.
use dbflow.Common.{
  ℕ, ◌==◌, ◌≡◌, refl, sym, subst, ◌⊎◌, inl, inr, not, List, [], ◌∷◌, ◌++◌, Option, none, some, In,
  In-append, In-filter, In-update_where, filter, update_where, if◌then◌else◌, Bool-cases,
  Option-cases, arith,
}
use dbflow.Store.{Key, Text, TargetDatabase, Actor, Db, Context, Result, ok, err, Result-cases}
use dbflow.Audit.{record_log}
use dbflow.Crypto.{Cipher, IsCipher, AreBytes, SecretError, encrypt_secret, decrypt_secret}
use dbflow.Crypto.RoundTrip.{decrypt_secret-encrypt_secret}
use dbflow.TargetDatabases.{
  CreateTargetDto, UpdateTargetDto, given_or, new_target, change_target, create_target,
  encrypt_given, update_target_db, update_target, remove_target, get_target_or_throw,
}

-- `throw` forgets the kind of error.
abbrev pub encrypted : SecretError ⊎ Text → Option Text
encrypted (inl e) = none
encrypted (inr text) = some text

pub data TargetRequest : Type 0 where
  create : Context → List ℕ → CreateTargetDto → Actor → TargetRequest
  update : Context → List ℕ → Key → UpdateTargetDto → Actor → TargetRequest
  remove : Context → Key → Actor → TargetRequest

abbrev or_unchanged : Db → Result Db → Db
or_unchanged db (err e) = db
or_unchanged db (ok after) = after

module _ (cipher : Cipher) (variable : Option Text) where
  abbrev pub encrypt : List ℕ → Text → Option Text
  encrypt nonce password = encrypted (encrypt_secret cipher variable nonce password)

  -- The database after a request, which may fail.
  unfoldable pub serve : TargetRequest → Db → Db
  serve (TargetRequest.create ctx nonce dto actor) db =
      (create_target (encrypt nonce) ctx db dto actor).0
  serve (TargetRequest.update ctx nonce id dto actor) db =
      (update_target (encrypt nonce) ctx db id dto actor).0
  serve (TargetRequest.remove ctx id actor) db = or_unchanged db (remove_target ctx db id actor)

  unfoldable pub serve_all : List TargetRequest → Db → Db
  unfolding serve
  serve_all [] db = db
  serve_all (r ∷ rs) db = serve_all rs (serve r db)

  abbrev pub IsReadable : Text → Type 0
  IsReadable stored = (password : Text) × (decrypt_secret cipher variable stored ≡ inr password)

  abbrev pub AreReadable : Db → Type 0
  AreReadable db = (t : TargetDatabase) → In t db.targets → IsReadable t.password_enc

  abbrev pub HasBytes : TargetRequest → Type 0
  HasBytes (TargetRequest.create ctx nonce dto actor) = AreBytes nonce
  HasBytes (TargetRequest.update ctx nonce id dto actor) = AreBytes nonce
  HasBytes (TargetRequest.remove ctx id actor) = Unit

  abbrev pub HaveBytes : List TargetRequest → Type 0
  HaveBytes [] = Unit
  HaveBytes (r ∷ rs) = HasBytes r × HaveBytes rs

module _ (cipher : Cipher) (laws : IsCipher cipher) (variable : Option Text) where
  encrypt-IsReadable :
      (nonce : List ℕ) (password stored : Text)
      → AreBytes nonce
      → encrypt cipher variable nonce password ≡ some stored
      → IsReadable cipher variable stored
  encrypt-IsReadable nonce password stored bytes e = (
    password,
    decrypt_secret-encrypt_secret cipher laws variable nonce password stored bytes
        (shown (encrypt_secret cipher variable nonce password) e),
  )
    where
      shown : (s : SecretError ⊎ Text) → encrypted s ≡ some stored → s ≡ inr stored
      shown (inl f) h = absurd (cc)
      shown (inr text) h = cc

  -- The rows of the result are readable, if it is known what they are.
  abbrev AllReadable : List TargetDatabase → Type 0
  AllReadable targets =
      (t : TargetDatabase) → In t targets → IsReadable cipher variable t.password_enc

  create-AllReadable :
      (ctx : Context) (dto : CreateTargetDto) (targets : List TargetDatabase) (stored : Text)
      → IsReadable cipher variable stored
      → AllReadable targets
      → AllReadable (targets ++ (new_target ctx dto stored ∷ []))
  create-AllReadable ctx dto targets stored fine h t m = elim ((In-append targets _ t).0 m) [
    | inl old ↦ h t old
    | inr (inl new) ↦ subst (λ x. IsReadable cipher variable x.password_enc) (sym new) fine
    | inr (inr none') ↦ absurd none'
  ]

  update-AllReadable :
      (id : Key) (dto : UpdateTargetDto) (stored : Option Text) (targets : List TargetDatabase)
      → ((text : Text) → stored ≡ some text → IsReadable cipher variable text)
      → AllReadable targets
      → AllReadable (update_where (λ t. t.id == id) (change_target dto stored) targets)
  update-AllReadable id dto stored targets fine h t m =
      let (old, there, same) =
        In-update_where (λ t. t.id == id) (change_target dto stored) targets t m in
      subst (λ x. IsReadable cipher variable x.password_enc) (sym same)
        (elim (Bool-cases (old.id == id)) [
          | inl yes' ↦ rw (yes', if◌then◌else◌) (kept old there stored fine)
          | inr no' ↦ rw (no', if◌then◌else◌) (h old there)
        ])
    where
      kept :
          (old : TargetDatabase)
          → In old targets
          → (o : Option Text) → ((text : Text) → o ≡ some text → IsReadable cipher variable text)
          → IsReadable cipher variable (given_or o old.password_enc)
      kept old there none f = h old there
      kept old there (some text) f = f text refl

  remove-AllReadable :
      (id : Key) (targets : List TargetDatabase)
      → AllReadable targets
      → AllReadable (filter (λ t. not (t.id == id)) targets)
  remove-AllReadable id targets h t m = h t ((In-filter (λ t. not (t.id == id)) targets t).0 m).0

  encrypt_given-IsReadable :
      (nonce : List ℕ) (password : Option Text) (stored : Option Text)
      → AreBytes nonce
      → encrypt_given (encrypt cipher variable nonce) password ≡ ok stored
      → (text : Text) → stored ≡ some text
      → IsReadable cipher variable text
  unfolding encrypt_given
  encrypt_given-IsReadable nonce none stored bytes e text s = absurd (ground arith)
  encrypt_given-IsReadable nonce (some password) stored bytes e text s =
      elim (Option-cases (encrypt cipher variable nonce password)) [
        | inl none' ↦ absurd (ground arith)
        | inr (t, done) ↦ encrypt-IsReadable nonce password text bytes (ground arith)
      ]

  update_target_db-AllReadable :
      (ctx : Context) (nonce : List ℕ) (db after : Db) (id : Key) (dto : UpdateTargetDto)
      (actor : Actor)
      → AreBytes nonce
      → AreReadable cipher variable db
      → update_target_db (encrypt cipher variable nonce) ctx db id dto actor ≡ ok after
      → AllReadable after.targets
  unfolding update_target_db record_log
  update_target_db-AllReadable ctx nonce db after id dto actor bytes h e =
      elim (Result-cases (get_target_or_throw db id)) [
        | inr (f, missing) ↦ absurd (ground arith)
        | inl (t, found) ↦
            elim (Result-cases (encrypt_given (encrypt cipher variable nonce) dto.password)) [
              | inr (f, failed) ↦ absurd (ground arith)
              | inl (stored, done) ↦
                  let rows : update_where (λ t. t.id == id) (change_target dto stored) db.targets
                      ≡ after.targets =
                    ground arith in
                  subst AllReadable rows (
                    update-AllReadable id dto stored db.targets
                      (encrypt_given-IsReadable nonce dto.password stored bytes done) h)
            ]
      ]

  serve-AreReadable :
      (r : TargetRequest) (db : Db)
      → HasBytes cipher variable r
      → AreReadable cipher variable db
      → AreReadable cipher variable (serve cipher variable r db)
  unfolding serve create_target update_target remove_target record_log
  serve-AreReadable (TargetRequest.create ctx nonce dto actor) db bytes h =
      elim (Option-cases (encrypt cipher variable nonce dto.password)) [
        | inl none' ↦ subst AllReadable (ground arith) h
        | inr (stored, done) ↦ subst AllReadable (ground arith) (
            create-AllReadable ctx dto db.targets stored
              (encrypt-IsReadable nonce dto.password stored bytes done) h)
      ]
  serve-AreReadable (TargetRequest.update ctx nonce id dto actor) db bytes h =
      elim (Result-cases (update_target_db (encrypt cipher variable nonce) ctx db id dto actor)) [
        | inr (f, failed) ↦ subst AllReadable (ground arith) h
        | inl (after, done) ↦
            subst AllReadable (ground arith)
              (update_target_db-AllReadable ctx nonce db after id dto actor bytes h done)
      ]
  serve-AreReadable (TargetRequest.remove ctx id actor) db bytes h =
      elim (Result-cases (get_target_or_throw db id)) [
        | inr (f, missing) ↦ subst AllReadable (ground arith) h
        | inl (t, found) ↦ subst AllReadable (ground arith) (remove-AllReadable id db.targets h)
      ]

  -- However target databases are registered, changed and removed, each stored credential is decrypted
  -- under the key of the environment, if those at the start are.
  pub serve_all-AreReadable :
      (rs : List TargetRequest) (db : Db)
      → HaveBytes cipher variable rs
      → AreReadable cipher variable db
      → AreReadable cipher variable (serve_all cipher variable rs db)
  unfolding serve_all
  serve_all-AreReadable [] db bytes h = h
  serve_all-AreReadable (r ∷ rs) db bytes h =
      serve_all-AreReadable rs (serve cipher variable r db) bytes.1
        (serve-AreReadable r db bytes.0 h)
