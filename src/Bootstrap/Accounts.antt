-- ===== src/Bootstrap/Accounts.antt =====
-- The accounts after a start (Bootstrap).
use mathlib.Core.List.{append-nil}
use dbflow.Common.{
  ℕ, suc, ◌≤◌, String, Bool, lt→ltb, ltb→lt, ◌≡◌, ◌≢◌, refl, sym, ◌∙◌, ◌↔◌, ◌⊎◌, inl, inr, true,
  false, List, [], ◌∷◌, map, Option, none, some, if◌then◌else◌, any, length, Bool-cases,
  Option-cases, arith,
}
use dbflow.Store.{Key, User, Db}
use dbflow.Bootstrap.{
  BootEnv, DemoUser, nonempty, create_admin, upsert_user, upsert_users, demo_users, seed_demo, boot,
  login_of,
}
use dbflow.Bootstrap.Extension.{
  Extends, Extends-refl, Extends-trans, Extends-append, map-update_where_login, nonempty-length,
  List-cases, length-Extends,
}

module _ (same_email : String → String → Bool) (hash : String → String) (fresh : ℕ → Key) where
  create_admin-Extends :
      (email password : Option String) (users : List User)
      → Extends users (create_admin same_email hash fresh email password users)
  unfolding create_admin
  create_admin-Extends none password users = Extends-refl users
  create_admin-Extends (some email) none users = Extends-refl users
  create_admin-Extends (some email) (some password) users =
      elim (Bool-cases (any (λ u. same_email u.email email) users)) [
        | inl known ↦ rw (known, if◌then◌else◌) (Extends-refl users)
        | inr new ↦ rw (new, if◌then◌else◌) (Extends-append users _)
      ]

  upsert_user-Extends :
      (id : Key) (d : DemoUser) (users : List User)
      → Extends users (upsert_user same_email hash fresh id d users)
  unfolding upsert_user
  upsert_user-Extends id d users = elim (Bool-cases (any (λ u. same_email u.email d.email) users)) [
    | inl known ↦
        rw (known, if◌then◌else◌)
          ([], map-update_where_login same_email d users ∙ sym (append-nil (map login_of users)))
    | inr new ↦ rw (new, if◌then◌else◌) (Extends-append users _)
  ]

  upsert_users-Extends :
      (i : ℕ) (ds : List DemoUser) (users : List User)
      → Extends users (upsert_users same_email hash fresh i ds users)
  unfolding upsert_users
  upsert_users-Extends i [] users = Extends-refl users
  upsert_users-Extends i (d ∷ ds) users =
      Extends-trans users (upsert_user same_email hash fresh (fresh i) d users) _
        (upsert_user-Extends (fresh i) d users)
        (upsert_users-Extends (suc i) ds (upsert_user same_email hash fresh (fresh i) d users))

  create_admin-some :
      (email password : String) (users : List User)
      → 1 ≤ length (create_admin same_email hash fresh (some email) (some password) users)
  unfolding create_admin
  create_admin-some email password [] = omega arith
  create_admin-some email password (u ∷ users) =
      length-Extends (u ∷ users) _ (create_admin-Extends (some email) (some password) (u ∷ users))
        (omega arith)

  upsert_user-some :
      (id : Key) (d : DemoUser) (users : List User)
      → 1 ≤ length (upsert_user same_email hash fresh id d users)
  unfolding upsert_user
  upsert_user-some id d [] = omega arith
  upsert_user-some id d (u ∷ users) =
      length-Extends (u ∷ users) (upsert_user same_email hash fresh id d (u ∷ users))
        (upsert_user-Extends id d (u ∷ users)) (omega arith)

  upsert_users-some :
      (i : ℕ) (ds : List DemoUser) (users : List User)
      → 1 ≤ length ds
      → 1 ≤ length (upsert_users same_email hash fresh i ds users)
  unfolding upsert_users
  upsert_users-some i [] users h = absurd (omega arith)
  upsert_users-some i (d ∷ ds) users h =
      let first = upsert_user same_email hash fresh (fresh i) d users in
      length-Extends first (upsert_users same_email hash fresh (suc i) ds first)
        (upsert_users-Extends (suc i) ds first) (upsert_user-some (fresh i) d users)

module _ (hash : String → String) (fresh : ℕ → Key) where
  boot-Extends : (env : BootEnv) (db : Db) → Extends db.users (boot hash fresh env db).0.users
  unfolding boot seed_demo
  boot-Extends env db =
      let admins =
        create_admin db.same_email hash fresh (nonempty env.admin_email)
          (nonempty env.admin_password) db.users in
      let first =
        create_admin-Extends db.same_email hash fresh (nonempty env.admin_email)
          (nonempty env.admin_password) db.users in
      elim (Bool-cases env.demo) [
        | inl demo ↦
            rw (demo, if◌then◌else◌)
              (Extends-trans db.users admins
                (upsert_users db.same_email hash fresh 1 demo_users admins) first
                (upsert_users-Extends db.same_email hash fresh 1 demo_users admins))
        | inr none' ↦ rw (none', if◌then◌else◌) first
      ]

  -- Two of the variables, with texts that are not empty.
  abbrev pub NamesAdmin : BootEnv → Type 0
  NamesAdmin env =
      (email : String) × (password : String) × (nonempty env.admin_email ≡ some email)
      × (nonempty env.admin_password ≡ some password)

  -- The accounts after the first step.
  abbrev admins_of : BootEnv → Db → List User
  admins_of env db =
      create_admin db.same_email hash fresh (nonempty env.admin_email) (nonempty env.admin_password)
        db.users

  boot-some-admin :
      (env : BootEnv) (db : Db)
      → 1 ≤ length (admins_of env db)
      → 1 ≤ length (boot hash fresh env db).0.users
  unfolding boot seed_demo
  boot-some-admin env db h = elim (Bool-cases env.demo) [
    | inl demo ↦
        rw (demo, if◌then◌else◌)
          (length-Extends (admins_of env db)
            (upsert_users db.same_email hash fresh 1 demo_users (admins_of env db))
            (upsert_users-Extends db.same_email hash fresh 1 demo_users (admins_of env db)) h)
    | inr none' ↦ rw (none', if◌then◌else◌) h
  ]

  boot-some :
      (env : BootEnv) (db : Db)
      → (db.users ≢ []) ⊎ (NamesAdmin env ⊎ (env.demo ≡ true))
      → 1 ≤ length (boot hash fresh env db).0.users
  unfolding boot seed_demo
  boot-some env db (inl some') =
      length-Extends db.users (boot hash fresh env db).0.users (boot-Extends env db)
        (nonempty-length db.users some')
  boot-some env db (inr (inl (email, password, e, p))) =
      boot-some-admin env db
        (rw (e, p) (create_admin-some db.same_email hash fresh email password db.users))
  boot-some env db (inr (inr demo)) =
      rw (demo, if◌then◌else◌)
        (upsert_users-some db.same_email hash fresh 1 demo_users (admins_of env db) (omega arith))

  boot-none :
      (env : BootEnv) (db : Db)
      → db.users ≡ []
      → (NamesAdmin env → ⊥)
      → env.demo ≡ false
      → length (boot hash fresh env db).0.users ≡ 0
  unfolding boot seed_demo create_admin
  boot-none env db e a d = elim (Option-cases (nonempty env.admin_email)) [
    | inl none' ↦ rw (d, none', e) refl
    | inr (email, some') ↦ elim (Option-cases (nonempty env.admin_password)) [
      | inl none' ↦ rw (d, some', none', e) refl
      | inr (password, given) ↦ absurd (a (email, password, some', given))
    ]
  ]

  unstarted :
      (env : BootEnv) (db : Db)
      → (boot hash fresh env db).1 ≡ true
      → length (boot hash fresh env db).0.users ≡ 0
      → ⊥
  unfolding boot
  unstarted env db h none' =
      let some' = ltb→lt 0 (length (boot hash fresh env db).0.users) h in omega arith

  -- A start leaves every account with its key, email and password, and only adds accounts after them. It
  -- goes on exactly when there was an account, the variables name an administrator, or the demo is on.
  pub boot_lem :
      (env : BootEnv) (db : Db)
      → Extends db.users (boot hash fresh env db).0.users
        × (((boot hash fresh env db).1 ≡ true)
            ↔ ((db.users ≢ []) ⊎ (NamesAdmin env ⊎ (env.demo ≡ true))))
  unfolding boot
  boot_lem env db = (
    boot-Extends env db,
    (
      λ h. elim (List-cases db.users) [
        | inr (u, users, some') ↦ inl (λ none'. cc)
        | inl none' ↦ elim (Bool-cases env.demo) [
          | inl demo ↦ inr (inr demo)
          | inr off ↦ elim (Option-cases (nonempty env.admin_email)) [
            | inl no_email ↦
                absurd (unstarted env db h (boot-none env db none' (λ a. cc (a.2)) off))
            | inr (email, e) ↦ elim (Option-cases (nonempty env.admin_password)) [
              | inl no_password ↦
                  absurd (unstarted env db h (boot-none env db none' (λ a. cc (a.3)) off))
              | inr (password, p) ↦ inr (inl (email, password, e, p))
            ]
          ]
        ]
      ],
      λ h. lt→ltb 0 (length (boot hash fresh env db).0.users) (omega (arith, boot-some env db h)),
    ),
  )
