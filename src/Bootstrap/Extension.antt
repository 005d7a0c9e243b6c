-- ===== src/Bootstrap/Extension.antt =====
-- Lists of accounts that extend another (Bootstrap).
use mathlib.Core.List.{append_assoc, append-nil, map-append}
use dbflow.Common.{
  suc, ◌≤◌, String, Bool, ◌≡◌, ◌≢◌, refl, sym, ap, ◌∙◌, ◌⊎◌, inl, inr, List, [], ◌∷◌, ◌++◌, map,
  update_where, length, length-append, arith,
}
use dbflow.Store.{Key, User}
use dbflow.Bootstrap.{DemoUser, login_of}

-- The later accounts begin with the earlier ones, each with its key, email and password.
abbrev pub Extends : List User → List User → Type 0
Extends users after =
    (new : List (Key × String × String)) × (map login_of after ≡ map login_of users ++ new)

pub Extends-refl : (users : List User) → Extends users users
Extends-refl users = ([], sym (append-nil (map login_of users)))

pub Extends-trans : (a b c : List User) → Extends a b → Extends b c → Extends a c
Extends-trans a b c (new, e) (later, f) =
    (new ++ later, f ∙ ap (λ l. l ++ later) e ∙ append_assoc (map login_of a) new later)

pub Extends-append : (users new : List User) → Extends users (users ++ new)
Extends-append users new = (map login_of new, map-append login_of users new)

pub map-update_where_login :
    (same_email : String → String → Bool) (d : DemoUser) (users : List User)
    → map login_of (
        update_where
          (λ u. same_email u.email d.email)
          (λ u. record u { department = d.department; role = d.role })
          users)
      ≡ map login_of users
map-update_where_login same_email d [] = refl
map-update_where_login same_email d (u ∷ users) =
    ground (arith, map-update_where_login same_email d users)

length-map : {A B : Type 0} (f : A → B) (xs : List A) → length (map f xs) ≡ length xs
length-map f [] = refl
length-map f (x ∷ xs) = ap suc (length-map f xs)

pub nonempty-length : (users : List User) → users ≢ [] → 1 ≤ length users
nonempty-length [] h = absurd (h refl)
nonempty-length (u ∷ users) h = omega arith

pub List-cases :
    (users : List User) → (users ≡ []) ⊎ ((u : User) × (rest : List User) × (users ≡ u ∷ rest))
List-cases [] = inl refl
List-cases (u ∷ rest) = inr (u, rest, refl)

pub length-Extends :
    (users after : List User) → Extends users after → 1 ≤ length users → 1 ≤ length after
length-Extends users after (new, e) h = omega (
  arith,
  ap length e,
  length-append (map login_of users) new,
  length-map login_of users,
  length-map login_of after,
)
