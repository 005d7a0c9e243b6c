-- ===== src/ChangeRequest/Preparing.antt =====
-- The status histories when change requests are created and their people assigned.
use dbflow.Common.{
  ◌==◌, false, ◌≡◌, refl, sym, ap, ◌∙◌, inl, inr, List, [], ◌∷◌, ◌++◌, Option, none, some, find,
  update_where, In, find-append_some, find-append_none, filter-eq-nil, Bool-cases, Option-cases,
  arith,
}
use dbflow.Store.{
  Key, Actor, Db, Context, Status, History, Decision, AuditAction, AuditLog, Result, ok, err, ◌>>=◌,
  >>=-eq-ok, guard-eq-ok, or_throw-eq-ok,
}
use dbflow.Store
use dbflow.Audit.{record_log}
use dbflow.ChangeRequest.Records.{find_cr, get_or_throw}
use dbflow.ChangeRequest.Submit.{
  CreateDto, AssigneesDto, create_db, set_assignees_db, set_reviewer, new_cr,
}
use dbflow.ChangeRequest.Trace.{IsTraced}

find-set_reviewer :
    (ctx : Context) (id j : Key) (reviewer : Option (Option Key)) (crs : List Store.ChangeRequest)
    (c : Store.ChangeRequest)
    → find (λ cr. cr.id == j) (update_where (λ cr. cr.id == id) (set_reviewer ctx reviewer) crs)
      ≡ some c
    → (b : Store.ChangeRequest) × (find (λ cr. cr.id == j) crs ≡ some b) × (b.status ≡ c.status)
find-set_reviewer ctx id j reviewer [] c e = cc
find-set_reviewer ctx id j none (x ∷ crs) c e = elim (Bool-cases (x.id == j)) [
  | inl hit ↦ (x, ground arith, ground arith)
  | inr miss ↦
      let (b, found, same) = find-set_reviewer ctx id j none crs c (ground arith) in
      (b, ground arith, same)
]
find-set_reviewer ctx id j (some k) (x ∷ crs) c e = elim (Bool-cases (x.id == j)) [
  | inl hit ↦ (x, ground arith, ground arith)
  | inr miss ↦
      let (b, found, same) = find-set_reviewer ctx id j (some k) crs c (ground arith) in
      (b, ground arith, same)
]

pub set_assignees-IsTraced :
    (ctx : Context) (db : Db) (actor : Actor) (id : Key) (dto : AssigneesDto) (after : Db)
    → set_assignees_db ctx db actor id dto ≡ ok after
    → IsTraced db
    → IsTraced after
unfolding set_assignees_db get_or_throw record_log
set_assignees-IsTraced ctx db actor id dto after e traced j c found =
    elim (Option-cases (find_cr id db)) [
      | inl missing ↦ absurd (ground arith)
      | inr (cr, there) ↦
          let crs : after.change_requests
              ≡ update_where (λ cr. cr.id == id) (set_reviewer ctx dto.reviewer_id)
                  db.change_requests =
            ground arith in
          let log : after.history ≡ db.history = ground arith in
          let (b, old, same) =
            find-set_reviewer ctx id j dto.reviewer_id db.change_requests c
              (ap (find (λ (cr : Store.ChangeRequest). cr.id == j)) (sym crs) ∙ found) in
          rw (log, ← same) (traced j b old)
    ]

-- The key of a new row is used by no row and no history entry.
abbrev pub IsUnused : Key → Db → Type 0
IsUnused id db =
    (find_cr id db ≡ none) × ((h : History) → In h db.history → (h.change_request_id == id) ≡ false)

pub create-IsTraced :
    (ctx : Context) (db : Db) (actor : Actor) (dto : CreateDto) (after : Db)
    → IsUnused (ctx.fresh 0) db
    → create_db ctx db actor dto ≡ ok after
    → IsTraced db
    → IsTraced after
unfolding create_db record_log
create-IsTraced ctx db actor dto after unused e traced j c found =
    let crs : after.change_requests ≡ db.change_requests ++ (new_cr ctx actor dto ∷ []) =
      ground arith in
    let log : after.history ≡ db.history = ground arith in
    let found' = ap (find (λ (cr : Store.ChangeRequest). cr.id == j)) (sym crs) ∙ found in
    elim (Option-cases (find_cr j db)) [
      | inr (b, old) ↦
          let same : b ≡ c = ground (
            arith,
            find-append_some (λ (cr : Store.ChangeRequest). cr.id == j) db.change_requests
                (new_cr ctx actor dto ∷ []) b old,
          ) in
          rw (log, ← same) (traced j b old)
      | inl fresh ↦
          let tail =
            find-append_none (λ (cr : Store.ChangeRequest). cr.id == j) db.change_requests
              (new_cr ctx actor dto ∷ []) fresh in
          let new' : new_cr ctx actor dto ≡ c = ground arith in
          let key : j ≡ ctx.fresh 0 = ground arith in
          rw
            (
              log,
              key,
              filter-eq-nil (λ (h : History). h.change_request_id == ctx.fresh 0) db.history
                  unused.1,
              ← new',
            )
            refl
    ]
