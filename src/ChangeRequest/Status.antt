-- ===== src/ChangeRequest/Status.antt =====
-- What `set_status` changes and what it leaves.
use dbflow.Common.{
  String, ◌==◌, ◌≡◌, refl, ◌≢◌, List, [], ◌∷◌, ◌++◌, Option, some, filter, find-update_where,
  find-update_where_other, filter-append, arith,
}
use dbflow.Store.{Key, Db, Context, Status, History}
use dbflow.Store
use dbflow.ChangeRequest.Records.{find_cr, set_status, write_status}

-- The history of one change request.
abbrev pub history_of : Key → Db → List History
history_of id db = filter (λ h. h.change_request_id == id) db.history

abbrev pub entry_of : Key → Status → Status → Key → Option String → History
entry_of id from to user remark = record {
  change_request_id = id;
  from_status = from;
  to_status = to;
  actor_id = user;
  comment = remark;
}

module _ (ctx : Context) (id : Key) (from to : Status) (user : Key) (remark : Option String)
    (db : Db) where
  pub find_cr-set_status :
      (cr : Store.ChangeRequest)
      → find_cr id db ≡ some cr
      → find_cr id (set_status ctx id from to user remark db) ≡ some (write_status ctx id to cr)
  unfolding set_status
  find_cr-set_status cr e =
      find-update_where (λ cr. cr.id == id) (write_status ctx id to) (λ x. refl) db.change_requests
        cr e

  pub find_cr-set_status_ne :
      (j : Key) → j ≢ id → find_cr j (set_status ctx id from to user remark db) ≡ find_cr j db
  unfolding set_status
  find_cr-set_status_ne j other =
      find-update_where_other (λ cr. cr.id == id) (λ cr. cr.id == j) (write_status ctx id to)
        (λ x h. (ground arith, ground arith)) db.change_requests

  pub history_of-set_status :
      history_of id (set_status ctx id from to user remark db)
      ≡ history_of id db ++ (entry_of id from to user remark ∷ [])
  unfolding set_status
  history_of-set_status = ground (
    arith,
    filter-append (λ (h : History). h.change_request_id == id) db.history
        (entry_of id from to user remark ∷ []),
  )

  pub history_of-set_status_ne :
      (j : Key)
      → j ≢ id
      → history_of j (set_status ctx id from to user remark db) ≡ history_of j db ++ []
  unfolding set_status
  history_of-set_status_ne j other = ground (
    arith,
    filter-append (λ (h : History). h.change_request_id == j) db.history
        (entry_of id from to user remark ∷ []),
  )
