-- ===== src/ChangeRequest/Trace.antt =====
-- The status history of change requests as a path through the workflow.
use mathlib.Core.List.{append-nil}
use dbflow.Common.{
  String, ◌==◌, ◌≡◌, refl, sym, ap, ◌∙◌, ◌≢◌, inl, inr, List, [], ◌∷◌, ◌++◌, Option, none, some,
  find, filter, Bool-cases, Option-cases, ==_iff, subst, arith,
}
use dbflow.Store.{
  Key, Actor, Db, Context, Status, History, Decision, AuditAction, AuditLog, Result, ok, err, ◌>>=◌,
  >>=-eq-ok, guard-eq-ok, or_throw-eq-ok,
}
use dbflow.Store
use dbflow.Audit.{append_log, record_log}
use dbflow.ChangeRequest.StateMachine.{TransitionAction, to_status, get_next_status}
use dbflow.ChangeRequest.Records.{find_cr, set_status, write_status, get_or_throw}
use dbflow.ChangeRequest.Status.{
  history_of, entry_of, find_cr-set_status, find_cr-set_status_ne, history_of-set_status,
  history_of-set_status_ne,
}
use dbflow.ChangeRequest.Submit.{cr_log, submit_db}
use dbflow.ChangeRequest.Decide.{
  DecisionDto, finish_approval, review_db, approve_db, review_action, decide_slot,
  with_delegate_note, reviewer_name, acts_for_reviewer,
}
use dbflow.ChangeRequest.Slots.{approve_db-Approved}

-- The entries are transitions of the state machine, each from where the last one led.
abbrev pub Traces : Status → List History → Status → Type 0
Traces s [] t = s ≡ t
Traces s (h ∷ hs) t =
    (h.from_status ≡ s)
    × ((a : TransitionAction) × (get_next_status h.from_status a ≡ ok h.to_status))
    × Traces h.to_status hs t

-- The history of every change request leads from a draft to its status.
abbrev pub IsTraced : Db → Type 0
IsTraced db =
    (id : Key) (cr : Store.ChangeRequest)
    → find_cr id db ≡ some cr
    → Traces Status.draft (history_of id db) cr.status

Traces-snoc :
    (s t u : Status) (hs : List History) (h : History) (a : TransitionAction)
    → Traces s hs t
    → h.from_status ≡ t
    → h.to_status ≡ u
    → get_next_status t a ≡ ok u
    → Traces s (hs ++ (h ∷ [])) u
Traces-snoc s t u [] h a trace from to next = (from ∙ sym trace, (a, rw (from, to) next), to)
Traces-snoc s t u (k ∷ hs) h a (here, step, rest) from to next =
    (here, step, Traces-snoc k.to_status t u hs h a rest from to next)

-- The tables on which the property depends.
abbrev pub SameRequests : Db → Db → Type 0
SameRequests db after = (after.change_requests ≡ db.change_requests) × (after.history ≡ db.history)

pub SameRequests-IsTraced : (db after : Db) → SameRequests db after → IsTraced db → IsTraced after
SameRequests-IsTraced db after (same, same') traced id cr found =
    subst (λ l. Traces Status.draft l cr.status)
      (sym (ap (filter (λ (h : History). h.change_request_id == id)) same'))
      (traced id cr (ap (find (λ (c : Store.ChangeRequest). c.id == id)) (sym same) ∙ found))

pub set_status-IsTraced :
    (ctx : Context) (id : Key) (cr : Store.ChangeRequest) (a : TransitionAction) (to : Status)
    (user : Key) (remark : Option String) (db : Db)
    → find_cr id db ≡ some cr
    → get_next_status cr.status a ≡ ok to
    → IsTraced db
    → IsTraced (set_status ctx id cr.status to user remark db)
set_status-IsTraced ctx id cr a to user remark db found next traced j c at =
    elim (Bool-cases (j == id)) [
      | inl hit ↦
          let same : j ≡ id = (==_iff j id).0 hit in
          let written : write_status ctx id to cr ≡ c =
            ground (arith, find_cr-set_status ctx id cr.status to user remark db cr found) in
          rw (same, history_of-set_status ctx id cr.status to user remark db, ← written)
            (Traces-snoc Status.draft cr.status to (history_of id db)
              (entry_of id cr.status to user remark) a (traced id cr found) refl refl next)
      | inr miss ↦
          let other : j ≢ id = ground arith in
          rw (history_of-set_status_ne ctx id cr.status to user remark db j other, append-nil)
            (traced j c
              (sym (find_cr-set_status_ne ctx id cr.status to user remark db j other) ∙ at))
    ]

pub record_log-SameRequests :
    (ctx : Context) (log : AuditLog) (db : Db) → SameRequests db (record_log ctx log db)
unfolding record_log
record_log-SameRequests ctx log db = (ground arith, ground arith)

pub submit-IsTraced :
    (ctx : Context) (db : Db) (actor : Actor) (id : Key) (after : Db)
    → submit_db ctx db actor id ≡ ok after
    → IsTraced db
    → IsTraced after
unfolding submit_db get_or_throw get_next_status
submit-IsTraced ctx db actor id after e traced = elim (Option-cases (find_cr id db)) [
  | inl missing ↦ absurd (ground arith)
  | inr (cr, found) ↦
      let written = set_status ctx id cr.status Status.submitted actor.user_id none db in
      let result : after ≡ append_log (cr_log actor AuditAction.cr_submitted id) written =
        ground arith in
      SameRequests-IsTraced written after (rw result refl, rw result refl)
        (set_status-IsTraced ctx id cr TransitionAction.submit Status.submitted actor.user_id none
          db found (ground arith) traced)
]

pub review-IsTraced :
    (ctx : Context) (db : Db) (actor : Actor) (id : Key) (dto : DecisionDto) (after : Db)
    → review_db ctx db actor id dto ≡ ok after
    → IsTraced db
    → IsTraced after
unfolding review_db get_next_status
review-IsTraced ctx db actor id dto after e traced = elim (Option-cases (find_cr id db)) [
  | inl missing ↦ absurd (ground arith)
  | inr (cr, found) ↦
      let note =
        with_delegate_note dto.comment (
          reviewer_name db (acts_for_reviewer ctx db actor.user_id cr.reviewer_id)
            cr.reviewer_id) in
      let to = to_status (review_action dto.decision) in
      let written = set_status ctx id cr.status to actor.user_id note db in
      let result : after ≡ append_log (cr_log actor AuditAction.cr_reviewed id) written =
        ground arith in
      SameRequests-IsTraced written after (rw result refl, rw result refl)
        (set_status-IsTraced ctx id cr (review_action dto.decision) to actor.user_id note db found
          (ground arith) traced)
]

finish_approval-IsTraced :
    (ctx : Context) (id : Key) (cr : Store.ChangeRequest) (action : Option TransitionAction)
    (user : Key) (remark : Option String) (db : Db) (after : Db)
    → finish_approval ctx id cr.status action user remark db ≡ ok after
    → find_cr id db ≡ some cr
    → IsTraced db
    → IsTraced after
unfolding finish_approval
finish_approval-IsTraced ctx id cr none user remark db after e found traced =
    SameRequests-IsTraced db after (ground arith, ground arith) traced
finish_approval-IsTraced ctx id cr (some a) user remark db after e found traced =
    let (to, next, r) = >>=-eq-ok (get_next_status cr.status a) _ e in
    SameRequests-IsTraced (set_status ctx id cr.status to user remark db) after
      (ground arith, ground arith)
      (set_status-IsTraced ctx id cr a to user remark db found next traced)

pub approve-IsTraced :
    (ctx : Context) (db : Db) (actor : Actor) (id : Key) (dto : DecisionDto) (after : Db)
    → approve_db ctx db actor id dto ≡ ok after
    → IsTraced db
    → IsTraced after
unfolding decide_slot
approve-IsTraced ctx db actor id dto after e traced =
    let f = approve_db-Approved ctx db actor id dto after e in
    let decided = decide_slot ctx actor.user_id f.choice dto db in
    SameRequests-IsTraced f.finished after (ground (arith, f.result), ground (arith, f.result))
      (finish_approval-IsTraced ctx id f.cr _ actor.user_id f.note decided f.finished f.finishes
        f.found (SameRequests-IsTraced db decided (refl, refl) traced))
