-- ===== src/ChangeRequest/Slots.antt =====
-- The slot that `approve` chooses, and the parts of a successful `approve`.
use dbflow.Common.{
  String, ◌==◌, true, false, not, ◌≡◌, refl, ap, ◌∙◌, ◌⊎◌, inl, inr, List, Option, none, some,
  is_some, In, or_else, update_where, Bool-cases, find-In, In-sort_asc, sort_asc, Option-cases,
  subst, and-true, includes-In, includes, arith,
}
use dbflow.Store.{
  Key, Actor, AuditAction, Db, Context, Status, same_status, Approver, Result, ok, err, ◌>>=◌, ◌>>◌,
  guard, or_throw, >>=-eq-ok, guard-eq-ok, or_throw-eq-ok,
}
use dbflow.Store
use dbflow.Audit.{append_log}
use dbflow.Delegation.{active_delegator_ids}
use dbflow.ChangeRequest.StateMachine.{TransitionAction, get_next_status}
use dbflow.ChangeRequest.Records.{find_cr, slots_of, set_status}
use dbflow.ChangeRequest.Views.{is_open, by_order}
use dbflow.ChangeRequest.Submit.{cr_log}
use dbflow.ChangeRequest.Decide.{
  DecisionDto, own_slot, keep_open, delegated_slot, Choice, choose_slot, acted_before,
  write_decision, decide_slot, final_action, finish_approval, approve_db,
}

-- What a successful `approve` has gone through.
pub record Approved (ctx : Context) (db : Db) (actor : Actor) (id : Key) (dto : DecisionDto)
    (after : Db) : Type 0 where
  pub cr : Store.ChangeRequest
  pub choice : Choice
  pub found : find_cr id db ≡ some cr
  pub status : cr.status ≡ Status.review_approved
  pub chosen :
      choose_slot (active_delegator_ids db actor.user_id ctx.now) db id actor.user_id ≡ some choice
  pub first : acted_before db id choice.slot.id actor.user_id ≡ false
  pub finished : Db
  pub note : Option String
  pub finishes :
      finish_approval ctx id cr.status
        (final_action dto.decision (slots_of id (decide_slot ctx actor.user_id choice dto db)))
        actor.user_id
        note
        (decide_slot ctx actor.user_id choice dto db)
      ≡ ok finished
  pub log : Store.AuditLog
  pub result : after ≡ append_log log finished

pub approve_db-Approved :
    (ctx : Context) (db : Db) (actor : Actor) (id : Key) (dto : DecisionDto) (after : Db)
    → approve_db ctx db actor id dto ≡ ok after
    → Approved ctx db actor id dto after
unfolding approve_db
approve_db-Approved ctx db actor id dto after e =
    let (cr, e₁, r₁) = >>=-eq-ok _ _ e in
    let (_, e₂, r₂) = >>=-eq-ok _ _ r₁ in
    let (choice, e₃, r₃) = >>=-eq-ok _ _ r₂ in
    let (_, e₄, r₄) = >>=-eq-ok _ _ r₃ in
    let (finished, e₅, r₅) = >>=-eq-ok _ _ r₄ in
    record {
      cr = cr;
      choice = choice;
      found = or_throw-eq-ok _ _ e₁;
      status =
          let t = guard-eq-ok (same_status cr.status Status.review_approved) _ e₂ in ground arith;
      chosen = or_throw-eq-ok _ _ e₃;
      first =
          let t = guard-eq-ok (not (acted_before db id choice.slot.id actor.user_id)) _ e₄ in
          ground arith;
      finished = finished;
      note = _;
      finishes = e₅;
      log = cr_log actor AuditAction.cr_approved id;
      result = ground arith;
    }

-- Who has filled a decided slot.
abbrev pub filled_by : Approver → Key
filled_by a = or_else a.decided_by_id a.user_id

-- The slots' keys are a primary key.
abbrev pub HasSlotKeys : Db → Type 0
HasSlotKeys db = (a b : Approver) → In a db.approvers → In b db.approvers → a.id ≡ b.id → a ≡ b

-- No two slots of one change request have been filled by one person.
abbrev pub IsSeparated : Db → Type 0
IsSeparated db =
    (a b : Approver)
    → In a db.approvers
    → In b db.approvers
    → a.change_request_id ≡ b.change_request_id
    → is_some a.decision ≡ true
    → is_some b.decision ≡ true
    → filled_by a ≡ filled_by b
    → a.id ≡ b.id

pub finish_approval-approvers :
    (ctx : Context) (id : Key) (s : Status) (action : Option TransitionAction) (user : Key)
    (remark : Option String) (db : Db) {after : Db}
    → finish_approval ctx id s action user remark db ≡ ok after
    → after.approvers ≡ db.approvers
unfolding finish_approval set_status
finish_approval-approvers ctx id s none user remark db e = ground arith
finish_approval-approvers ctx id s (some a) user remark db e =
    let (to, next, same) = >>=-eq-ok (get_next_status s a) _ e in ground arith

-- The slots after a decision: the chosen one written, the others as they were.
pub Approved-approvers :
    {ctx : Context} {db : Db} {actor : Actor} {id : Key} {dto : DecisionDto} {after : Db}
    (f : Approved ctx db actor id dto after)
    → after.approvers
      ≡ update_where
          (λ a. a.id == f.choice.slot.id)
          (write_decision ctx actor.user_id f.choice.for_other dto)
          db.approvers
unfolding decide_slot
Approved-approvers {ctx} {db} {actor} {id} {dto} f =
    ap (λ (d : Db). d.approvers) f.result
    ∙ finish_approval-approvers ctx id f.cr.status _ actor.user_id f.note _ f.finishes

-- A chosen slot stands in the change request and is open; it is the actor's own unless filled for
-- another.
pub record IsFit (db : Db) (id user : Key) (delegators : List Key) (c : Choice) : Type 0 where
  pub stands : In c.slot db.approvers
  pub of_request : c.slot.change_request_id ≡ id
  pub undecided : is_open c.slot ≡ true
  pub owned :
      ((c.for_other ≡ false) × (c.slot.user_id ≡ user))
      ⊎ ((c.for_other ≡ true) × In c.slot.user_id delegators)

keep_open-eq-some :
    (o : Option Approver) {a : Approver} → keep_open o ≡ some a → (o ≡ some a) × (is_open a ≡ true)
keep_open-eq-some none e = cc
keep_open-eq-some (some b) e = elim (Bool-cases (is_open b)) [
  | inl open' ↦ let same : b ≡ _ = ground arith in (ap some same, rw (← same) open')
  | inr decided ↦ absurd (ground arith)
]

own_slot-IsFit :
    (delegators : List Key) (db : Db) (id user : Key) (a : Approver)
    → keep_open (own_slot db id user) ≡ some a
    → IsFit db id user delegators (record { slot = a; for_other = false })
own_slot-IsFit delegators db id user a e =
    let (found, open') = keep_open-eq-some (own_slot db id user) e in
    let (stands, holds) = find-In _ db.approvers a found in
    record {
      stands = stands;
      of_request = ground arith;
      undecided = open';
      owned = inl (refl, ground arith);
    }

delegated_slot-IsFit :
    (delegators : List Key) (db : Db) (id user : Key) (a : Approver)
    → delegated_slot delegators db id ≡ some a
    → IsFit db id user delegators (record { slot = a; for_other = true })
delegated_slot-IsFit delegators db id user a e =
    let (stands, holds) = find-In _ (sort_asc by_order db.approvers) a e in
    let (here, rest) = and-true (a.change_request_id == id) _ holds in
    let (listed, open') = and-true (includes delegators a.user_id) _ rest in
    record {
      stands = (In-sort_asc by_order db.approvers a).0 stands;
      of_request = ground arith;
      undecided = open';
      owned = inr (refl, (includes-In delegators a.user_id).0 listed);
    }

pub choose_slot-IsFit :
    (delegators : List Key) (db : Db) (id user : Key) (c : Choice)
    → choose_slot delegators db id user ≡ some c
    → IsFit db id user delegators c
unfolding choose_slot
choose_slot-IsFit delegators db id user c e =
    elim (Option-cases (keep_open (own_slot db id user))) [
      | inr (a, own) ↦
          subst (IsFit db id user delegators) (ground arith)
            (own_slot-IsFit delegators db id user a own)
      | inl no_own ↦ elim (Option-cases (delegated_slot delegators db id)) [
        | inr (a, other) ↦
            subst (IsFit db id user delegators) (ground arith)
              (delegated_slot-IsFit delegators db id user a other)
        | inl no_other ↦ absurd (ground arith)
      ]
    ]
