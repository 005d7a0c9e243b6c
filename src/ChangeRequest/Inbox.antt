-- ===== src/ChangeRequest/Inbox.antt =====
-- The inbox of an approver and the decisions that go through.
use dbflow.Common.{
  ℕ, ◌==◌, Bool, true, false, ◌&&◌, ◌||◌, ◌≡◌, ◌∙◌, ◌↔◌, inl, inr, List, none, some, any, is_some,
  is_key, In, In-filter, In-sort_asc, sort_asc, find-In, any-In, any_of_In, any-eq-false,
  any-eq-false_of, and-true, includes, includes-In, Bool-cases, subst, ==_iff, arith,
}
use dbflow.Store.{
  Key, Role, same_role, Actor, Db, Context, Status, same_status, Approver, Decision, is_approve,
  AuditAction, Result, ok, err, ◌>>=◌, or_throw, guard,
}
use dbflow.Store
use dbflow.Delegation.{active_delegator_ids}
use dbflow.ChangeRequest.Records.{find_cr, slots_of}
use dbflow.ChangeRequest.Views.{
  delegator_ids_for, is_visible, is_open, already_acted, my_approval_pending, to_summary, in_inbox,
  inbox, by_order,
}
use dbflow.ChangeRequest.Decide.{DecisionDto, Choice, acted_before, approve_db}
use dbflow.ChangeRequest.Slots.{approve_db-Approved, IsFit, choose_slot-IsFit}
use dbflow.ChangeRequest.Choosing.{
  IsKeyed, summary_in, inbox_iff, choose_slot_of, acted_before_of, approve_db_total,
}

-- A slot that waits for the user, directly or through a delegator.
abbrev waits_for : Key → List Key → Approver → Bool
waits_for user delegators a = (a.user_id == user || includes delegators a.user_id) && is_open a

-- What the filter of the inbox asks of an approver's row.
record IsPending (ctx : Context) (db : Db) (actor : Actor) (cr : Store.ChangeRequest) : Type 0 where
  pub status : cr.status ≡ Status.review_approved
  pub waiting :
      any
        (waits_for actor.user_id (active_delegator_ids db actor.user_id ctx.now))
        (sort_asc by_order (slots_of cr.id db))
      ≡ true
  pub idle : already_acted (slots_of cr.id db) (some actor.user_id) ≡ false

delegator_ids_for-approver :
    (db : Db) (actor : Actor) (now : ℕ)
    → actor.role ≡ Role.approver
    → delegator_ids_for db actor now ≡ active_delegator_ids db actor.user_id now
unfolding delegator_ids_for
delegator_ids_for-approver db actor now role = ground arith

in_inbox-IsPending :
    (ctx : Context) (db : Db) (actor : Actor) (cr : Store.ChangeRequest)
    → actor.role ≡ Role.approver
    → (in_inbox db actor (summary_in ctx db actor cr) ≡ true) ↔ IsPending ctx db actor cr
unfolding in_inbox to_summary my_approval_pending
in_inbox-IsPending ctx db actor cr role =
    rw (delegator_ids_for-approver db actor ctx.now role) (ground arith)

-- A pending row is visible.
IsPending-visible :
    (ctx : Context) (db : Db) (actor : Actor) (cr : Store.ChangeRequest)
    → actor.role ≡ Role.approver
    → IsPending ctx db actor cr
    → is_visible actor (delegator_ids_for db actor ctx.now) db cr ≡ true
unfolding is_visible
IsPending-visible ctx db actor cr role p =
    let ds = active_delegator_ids db actor.user_id ctx.now in
    let (a, m, h) =
      any-In (waits_for actor.user_id ds) (sort_asc by_order (slots_of cr.id db)) p.waiting in
    let inside = (In-sort_asc by_order (slots_of cr.id db) a).0 m in
    ground (
      arith,
      delegator_ids_for-approver db actor ctx.now role,
      any_of_In (λ a. a.user_id == actor.user_id) (slots_of cr.id db) a inside,
      any_of_In (λ a. includes ds a.user_id) (slots_of cr.id db) a inside,
    )

other_slot :
    (db : Db) (user id : Key) (c : Choice) (b : Approver)
    → acted_before db id c.slot.id user ≡ false
    → In b db.approvers
    → b.change_request_id ≡ id
    → (b.id == c.slot.id) ≡ false
    → (((b.user_id == user) && is_some b.decision) ≡ false) × (is_key b.decided_by_id user ≡ false)
unfolding acted_before
other_slot db user id c b first stands at miss =
    let never = any-eq-false _ db.approvers first b stands in ground arith

module _ (ctx : Context) (db : Db) (actor : Actor) (id : Key) (cr : Store.ChangeRequest)
    (keys : IsKeyed db) (found : find_cr id db ≡ some cr) where
  IsPending-approve :
      (dto : DecisionDto)
      → IsPending ctx db actor cr
      → (after : Db) × (approve_db ctx db actor id dto ≡ ok after)
  IsPending-approve dto p =
      let ds = active_delegator_ids db actor.user_id ctx.now in
      let same : cr.id ≡ id = (==_iff cr.id id).0 (find-In _ db.change_requests cr found).1 in
      let (a, m, h) =
        any-In (waits_for actor.user_id ds) (sort_asc by_order (slots_of cr.id db)) p.waiting in
      let (stands, of') =
        (In-filter _ db.approvers a).0 ((In-sort_asc by_order (slots_of cr.id db) a).0 m) in
      let (who, open') =
        and-true (a.user_id == actor.user_id || includes ds a.user_id) (is_open a) h in
      let (c, chosen) =
        choose_slot_of ctx db actor id keys ds a stands (ground arith) open'
          (elim (Bool-cases (a.user_id == actor.user_id)) [
            | inl mine ↦ inl ((==_iff _ _).0 mine)
            | inr other ↦ inr ((includes-In ds a.user_id).0 (ground arith))
          ]) in
      let idle =
        subst (λ k. already_acted (slots_of k db) (some actor.user_id) ≡ false) same p.idle in
      approve_db_total ctx db actor id dto cr c found p.status chosen
        (acted_before_of ctx db actor id keys c.slot.id idle)

  fit_waits :
      (ds : List Key) (c : Choice)
      → IsFit db id actor.user_id ds c
      → waits_for actor.user_id ds c.slot ≡ true
  fit_waits ds c fit = elim fit.owned [
    | inl mine ↦ ground (arith, fit.undecided)
    | inr listed ↦
        let l = (includes-In ds c.slot.user_id).1 listed.1 in
        elim (Bool-cases (c.slot.user_id == actor.user_id)) [
          | inl a ↦ ground (arith, fit.undecided)
          | inr b ↦ ground (arith, fit.undecided)
        ]
  ]

  -- The actor has filled neither the open slot nor another one.
  not_acted :
      {ds : List Key} (c : Choice)
      → IsFit db id actor.user_id ds c
      → acted_before db id c.slot.id actor.user_id ≡ false
      → already_acted (slots_of cr.id db) (some actor.user_id) ≡ false
  unfolding already_acted
  not_acted c fit first =
      let one =
        any-eq-false_of (λ a. (a.user_id == actor.user_id) && is_some a.decision)
          (slots_of cr.id db) (λ b m. (slot_facts b m).0) in
      let two =
        any-eq-false_of (λ a. is_key a.decided_by_id actor.user_id) (slots_of cr.id db)
          (λ b m. (slot_facts b m).1) in
      ground arith
    where
      slot_facts :
          (b : Approver)
          → In b (slots_of cr.id db)
          → (((b.user_id == actor.user_id) && is_some b.decision) ≡ false)
            × (is_key b.decided_by_id actor.user_id ≡ false)
      slot_facts b m =
          let (stands, of') = (In-filter _ db.approvers b).0 m in
          let at : b.change_request_id ≡ id =
            (==_iff _ _).0 of' ∙ (==_iff cr.id id).0 (find-In _ db.change_requests cr found).1 in
          elim (Bool-cases (b.id == c.slot.id)) [
            | inl hit ↦
                let e : b ≡ c.slot = keys.slots b c.slot stands fit.stands ((==_iff _ _).0 hit) in
                let clean = keys.clean c.slot fit.stands fit.undecided in
                rw e (ground (arith, fit.undecided))
            | inr miss ↦ other_slot db actor.user_id id c b first stands at miss
          ]

  -- Whoever may approve has a slot that waits, and has not acted.
  approve-IsPending :
      (dto : DecisionDto) (after : Db)
      → approve_db ctx db actor id dto ≡ ok after
      → IsPending ctx db actor cr
  approve-IsPending dto after e =
      let ds = active_delegator_ids db actor.user_id ctx.now in
      let f = approve_db-Approved ctx db actor id dto after e in
      let fit = choose_slot-IsFit ds db id actor.user_id f.choice f.chosen in
      let same : cr.id ≡ id = (==_iff cr.id id).0 (find-In _ db.change_requests cr found).1 in
      let inside : In f.choice.slot (slots_of cr.id db) =
        (In-filter _ db.approvers f.choice.slot).1 (fit.stands, ground (arith, fit.of_request)) in
      record {
        status = let c : f.cr ≡ cr = ground (arith, f.found) in rw (← c) f.status;
        waiting =
            any_of_In (waits_for actor.user_id ds) (sort_asc by_order (slots_of cr.id db))
              f.choice.slot ((In-sort_asc by_order (slots_of cr.id db) f.choice.slot).1 inside)
              (fit_waits ds f.choice fit);
        idle = not_acted f.choice fit f.first;
      }

-- For an approver, the inbox shows a change request exactly when each decision of his on it goes
-- through, at the same time and in the same state. The keys are unique, and an open slot has no decider.
pub inbox-approve_iff :
    (ctx : Context) (db : Db) (actor : Actor) (id : Key) (cr : Store.ChangeRequest)
    → actor.role ≡ Role.approver
    → IsKeyed db
    → find_cr id db ≡ some cr
    → In (summary_in ctx db actor cr) (inbox ctx db actor)
      ↔ ((dto : DecisionDto) → (after : Db) × (approve_db ctx db actor id dto ≡ ok after))
inbox-approve_iff ctx db actor id cr role keys found = (to, from)
  where
    stands : In cr db.change_requests × ((cr.id == id) ≡ true)
    stands = find-In (λ cr. cr.id == id) db.change_requests cr found

    to :
        In (summary_in ctx db actor cr) (inbox ctx db actor)
        → (dto : DecisionDto) → (after : Db) × (approve_db ctx db actor id dto ≡ ok after)
    to m dto =
        let h = (inbox_iff ctx db actor cr (inr role) stands.0).0 m in
        IsPending-approve ctx db actor id cr keys found dto
          ((in_inbox-IsPending ctx db actor cr role).0 h.1)

    from :
        ((dto : DecisionDto) → (after : Db) × (approve_db ctx db actor id dto ≡ ok after))
        → In (summary_in ctx db actor cr) (inbox ctx db actor)
    from h =
        let (after, e) = h (record { decision = Decision.approve; comment = none }) in
        let p = approve-IsPending ctx db actor id cr keys found _ after e in
        (inbox_iff ctx db actor cr (inr role) stands.0).1
          (IsPending-visible ctx db actor cr role p, (in_inbox-IsPending ctx db actor cr role).1 p)
