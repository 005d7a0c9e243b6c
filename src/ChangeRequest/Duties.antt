-- ===== src/ChangeRequest/Duties.antt =====
-- Segregation of duties in `approve`.
use dbflow.Common.{
  ◌==◌, true, false, ◌≡◌, ◌≢◌, ◌⊎◌, inl, inr, List, is_some, In, In-update_where, any-eq-false,
  Bool-cases, subst, arith,
}
use dbflow.Store.{Key, Actor, Db, Context, Approver, ok}
use dbflow.Delegation.{active_delegator_ids}
use dbflow.ChangeRequest.Decide.{DecisionDto, Choice, acted_before, write_decision, approve_db}
use dbflow.ChangeRequest.Slots.{
  Approved, approve_db-Approved, filled_by, HasSlotKeys, IsSeparated, Approved-approvers, IsFit,
  choose_slot-IsFit,
}

-- Who fills the slot that `approve` writes: the actor.
filled_by-write_decision :
    {db : Db} {id user : Key} {delegators : List Key} (ctx : Context) (c : Choice)
    (dto : DecisionDto)
    → IsFit db id user delegators c
    → filled_by (write_decision ctx user c.for_other dto c.slot) ≡ user
filled_by-write_decision ctx c dto fit = ground (arith, fit.owned)

-- A slot of the change request that somebody has filled, other than the chosen one, was not filled by
-- the actor.
acted_before_lem :
    (db : Db) (id slot_id user : Key) (b : Approver)
    → acted_before db id slot_id user ≡ false
    → In b db.approvers
    → b.change_request_id ≡ id
    → b.id ≢ slot_id
    → is_some b.decision ≡ true
    → filled_by b ≢ user
unfolding acted_before
acted_before_lem db id slot_id user b none' m here other decided =
    let never = any-eq-false _ db.approvers none' b m in ground (arith, never)

module _ {ctx : Context} {db : Db} {actor : Actor} {id : Key} {dto : DecisionDto} {after : Db}
    (keys : HasSlotKeys db) (f : Approved ctx db actor id dto after) where
  -- A slot after the decision: the chosen one as it was written, or an old one.
  slot_after :
      (a : Approver)
      → In a after.approvers
      → (a ≡ write_decision ctx actor.user_id f.choice.for_other dto f.choice.slot)
        ⊎ (In a db.approvers × (a.id ≢ f.choice.slot.id))
  slot_after a m =
      let (x, stands, e) =
        In-update_where (λ a. a.id == f.choice.slot.id)
          (write_decision ctx actor.user_id f.choice.for_other dto) db.approvers a
          (subst (In a) (Approved-approvers f) m) in
      let fit =
        choose_slot-IsFit (active_delegator_ids db actor.user_id ctx.now) db id actor.user_id
          f.choice f.chosen in
      elim (Bool-cases (x.id == f.choice.slot.id)) [
        | inl hit ↦
            let same : x ≡ f.choice.slot = keys x f.choice.slot stands fit.stands (ground arith) in
            inl (ground arith)
        | inr miss ↦ let old : a ≡ x = ground arith in inr (rw old stands, ground arith)
      ]

  -- An old slot that is decided was filled by another person than the actor.
  old_slot_filled_by :
      (b : Approver)
      → In b db.approvers
      → b.id ≢ f.choice.slot.id
      → b.change_request_id ≡ id
      → is_some b.decision ≡ true
      → filled_by b ≢ actor.user_id
  old_slot_filled_by b m other here decided =
      acted_before_lem db id f.choice.slot.id actor.user_id b f.first m here other decided

-- No person fills two slots of one change request, directly or for another: if that holds, it holds
-- after every successful `approve`. The slots' keys are unique.
pub approve-IsSeparated :
    (ctx : Context) (db : Db) (actor : Actor) (id : Key) (dto : DecisionDto) (after : Db)
    → HasSlotKeys db
    → IsSeparated db
    → approve_db ctx db actor id dto ≡ ok after
    → IsSeparated after
approve-IsSeparated ctx db actor id dto after keys sep e a b ma mb same da db' fill =
    let f = approve_db-Approved ctx db actor id dto after e in
    let fit =
      choose_slot-IsFit (active_delegator_ids db actor.user_id ctx.now) db id actor.user_id f.choice
        f.chosen in
    let mine = filled_by-write_decision ctx f.choice dto fit in
    elim (slot_after keys f a ma) [
      | inl new_a ↦ elim (slot_after keys f b mb) [
        | inl new_b ↦ cc
        | inr (old_b, other) ↦ absurd (
            old_slot_filled_by keys f b old_b other (ground (arith, fit.of_request)) db'
              (ground arith))
      ]
      | inr (old_a, other) ↦ elim (slot_after keys f b mb) [
        | inl new_b ↦ absurd (
            old_slot_filled_by keys f a old_a other (ground (arith, fit.of_request)) da
              (ground arith))
        | inr (old_b, other') ↦ sep a b old_a old_b same da db' fill
      ]
    ]
