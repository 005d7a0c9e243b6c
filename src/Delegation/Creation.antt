-- ===== src/Delegation/Creation.antt =====
-- When a delegation is made: `createDelegation` of apps/api/src/delegation/delegation.service.ts.
use dbflow.Common.{
  ℕ, String, ◌<◌, true, ◌≡◌, ◌≢◌, ◌↔◌, ◌⊎◌, inl, inr, Option, some, [], ◌∷◌, ◌++◌, Option-cases,
  arith,
}
use dbflow.Store.{
  Key, Role, User, Actor, Db, Context, ok, AuditAction, AuditTargetType, AuditTarget, AuditOutcome,
}
use dbflow.Audit.{build_data, record_log}
use dbflow.Delegation.{CreateDto, delegator_of, user_by_id, same_allowed_role, create_delegation}

-- Both users exist and have the same role, which is that of a reviewer or of an approver.
abbrev pub HaveSameDuty : Db → Key → Key → Type 0
HaveSameDuty db a b =
    (u : User) × (v : User) × (user_by_id a db ≡ some u)
    × (user_by_id b db ≡ some v)
    × (u.role ≡ v.role)
    × ((u.role ≡ Role.reviewer) ⊎ (u.role ≡ Role.approver))

same_allowed_role_iff :
    (db : Db) (a b : Key)
    → (same_allowed_role (user_by_id a db) (user_by_id b db) ≡ true) ↔ HaveSameDuty db a b
same_allowed_role_iff db a b = (
  λ e. elim (Option-cases (user_by_id a db)) [
    | inl missing ↦ absurd (ground arith)
    | inr (u, at) ↦ elim (Option-cases (user_by_id b db)) [
      | inl missing ↦ absurd (ground arith)
      | inr (v, at') ↦ (u, v, at, at', ground arith, ground arith)
    ]
  ],
  λ (u, v, at, at', same, duty). ground arith,
)

-- The database with the new row and its audit entry.
abbrev pub with_delegation : Context → Db → CreateDto → Actor → ℕ → ℕ → Db
with_delegation ctx db dto actor s e =
    record_log ctx
      (build_data actor AuditAction.delegation_updated AuditTargetType.delegation
        (AuditTarget.row (ctx.fresh 0)) AuditOutcome.success)
      (record db {
        delegations =
            db.delegations
            ++ (record {
              id = ctx.fresh 0;
              delegator_id = delegator_of actor dto;
              delegate_id = dto.delegate_id;
              starts_at = s;
              ends_at = e;
              reason = dto.reason;
              created_by_id = actor.user_id;
            }
                ∷ []);
      })

-- A request for a delegation leaves a database exactly when that is the one with the row of the
-- delegator, the delegate and the parsed times and its audit entry, the start lies before the end, the
-- delegator is another than the delegate, and both are reviewers or both approvers.
pub create_delegation_iff :
    (parse_date : String → Option ℕ) (ctx : Context) (db : Db) (dto : CreateDto) (actor : Actor)
    (after : Db)
    → (create_delegation parse_date ctx db dto actor ≡ ok after) ↔ (
        (delegator_of actor dto ≢ dto.delegate_id)
        × HaveSameDuty db (delegator_of actor dto) dto.delegate_id
        × ((s : ℕ) × (e : ℕ) × (parse_date dto.starts_at ≡ some s)
            × (parse_date dto.ends_at ≡ some e)
            × (s < e)
            × (after ≡ with_delegation ctx db dto actor s e)))
unfolding create_delegation
create_delegation_iff parse_date ctx db dto actor after =
    let duty = same_allowed_role_iff db (delegator_of actor dto) dto.delegate_id in
    (
      λ ok'. elim (Option-cases (parse_date dto.starts_at)) [
        | inl missing ↦ absurd (ground arith)
        | inr (s, at) ↦ elim (Option-cases (parse_date dto.ends_at)) [
          | inl missing ↦ absurd (ground arith)
          | inr (e, at') ↦
              (ground arith, duty.0 (ground arith), (s, e, at, at', ground arith, ground arith))
        ]
      ],
      λ (other, same, (s, e, at, at', before, made)). let roles = duty.1 same in ground arith,
    )
