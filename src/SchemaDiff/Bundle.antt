-- ===== src/SchemaDiff/Bundle.antt =====
-- The change request that `applyToChangeRequest` of apps/api/src/schema-diff/schema-diff.service.ts
-- makes of a comparison.
use dbflow.Common.{
  ℕ, suc, ◌≡◌, refl, ap, subst, ◌≢◌, ◌⊎◌, inl, inr, true, List, [], ◌∷◌, ◌++◌, map, In, find,
  find-In, ◌==◌, ◌&&◌, map_index, Bool-cases, Option-cases, and-true, arith,
}
use dbflow.Store.{
  Key, Text, Role, same_role, TargetEnv, same_env, AuditAction, SqlType, Status, TargetDatabase,
  Actor, Db, Context, Result, ok, err, ◌>>=◌, ◌>>◌, >>=-eq-ok, guard, guard-eq-ok, or_throw,
  or_throw-eq-ok, Result-cases,
}
use dbflow.Store
use dbflow.Audit.{record_log}
use dbflow.TargetDatabases.{target_visible, get_entity_for_actor}
use dbflow.ChangeRequest.Submit.{cr_log, FileInput, create, create_db, new_cr, new_slots, new_files}
use dbflow.ChangeRequest.Records.{assert_assignee_roles}
use dbflow.ChangeRequest.Detail.{Detail}
use dbflow.SchemaDiff.Model.{DiffItem}
use dbflow.SchemaDiff.Service.{
  Introspection, ApplyInput, PreviewInput, Computed, introspect, compute_diff, diff_files, diff_dto,
  diff_request, compare_input, apply_to_change_request,
}

-- Who may compare with a database: an approver with any, the others with DEV.
abbrev pub MayTarget : Actor → TargetEnv → Type 0
MayTarget actor env = (actor.role ≡ Role.approver) ⊎ (env ≡ TargetEnv.dev)

target_visible-MayTarget :
    (actor : Actor) (t : TargetDatabase) → target_visible actor t ≡ true → MayTarget actor t.env
unfolding target_visible
target_visible-MayTarget actor t h = elim (Bool-cases (same_role actor.role Role.approver)) [
  | inl yes' ↦ inl (role' actor.role yes')
  | inr no' ↦ inr (env' t.env (ground arith))
]
  where
    role' : (r : Role) → same_role r Role.approver ≡ true → r ≡ Role.approver
    role' Role.approver e = refl
    role' Role.developer e = absurd (cc)
    role' Role.reviewer e = absurd (cc)
    role' Role.admin e = absurd (cc)

    env' : (e : TargetEnv) → same_env e TargetEnv.dev ≡ true → e ≡ TargetEnv.dev
    env' TargetEnv.dev e = refl
    env' TargetEnv.staging e = absurd (cc)
    env' TargetEnv.prod e = absurd (cc)

compute_diff-target :
    (live : Introspection) (db : Db) (actor : Actor) (dto : PreviewInput) (computed : Computed)
    → compute_diff live db actor dto ≡ ok computed
    → In computed.target db.targets × MayTarget actor computed.target.env
unfolding compute_diff get_entity_for_actor
compute_diff-target live db actor dto computed e =
    elim (Option-cases
      (find (λ t. (t.id == dto.target_database_id) && target_visible actor t) db.targets)) [
        | inl none' ↦ absurd (ground arith)
        | inr (t, found) ↦
            let (there, both) = find-In _ db.targets t found in
            let visible = and-true (t.id == dto.target_database_id) (target_visible actor t) both in
            let same : t ≡ computed.target = elim (Result-cases (introspect live t)) [
              | inl (current, live') ↦ ground arith
              | inr (f, down) ↦ absurd (ground arith)
            ] in
            subst (λ x. In x db.targets × MayTarget actor x.env) same
              (there, target_visible-MayTarget actor t visible.1)
      ]

-- What a file belongs to, its number and its content.
abbrev pub place_of : Store.File → Key × ℕ × Text
place_of f = (f.change_request_id, f.order, f.content)

abbrev pub item_place : Key → ℕ → DiffItem → Key × ℕ × Text
item_place id i item = (id, i, item.statement)

statements_of_files :
    (id : Key) (start : ℕ) (items : List DiffItem) (f : ℕ → DiffItem → FileInput)
    → ((i : ℕ) (item : DiffItem) → (f i item).content ≡ item.statement)
    → map place_of (
        map_index
          (λ i (input : FileInput). record {
            change_request_id = id;
            filename = input.filename;
            sql_type = input.sql_type;
            content = input.content;
            order = i;
          })
          start
          (map_index f start items))
      ≡ map_index (item_place id) start items
statements_of_files id start [] f h = refl
statements_of_files id start (item ∷ items) f h =
    rw (h start item, statements_of_files id (suc start) items f h) refl

diff_files-contents :
    (id : Key) (items : List DiffItem)
    → map place_of (new_files id (diff_files items)) ≡ map_index (item_place id) 0 items
unfolding new_files diff_files
diff_files-contents id items = statements_of_files id 0 items _ (λ i item. refl)

List-cases : {A : Type 0} (xs : List A) → (xs ≡ []) ⊎ ((x : A) × (rest : List A) × (xs ≡ x ∷ rest))
List-cases [] = inl refl
List-cases (x ∷ rest) = inr (x, rest, refl)

-- What the request leaves: a draft of the actor for the environment of the target, with the statements
-- of the comparison as the request's files, numbered from 0.
abbrev pub IsBundle : Db → Actor → Computed → Db → Type 0
IsBundle db actor computed after =
    (cr : Store.ChangeRequest) × (files : List Store.File) × (after.change_requests
      ≡ db.change_requests ++ (cr ∷ []))
    × (cr.status ≡ Status.draft)
    × (cr.author_id ≡ actor.user_id)
    × (cr.target_env ≡ computed.target.env)
    × (after.files ≡ db.files ++ files)
    × (map place_of files ≡ map_index (item_place cr.id) 0 computed.diff)

create-IsBundle :
    (ctx : Context) (db : Db) (actor : Actor) (dto : ApplyInput) (computed : Computed) (after : Db)
    (detail : Detail)
    → create ctx db actor (diff_request dto computed) ≡ (after, ok detail)
    → IsBundle db actor computed after
unfolding create create_db record_log assert_assignee_roles
create-IsBundle ctx db actor dto computed after detail e =
    let written : record_log ctx (cr_log actor AuditAction.cr_created (ctx.fresh 0)) (record db {
      change_requests = db.change_requests ++ (new_cr ctx actor (diff_request dto computed) ∷ []);
      approvers = db.approvers ++ new_slots ctx.fresh (ctx.fresh 0) [];
      files = db.files ++ new_files (ctx.fresh 0) (diff_files computed.diff);
    })
        ≡ after =
      ap (λ r. r.0) e in
    (
      new_cr ctx actor (diff_request dto computed),
      new_files (ctx.fresh 0) (diff_files computed.diff),
      ground arith,
      refl,
      refl,
      refl,
      ground arith,
      diff_files-contents (ctx.fresh 0) computed.diff,
    )

-- A change request that is made of a comparison is a draft of the actor for the environment of a
-- registered database that he may see, any for an approver and a DEV one for others, and its files,
-- rows of that change request numbered from 0, are the statements of the comparison, at least one, in
-- their order.
pub apply_to_change_request-IsBundle :
    (live : Introspection) (ctx : Context) (db : Db) (actor : Actor) (dto : ApplyInput) (after : Db)
    (detail : Detail)
    → apply_to_change_request live ctx db actor dto ≡ (after, ok detail)
    → (computed : Computed) × (compute_diff live db actor (compare_input dto) ≡ ok computed)
      × (computed.diff ≢ [])
      × In computed.target db.targets
      × MayTarget actor computed.target.env
      × IsBundle db actor computed after
unfolding apply_to_change_request diff_dto
apply_to_change_request-IsBundle live ctx db actor dto after detail e =
    elim (Result-cases (compute_diff live db actor (compare_input dto))) [
      | inr (f, bad) ↦ absurd (ground arith)
      | inl (computed, good) ↦
          let (there, may) = compute_diff-target live db actor (compare_input dto) computed good in
          elim (List-cases computed.diff) [
            | inl none' ↦ absurd (ground arith)
            | inr (item, items, some') ↦ (
              computed,
              good,
              λ n. cc,
              there,
              may,
              create-IsBundle ctx db actor dto computed after detail (ground arith),
            )
          ]
    ]
