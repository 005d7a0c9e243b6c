-- ===== src/Delegation/Laws.antt =====
-- Who may act for whom.
use dbflow.Common.{
  ℕ, ◌==◌, Bool, true, ◌&&◌, ◌≡◌, refl, ◌↔◌, Option, none, some, filter, find, In, In-filter,
  In-map, In-map_of, find-In, find_of_In, is_some, and-true, map, subst, arith,
}
use dbflow.Store.{Key, Db}
use dbflow.Store
use dbflow.Delegation.{is_active, active_delegator_ids, is_active_delegate_for}

is_some-eq-true : {A : Type 0} (o : Option A) → is_some o ≡ true → (a : A) × (o ≡ some a)
is_some-eq-true none e = cc
is_some-eq-true (some a) e = (a, refl)

-- The list of delegators and the test for one delegator agree.
pub active_delegator_ids_iff :
    (db : Db) (delegate delegator : Key) (now : ℕ)
    → In delegator (active_delegator_ids db delegate now)
      ↔ (is_active_delegate_for db delegate delegator now ≡ true)
unfolding active_delegator_ids is_active_delegate_for
active_delegator_ids_iff db delegate delegator now = (to, from)
  where
    given : Store.Delegation → Bool
    given d = (d.delegate_id == delegate) && is_active now d

    asked : Store.Delegation → Bool
    asked d = (d.delegate_id == delegate) && ((d.delegator_id == delegator) && is_active now d)

    to :
        In delegator (map (λ (d : Store.Delegation). d.delegator_id) (filter given db.delegations))
        → is_some (find asked db.delegations) ≡ true
    to m =
        let (d, l, e) = In-map (λ (d : Store.Delegation). d.delegator_id) _ delegator m in
        let (stands, holds) = (In-filter given db.delegations d).0 l in
        let (a, b) = and-true (d.delegate_id == delegate) (is_active now d) holds in
        let (found, eq) = find_of_In asked db.delegations d stands (ground arith) in ground arith

    from :
        is_some (find asked db.delegations) ≡ true
        → In delegator
            (map (λ (d : Store.Delegation). d.delegator_id) (filter given db.delegations))
    from h =
        let (d, eq) = is_some-eq-true (find asked db.delegations) h in
        let (stands, holds) = find-In asked db.delegations d eq in
        let (a, rest) = and-true (d.delegate_id == delegate) _ holds in
        let (b, c) = and-true (d.delegator_id == delegator) (is_active now d) rest in
        let same : d.delegator_id ≡ delegator = ground arith in
        subst
          (λ k. In k (map (λ (d : Store.Delegation). d.delegator_id) (filter given db.delegations)))
          same
          (In-map_of (λ (d : Store.Delegation). d.delegator_id) (filter given db.delegations) d
            ((In-filter given db.delegations d).1 (stands, ground arith)))
