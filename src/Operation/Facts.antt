-- ===== src/Operation/Facts.antt =====
-- What each UPDATE statement does to a row that it matches.
use box_fleet.Base.{◌≤◌, ◌≡◌, Text, true, arith}
use box_fleet.Database.{Operation, is_active}
use box_fleet.Operation.Sql.{
  by_id, active_on, expire_where, expire_set, claim_where, claim_set, lease_held, resume_set,
  renew_where, cancel_where, cancel_set, cancel_unclaimed_where, cancel_unclaimed_set, apply_set,
}
use box_fleet.Operation.Steps.{
  Statement, expire, claim, resume, renew, cancel, drop, apply, matches, sets,
}

-- An UPDATE touches active rows only.
pub matches-active :
    (now : Text) (u : Statement) (r : Operation)
    → matches now u r ≡ true
    → is_active r.status ≡ true
unfolding expire_where claim_where lease_held renew_where cancel_where cancel_unclaimed_where
matches-active now (expire node) r h = ground arith
matches-active now (claim i node hash lease) r h = ground arith
matches-active now (resume i node hash lease) r h = ground arith
matches-active now (renew i node hash n lease) r h = ground arith
matches-active now (cancel i) r h = ground arith
matches-active now (drop i) r h = ground arith
matches-active now (apply i node hash n next phase result error lease finished) r h = ground arith

-- The columns that no UPDATE sets.
pub record IsSameRequest (r t : Operation) : Type 0 where
  pub id : t.id ≡ r.id
  pub node_id : t.node_id ≡ r.node_id
  pub kind : t.kind ≡ r.kind
  pub payload_json : t.payload_json ≡ r.payload_json
  pub idempotency_key : t.idempotency_key ≡ r.idempotency_key
  pub capabilities_json : t.required_capabilities_json ≡ r.required_capabilities_json
  pub not_before : t.not_before ≡ r.not_before
  pub expires_at : t.expires_at ≡ r.expires_at
  pub requested_by : t.requested_by ≡ r.requested_by
  pub requested_at : t.requested_at ≡ r.requested_at
  pub retry_of : t.retry_of ≡ r.retry_of

pub sets-IsSameRequest :
    (now : Text) (u : Statement) (r : Operation) → IsSameRequest r (sets now u r)
unfolding expire_set claim_set resume_set cancel_set cancel_unclaimed_set apply_set
sets-IsSameRequest now (expire node) r = ground arith
sets-IsSameRequest now (claim i node hash lease) r = ground arith
sets-IsSameRequest now (resume i node hash lease) r = ground arith
sets-IsSameRequest now (renew i node hash n lease) r = ground arith
sets-IsSameRequest now (cancel i) r = ground arith
sets-IsSameRequest now (drop i) r = ground arith
sets-IsSameRequest now (apply i node hash n next phase result error lease finished) r = ground arith

pub sets-attempt : (now : Text) (u : Statement) (r : Operation) → r.attempt ≤ (sets now u r).attempt
unfolding expire_set claim_set resume_set cancel_set cancel_unclaimed_set apply_set
sets-attempt now (expire node) r = ground arith
sets-attempt now (claim i node hash lease) r = ground arith
sets-attempt now (resume i node hash lease) r = ground arith
sets-attempt now (renew i node hash n lease) r = ground arith
sets-attempt now (cancel i) r = ground arith
sets-attempt now (drop i) r = ground arith
sets-attempt now (apply i node hash n next phase result error lease finished) r = ground arith

pub sets-by_id : (now i : Text) (u : Statement) (r : Operation) → by_id i (sets now u r) ≡ by_id i r
unfolding by_id
sets-by_id now i u r = rw ((sets-IsSameRequest now u r).id)

-- So no UPDATE makes a row active that was not.
pub sets-active_on :
    (now node : Text) (u : Statement) (r : Operation)
    → matches now u r ≡ true
    → active_on node (sets now u r) ≡ true
    → active_on node r ≡ true
unfolding active_on
sets-active_on now node u r m h =
    ground (arith, matches-active now u r, (sets-IsSameRequest now u r).node_id)
