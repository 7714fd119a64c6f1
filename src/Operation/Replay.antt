-- ===== src/Operation/Replay.antt =====
-- An event that was accepted is accepted again, and changes nothing then.
use box_fleet.Base.{
  ℕ, ◌+◌, ◌≡◌, refl, Text, true, false, none, some, List, [], ◌∷◌, ◌++◌, arith, find_row, any_row,
  find_row-append_none, any_row-find_row, update_rows, same, same_iff, Option-cases, Bool-cases,
  ◌⊎◌, inl, inr,
}
use box_fleet.Platform.{Platform}
use box_fleet.Database.{
  Status, Operation, OperationEvent, Store, ok, same_status, is_running, ◌>>=◌,
}
use box_fleet.Operation.Sql.{
  get_by_id, by_sequence, get_event, last_sequence, append_event, update_one,
}
use box_fleet.Operation.Facts.{sets-IsSameRequest}
use box_fleet.Operation.Frozen.{get_by_id-update, get_by_id-update_other}
use box_fleet.Operation.Steps.{Statement, apply}
use box_fleet.Operation.Methods.{try_one}
use box_fleet.Operation.Validate.{nullable}
use box_fleet.Operation.Calls.{lease_duration}
use box_fleet.Operation.Report.{
  Report, record_tx, accept_event, log_or_replay, new_event, same_content, same_hash, applies,
  applied, finished,
}

module _ (p : Platform) (now : ℕ) (fresh : Text) (q : Report) where
  -- The database after an accepted event.
  abbrev pub with_event : Store → Store
  with_event s = record s {
    events = s.events ++ (new_event p now fresh q ∷ []);
    operations = update_rows (applies p now q) (applied p now q) s.operations;
  }

  -- What a new event that was accepted shows: the lease was held, and its number was the next.
  pub record IsAccepted (current : Operation) (s t : Store) : Type 0 where
    pub running : is_running current.status ≡ true
    pub attempt : current.attempt ≡ q.attempt
    pub hash : same_hash current.lease_token_hash (p.sha256_hex q.lease_token) ≡ true
    pub next : q.sequence ≡ last_sequence q.operation_id q.attempt s.events + 1
    pub leased : Operation
    pub held : find_row (applies p now q) s.operations ≡ some leased
    pub after : t ≡ with_event s

  accept_event-IsAccepted :
      (current row : Operation) (s t : Store)
      → any_row (by_sequence q.operation_id q.attempt q.sequence) s.events ≡ false
      → accept_event p now fresh q current s ≡ (ok row, t)
      → IsAccepted current s t
  unfolding accept_event append_event update_one try_one new_event ◌>>=◌
  accept_event-IsAccepted current row s t free h =
      elim (Option-cases (find_row (applies p now q) s.operations)) [
        | inl e ↦ ground arith
        | inr (r, e) ↦ record {
          running = ground arith;
          attempt = ground arith;
          hash = ground arith;
          next = ground arith;
          leased = r;
          held = e;
          after = ground arith;
        }
      ]

  new_case :
      (current row : Operation) (s t : Store)
      → get_event q.operation_id q.attempt q.sequence s.events ≡ none
      → accept_event p now fresh q current s ≡ (ok row, t)
      → IsAccepted current s t
  unfolding get_event
  new_case current row s t n h =
      accept_event-IsAccepted current row s t (any_row-find_row _ s.events n) h

  -- RecordNodeOperationEvent accepts an event of an operation of the node in two cases only. It is
  -- logged already, with the same content, and nothing changes; or it is new, the operation is running
  -- in that attempt under the hash of the token, its lease has not run out, and the sequence
  -- number is the next: then the event is appended and the operation is updated.
  pub record_tx-cases :
      (row : Operation) (s t : Store)
      → record_tx p now fresh q s ≡ (ok row, t)
      → (current : Operation) × (get_by_id q.operation_id s.operations ≡ some current)
        × (same current.node_id q.node.id ≡ true)
        × (((e : OperationEvent) × (get_event q.operation_id q.attempt q.sequence s.events ≡ some e)
              × (same_content e q ≡ true)
              × (t ≡ s))
            ⊎ ((get_event q.operation_id q.attempt q.sequence s.events ≡ none)
                × IsAccepted current s t))
  unfolding record_tx log_or_replay ◌>>=◌
  record_tx-cases row s t h = elim (Option-cases (get_by_id q.operation_id s.operations)) [
    | inl e ↦ ground arith
    | inr (current, e) ↦
        elim (Option-cases (get_event q.operation_id q.attempt q.sequence s.events)) [
          | inl n ↦ (current, e, ground arith, inr (n, new_case current row s t n (ground arith)))
          | inr (x, k) ↦ (current, e, ground arith, inl (x, k, ground arith, ground arith))
        ]
  ]

same_status_self : (x : Status) → same_status x x ≡ true
same_status_self Status.queued = refl
same_status_self Status.running = refl
same_status_self Status.succeeded = refl
same_status_self Status.failed = refl
same_status_self Status.cancelled = refl
same_status_self Status.expired = refl

module _ (p : Platform) (now : ℕ) (fresh : Text) (q : Report) where
  same_content-new_event : same_content (new_event p now fresh q) q ≡ true
  unfolding new_event
  same_content-new_event = ground (
    arith,
    same_status_self q.status,
    same_iff q.phase q.phase,
    same_iff q.message q.message,
    same_iff q.details_json q.details_json,
    same_iff q.result_json q.result_json,
    same_iff q.error q.error,
  )

  get_event-new_event :
      (es : List OperationEvent)
      → get_event q.operation_id q.attempt q.sequence es ≡ none
      → get_event q.operation_id q.attempt q.sequence (es ++ (new_event p now fresh q ∷ []))
        ≡ some (new_event p now fresh q)
  unfolding get_event new_event find_row by_sequence
  get_event-new_event es h = ground (
    arith,
    find_row-append_none (by_sequence q.operation_id q.attempt q.sequence) es
        (new_event p now fresh q ∷ []),
    same_iff q.operation_id q.operation_id,
  )

  abbrev event_update : Statement
  event_update =
      apply q.operation_id q.node.id (nullable (p.sha256_hex q.lease_token)) q.attempt q.status
        q.phase q.result_json q.error (nullable (p.format_time (now + lease_duration)))
        (finished p now q.status)

  -- The row of the operation after the UPDATE, still on its node.
  updated_row :
      (rows : List Operation) (r : Operation)
      → get_by_id q.operation_id rows ≡ some r
      → same r.node_id q.node.id ≡ true
      → (x : Operation) × (get_by_id q.operation_id
            (update_rows (applies p now q) (applied p now q) rows)
          ≡ some x)
        × (same x.node_id q.node.id ≡ true)
  updated_row rows r h n = elim (Bool-cases (applies p now q r)) [
    | inl hit ↦ (
      applied p now q r,
      get_by_id-update (p.sql_time now) q.operation_id event_update rows r h hit,
      rw ((sets-IsSameRequest (p.sql_time now) event_update r).node_id) n,
    )
    | inr miss ↦
        (r, get_by_id-update_other (p.sql_time now) q.operation_id event_update rows r h miss, n)
  ]

  replay_known :
      (later : ℕ) (fresh' : Text) (t : Store) (current : Operation) (e : OperationEvent)
      → get_by_id q.operation_id t.operations ≡ some current
      → same current.node_id q.node.id ≡ true
      → get_event q.operation_id q.attempt q.sequence t.events ≡ some e
      → same_content e q ≡ true
      → record_tx p later fresh' q t ≡ (ok current, t)
  unfolding record_tx log_or_replay ◌>>=◌
  replay_known later fresh' t current e h n k c = ground arith

  -- When an event was accepted, the same event is accepted again at any later time, under whatever
  -- identifier it would be given, and that changes nothing.
  pub record_tx-replay :
      (later : ℕ) (fresh' : Text) (row : Operation) (s t : Store)
      → record_tx p now fresh q s ≡ (ok row, t)
      → (x : Operation) × (record_tx p later fresh' q t ≡ (ok x, t))
  record_tx-replay later fresh' row s t h =
      let (current, found, n, cases) = record_tx-cases p now fresh q row s t h in
      elim cases [
        | inl (e, k, c, same_store) ↦
            (current, rw same_store (replay_known later fresh' s current e found n k c))
        | inr (fresh_event, accepted) ↦
            let (x, there, y) = updated_row s.operations current found n in
            (
              x,
              rw (accepted.after) (
                  replay_known later fresh' _ x (new_event p now fresh q) there y
                    (get_event-new_event s.events fresh_event) same_content-new_event),
            )
      ]
