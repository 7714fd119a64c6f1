-- ===== src/Operation/Lease.antt =====
-- A claim that is granted gives a lease that can be renewed until it ends.
use box_fleet.Base.{
  ℕ, ◌≡◌, refl, Text, same, same_iff, before, Bool, true, not, ◌&&◌, Option, none, some, arith,
  find_row, update_rows, any_row, any_row-update_rows, find_row-holds, Bool-cases, Option-cases,
  trim_space, inl, inr,
}
use box_fleet.Platform.{Platform}
use box_fleet.Database.{running, Operation, Node, Store, Result, ok, err, M, ◌>>=◌, return}
use box_fleet.Operation.Sql.{
  by_id, set_and, claim_where, claim_set, lease_held, resume_set, renew_where, update_one,
}
use box_fleet.Operation.Validate.{is_empty, has_capabilities, nullable}
use box_fleet.Operation.Calls.{OperationView, ClaimParams, get_node, view}
use box_fleet.Operation.Methods.{
  try_one, lease_until, token_hash, claim_new, after_resume, claim_or_resume, claim_active,
  claim_operation, granted, sql_now,
}

-- The token holds a lease on the operation: it is running, and a renewal with the token and the
-- attempt matches its row at every time before the end of the lease.
pub record IsLeased (p : Platform) (now : ℕ) (node : Text) (op : OperationView) (token : Text)
    (t : Store) : Type 0 where
  pub running : op.status ≡ running
  pub renewable :
      (later : Text)
      → set_and (lease_until p now) (before later) ≡ true
      → any_row (renew_where op.id node (token_hash p now token) op.attempt later) t.operations
        ≡ true

-- A SHA-256 in hexadecimal is no blank text.
abbrev pub HasHash : Platform → Type 0
HasHash p = (t : Text) → (h : Text) × (nullable (p.sha256_hex t) ≡ some h)

update_one-found :
    (q : Operation → Bool) (f : Operation → Operation) (s t : Store) (r : Operation)
    → try_one (update_one q f) s ≡ (ok (some r), t)
    → (x : Operation) × (find_row q s.operations ≡ some x)
      × (r ≡ f x)
      × (t ≡ record s { operations = update_rows q f s.operations })
unfolding update_one try_one ◌>>=◌
update_one-found q f s t r h = elim (Option-cases (find_row q s.operations)) [
  | inl gone ↦ ground arith
  | inr (x, there) ↦ (x, there, ground arith, ground arith)
]

module _ (p : Platform) (now : ℕ) (hex : HasHash p) where
  view-same :
      (r : Operation) (s t : Store) (v : OperationView)
      → view p r s ≡ (ok v, t)
      → (v.id ≡ r.id) × (v.status ≡ r.status) × (v.attempt ≡ r.attempt) × (t ≡ s)
  unfolding view ◌>>=◌
  view-same r s t v h = ground arith

  claimed-IsLeased :
      (i node token : Text) (s t u : Store) (r : Operation) (v : OperationView)
      → try_one
          (update_one
            (claim_where i node (sql_now p now))
            (claim_set (sql_now p now) (token_hash p now token) (lease_until p now)))
          s
        ≡ (ok (some r), t)
      → view p r t ≡ (ok v, u)
      → IsLeased p now node v token u
  unfolding claim_where claim_set renew_where lease_held by_id
  claimed-IsLeased i node token s t u r v e k =
      let (x, there, shape, after) = update_one-found _ _ s t r e in
      let (vi, vs, va, same_store) = view-same r t u v k in
      let hit = find_row-holds _ s.operations x there in
      let (h, hash) = hex token in
      record {
        running = rw (vs, shape) refl;
        renewable = λ later ahead.
            rw (same_store, after)
              (any_row-update_rows _ _ _ s.operations x there
                (ground (arith, same_iff r.id v.id, same_iff h h)));
      }

  resumed-IsLeased :
      (i node token : Text) (s t u : Store) (r : Operation) (v : OperationView)
      → try_one
          (update_one
            (lease_held i node (token_hash p now token) (sql_now p now))
            (resume_set (sql_now p now) (lease_until p now)))
          s
        ≡ (ok (some r), t)
      → view p r t ≡ (ok v, u)
      → IsLeased p now node v token u
  unfolding resume_set renew_where lease_held by_id
  resumed-IsLeased i node token s t u r v e k =
      let (x, there, shape, after) = update_one-found _ _ s t r e in
      let (vi, vs, va, same_store) = view-same r t u v k in
      let hit = find_row-holds _ s.operations x there in
      record {
        running = ground arith;
        renewable = λ later ahead.
            rw (same_store, after)
              (any_row-update_rows _ _ _ s.operations x there (ground (arith, same_iff r.id v.id)));
      }

-- A chain that returns has returned from its first part.
bind-ok_cases :
    {A B : Type 0} (m : M A) (f : A → M B) (s u : Store) (b : B) (r : Result A) (t : Store)
    → m s ≡ (r, t)
    → (m >>= f) s ≡ (ok b, u)
    → (a : A) × (m s ≡ (ok a, t)) × (f a t ≡ (ok b, u))
unfolding ◌>>=◌
bind-ok_cases m f s u b (ok a) t e h = (a, e, rw e at h)
bind-ok_cases m f s u b (err z) t e h = cc (rw e at h)

pub bind-ok :
    {A B : Type 0} (m : M A) (f : A → M B) (s u : Store) (b : B)
    → (m >>= f) s ≡ (ok b, u)
    → (a : A) × (m s ≡ (ok a, (m s).1)) × (f a (m s).1 ≡ (ok b, u))
bind-ok m f s u b h = bind-ok_cases m f s u b (m s).0 (m s).1 refl h

module _ (p : Platform) (now : ℕ) (hex : HasHash p) where
  granted-cases :
      (given token : Text) (o : Option Operation) (t u : Store) (v : OperationView)
      → granted p now given o t ≡ (ok (some (v, token)), u)
      → (r : Operation) × (o ≡ some r) × (view p r t ≡ (ok v, u)) × (token ≡ given)
  unfolding granted return
  granted-cases given token none t u v h = ground arith
  granted-cases given token (some r) t u v h =
      let (w, first, rest) = bind-ok (view p r) _ t u _ h in (r, refl, ground arith, ground arith)

  claim_new-IsLeased :
      (secret : Text) (node : Node) (op v : OperationView) (token : Text) (s u : Store)
      → claim_new p now secret node op s ≡ (ok (some (v, token)), u)
      → IsLeased p now node.id v token u
  unfolding claim_new
  claim_new-IsLeased secret node op v token s u h =
      let (o, first, rest) = bind-ok _ _ s u _ h in
      let (r, some_row, seen, same_token) = granted-cases _ token o _ u v rest in
      claimed-IsLeased p now hex op.id node.id token s _ u r v
        (rw (same_token) (rw some_row at first)) seen

  after_resume-IsLeased :
      (secret : Text) (params : ClaimParams) (node : Node) (op v : OperationView) (token : Text)
      (s t u : Store) (o : Option Operation)
      → try_one
          (update_one
            (lease_held op.id node.id (token_hash p now params.lease_token) (sql_now p now))
            (resume_set (sql_now p now) (lease_until p now)))
          s
        ≡ (ok o, t)
      → after_resume p now secret params node op o t ≡ (ok (some (v, token)), u)
      → IsLeased p now node.id v token u
  unfolding after_resume return
  after_resume-IsLeased secret params node op v token s t u none e h =
      claim_new-IsLeased secret node op v token t u h
  after_resume-IsLeased secret params node op v token s t u (some r) e h =
      let (w, first, rest) = bind-ok (view p r) _ t u _ h in
      let same_token : params.lease_token ≡ token = ground arith in
      let seen : view p r t ≡ (ok v, u) = ground arith in
      resumed-IsLeased p now hex op.id node.id token s t u r v (rw same_token at e) seen

  claim_or_resume-IsLeased :
      (secret : Text) (params : ClaimParams) (node : Node) (op v : OperationView) (token : Text)
      (s u : Store)
      → claim_or_resume p now secret params node op s ≡ (ok (some (v, token)), u)
      → IsLeased p now node.id v token u
  unfolding claim_or_resume
  claim_or_resume-IsLeased secret params node op v token s u h =
      elim (Bool-cases (
        same (trim_space params.current_operation_id) op.id
        && not (is_empty (trim_space params.lease_token)))) [
          | inl named ↦
              let (o, first, rest) = bind-ok _ _ s u _ (rw named at h) in
              after_resume-IsLeased secret params node op v token s _ u o first rest
          | inr other ↦ claim_new-IsLeased secret node op v token s u (rw other at h)
        ]

  claim_active-IsLeased :
      (secret : Text) (params : ClaimParams) (node : Node) (v : OperationView) (token : Text)
      (s u : Store) (o : Option Operation)
      → claim_active p now secret params node o s ≡ (ok (some (v, token)), u)
      → IsLeased p now node.id v token u
  unfolding claim_active return
  claim_active-IsLeased secret params node v token s u none h = ground arith
  claim_active-IsLeased secret params node v token s u (some row) h =
      let (op, first, rest) = bind-ok (view p row) _ s u _ h in
      elim (Bool-cases (has_capabilities params.capabilities op.required_capabilities)) [
        | inl able ↦ claim_or_resume-IsLeased secret params node op v token _ u (rw able at rest)
        | inr unable ↦ ground arith
      ]

  get_node-same :
      (name : Text) (s t : Store) (n : Node)
      → get_node name s ≡ (ok n, t)
      → get_node name s ≡ (ok n, s)
  unfolding get_node
  get_node-same name s t n h = ground arith

  -- If SHA-256 texts are not blank, then a claim that ClaimNodeOperation grants is of an operation of the
  -- node, now running, whose lease the token that is returned can renew: for that token and that
  -- attempt a row of the table is held at every time before the end of the lease.
  pub claim_operation-IsLeased :
      (secret : Text) (params : ClaimParams) (v : OperationView) (token : Text) (s u : Store)
      → claim_operation p now secret params s ≡ (ok (some (v, token)), u)
      → (n : Node) × (get_node params.node_name s ≡ (ok n, s)) × IsLeased p now n.id v token u
  unfolding claim_operation
  claim_operation-IsLeased secret params v token s u h =
      let (n, first, rest) = bind-ok (get_node params.node_name) _ s u _ h in
      let (done, second, more) = bind-ok _ _ _ u _ rest in
      let (row, third, last) = bind-ok _ _ _ u _ more in
      (
        n,
        get_node-same params.node_name s _ n first,
        claim_active-IsLeased secret params n v token _ u row last,
      )
