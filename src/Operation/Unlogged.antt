-- ===== src/Operation/Unlogged.antt =====
-- The methods that log no event: all but RecordNodeOperationEvent.
use box_fleet.Base.{ℕ, refl, Text, Bool, Option, none, some}
use box_fleet.Platform.{Platform}
use box_fleet.Database.{Operation, Node, Failure, Result, ok, err}
use box_fleet.Operation.Sql.{insert_operation}
use box_fleet.Operation.Calls.{
  OperationView, CreateParams, ClaimParams, Request, view, check_request, new_row,
}
use box_fleet.Operation.Methods.{
  create_operation, active_operation_of, claim_operation, renew_lease, request_cancel,
  cancel_unclaimed, check_retry, no_active, create_row, create_tx, recover, finish_create,
  expire_queued, view_found, granted, claim_new, after_resume, claim_or_resume, claim_active,
}
use box_fleet.Operation.Steps.{claim, resume, renew, cancel, drop}
use box_fleet.Operation.Keeps.{
  Keeps, if-Keeps, bind-Keeps, guard-Keeps, try_one-Keeps, get_node-Keeps, update-Keeps,
  insert-Keeps, log_of, keeping,
}

module _ (p : Platform) (now : ℕ) where
  expire_queued-Keeps : (node : Text) → Keeps log_of (expire_queued p now node)
  unfolding expire_queued
  expire_queued-Keeps node = record { at = λ s. refl }

  pub view-Keeps : (r : Operation) → Keeps log_of (view p r)
  unfolding view
  view-Keeps r = search keeping

  view_found-Keeps : (o : Option Operation) → Keeps log_of (view_found p now o)
  unfolding view_found
  view_found-Keeps none = search keeping
  view_found-Keeps (some r) = search (keeping, view-Keeps)

  pub active_operation_of-Keeps : (name : Text) → Keeps log_of (active_operation_of p now name)
  unfolding active_operation_of
  active_operation_of-Keeps name = search (keeping, expire_queued-Keeps, view_found-Keeps) depth 9

  granted-Keeps : (token : Text) (o : Option Operation) → Keeps log_of (granted p now token o)
  unfolding granted
  granted-Keeps token none = search keeping
  granted-Keeps token (some r) = search (keeping, view-Keeps)

  claim_new-Keeps :
      (secret : Text) (node : Node) (op : OperationView)
      → Keeps log_of (claim_new p now secret node op)
  unfolding claim_new
  claim_new-Keeps secret node op =
      bind-Keeps _ _ (try_one-Keeps _ (update-Keeps (p.sql_time now) (claim op.id node.id _ _)))
        (λ o. granted-Keeps _ o)

  after_resume-Keeps :
      (secret : Text) (params : ClaimParams) (node : Node) (op : OperationView)
      (o : Option Operation)
      → Keeps log_of (after_resume p now secret params node op o)
  unfolding after_resume
  after_resume-Keeps secret params node op none = claim_new-Keeps secret node op
  after_resume-Keeps secret params node op (some r) = search (keeping, view-Keeps)

  claim_or_resume-Keeps :
      (secret : Text) (params : ClaimParams) (node : Node) (op : OperationView)
      → Keeps log_of (claim_or_resume p now secret params node op)
  unfolding claim_or_resume
  claim_or_resume-Keeps secret params node op =
      if-Keeps _ _ _
        (bind-Keeps _ _ (try_one-Keeps _ (update-Keeps (p.sql_time now) (resume op.id node.id _ _)))
          (λ o. after_resume-Keeps secret params node op o))
        (claim_new-Keeps secret node op)

  claim_active-Keeps :
      (secret : Text) (params : ClaimParams) (node : Node) (o : Option Operation)
      → Keeps log_of (claim_active p now secret params node o)
  unfolding claim_active
  claim_active-Keeps secret params node none = search keeping
  claim_active-Keeps secret params node (some row) =
      search (keeping, view-Keeps, claim_or_resume-Keeps)

  pub claim_operation-Keeps :
      (secret : Text) (params : ClaimParams) → Keeps log_of (claim_operation p now secret params)
  unfolding claim_operation
  claim_operation-Keeps secret params =
      search (keeping, expire_queued-Keeps, claim_active-Keeps) depth 9

  pub renew_lease-Keeps :
      (name i token : Text) (n : ℕ) → Keeps log_of (renew_lease p now name i token n)
  unfolding renew_lease
  renew_lease-Keeps name i token n = bind-Keeps _ _ (get_node-Keeps name) λ node.
      bind-Keeps _ _ (guard-Keeps _ _) λ _.
        bind-Keeps _ _ (try_one-Keeps _ (update-Keeps (p.sql_time now) (renew i node.id _ n _)))
          λ o. search keeping

  pub request_cancel-Keeps : (i : Text) → Keeps log_of (request_cancel p now i)
  unfolding request_cancel
  request_cancel-Keeps i =
      bind-Keeps _ _ (update-Keeps (p.sql_time now) (cancel _)) (λ r. view-Keeps r)

  pub cancel_unclaimed-Keeps : (i : Text) → Keeps log_of (cancel_unclaimed p now i)
  unfolding cancel_unclaimed
  cancel_unclaimed-Keeps i =
      bind-Keeps _ _ (try_one-Keeps _ (update-Keeps (p.sql_time now) (drop i)))
        λ o. search (keeping, view-Keeps)

  check_request-Keeps : (params : CreateParams) → Keeps log_of (check_request p params)
  unfolding check_request
  check_request-Keeps params = search keeping depth 30

  check_retry-Keeps : (retry : Text) (node : Node) → Keeps log_of (check_retry p now retry node)
  unfolding check_retry
  check_retry-Keeps retry node = search keeping depth 12

  no_active-Keeps : (o : Option Operation) → Keeps log_of (no_active p now o)
  unfolding no_active
  no_active-Keeps none = search keeping
  no_active-Keeps (some r) = search keeping

  insert_new-Keeps :
      (fresh : Text) (q : Request) → Keeps log_of (insert_operation (new_row p now fresh q))
  unfolding new_row
  insert_new-Keeps fresh q = insert-Keeps _

  create_row-Keeps :
      (fresh : Text) (q : Request) (o : Option Operation)
      → Keeps log_of (create_row p now fresh q o)
  unfolding create_row
  create_row-Keeps fresh q none =
      search (keeping, no_active-Keeps, check_retry-Keeps, insert_new-Keeps) depth 20
  create_row-Keeps fresh q (some row) = search keeping

  recover-Keeps :
      (q : Request) (e : Failure) (o : Option Operation) → Keeps log_of (recover p now q e o)
  unfolding recover
  recover-Keeps q e none = search keeping
  recover-Keeps q e (some row) = search (keeping, view-Keeps)

  finish_create-Keeps :
      (q : Request) (r : Result (Operation × Bool)) → Keeps log_of (finish_create p now q r)
  unfolding finish_create
  finish_create-Keeps q (ok (row, created)) = search (keeping, view-Keeps)
  finish_create-Keeps q (err e) = search (keeping, recover-Keeps)

  create_tx-Keeps : (fresh : Text) (q : Request) → Keeps log_of (create_tx p now fresh q)
  unfolding create_tx
  create_tx-Keeps fresh q = search (keeping, create_row-Keeps)

  pub create_operation-Keeps :
      (fresh : Text) (params : CreateParams) → Keeps log_of (create_operation p now fresh params)
  unfolding create_operation
  create_operation-Keeps fresh params =
      search (keeping, check_request-Keeps, create_tx-Keeps, finish_create-Keeps) depth 9
