-- ===== src/Operation/Steps/Writes.antt =====
-- Every call changes the database by the listed writes only: one rule for each way to build a method.
use box_fleet.Base.{ℕ, refl, Text, Bool, Option, none, some}
use box_fleet.Platform.{Platform}
use box_fleet.Database.{Operation, Node, Failure, Result, ok, err}
use box_fleet.Operation.Sql.{insert_operation}
use box_fleet.Operation.Calls.{
  OperationView, CreateParams, ClaimParams, Request, view, check_request, new_row,
}
use box_fleet.Operation.Methods.{
  create_operation, active_operation_of, claim_operation, renew_lease, request_cancel,
  cancel_unclaimed, check_retry, no_active, create_row, create_tx, recover, finish_create,
  expire_queued, view_found, granted, claim_new, after_resume, claim_or_resume, claim_active,
}
use box_fleet.Operation.Steps.{update, nothing, also, expire, claim, resume, renew, cancel, drop}
use box_fleet.Operation.Steps.Rules.{
  Writes, Writes-if, Writes-bind, Writes-guard, Writes-try_one, Writes-get_node, Writes-update,
  Writes-insert, chain,
}

module _ (p : Platform) (now : ℕ) where
  abbrev pub at_now : Text
  at_now = p.sql_time now

  Writes-expire_queued : (node : Text) → Writes at_now (expire_queued p now node)
  unfolding expire_queued
  Writes-expire_queued node = record { at = λ s. also nothing (update (expire node) refl) }

  pub Writes-view : (r : Operation) → Writes at_now (view p r)
  unfolding view
  Writes-view r = search chain

  Writes-view_found : (o : Option Operation) → Writes at_now (view_found p now o)
  unfolding view_found
  Writes-view_found none = search chain
  Writes-view_found (some r) = search (chain, Writes-view)

  pub Writes-active_operation_of : (name : Text) → Writes at_now (active_operation_of p now name)
  unfolding active_operation_of
  Writes-active_operation_of name = search (chain, Writes-expire_queued, Writes-view_found) depth 9

  Writes-granted : (token : Text) (o : Option Operation) → Writes at_now (granted p now token o)
  unfolding granted
  Writes-granted token none = search chain
  Writes-granted token (some r) = search (chain, Writes-view)

  Writes-claim_new :
      (secret : Text) (node : Node) (op : OperationView)
      → Writes at_now (claim_new p now secret node op)
  unfolding claim_new
  Writes-claim_new secret node op =
      Writes-bind _ _ (Writes-try_one _ (Writes-update at_now (claim op.id node.id _ _)))
        (λ o. Writes-granted _ o)

  Writes-after_resume :
      (secret : Text) (params : ClaimParams) (node : Node) (op : OperationView)
      (o : Option Operation)
      → Writes at_now (after_resume p now secret params node op o)
  unfolding after_resume
  Writes-after_resume secret params node op none = Writes-claim_new secret node op
  Writes-after_resume secret params node op (some r) = search (chain, Writes-view)

  Writes-claim_or_resume :
      (secret : Text) (params : ClaimParams) (node : Node) (op : OperationView)
      → Writes at_now (claim_or_resume p now secret params node op)
  unfolding claim_or_resume
  Writes-claim_or_resume secret params node op =
      Writes-if _ _ _
        (Writes-bind _ _ (Writes-try_one _ (Writes-update at_now (resume op.id node.id _ _)))
          (λ o. Writes-after_resume secret params node op o))
        (Writes-claim_new secret node op)

  Writes-claim_active :
      (secret : Text) (params : ClaimParams) (node : Node) (o : Option Operation)
      → Writes at_now (claim_active p now secret params node o)
  unfolding claim_active
  Writes-claim_active secret params node none = search chain
  Writes-claim_active secret params node (some row) =
      search (chain, Writes-view, Writes-claim_or_resume)

  pub Writes-claim_operation :
      (secret : Text) (params : ClaimParams) → Writes at_now (claim_operation p now secret params)
  unfolding claim_operation
  Writes-claim_operation secret params =
      search (chain, Writes-expire_queued, Writes-claim_active) depth 9

  pub Writes-renew_lease :
      (name i token : Text) (n : ℕ) → Writes at_now (renew_lease p now name i token n)
  unfolding renew_lease
  Writes-renew_lease name i token n = Writes-bind _ _ (Writes-get_node _ name) λ node.
      Writes-bind _ _ (Writes-guard _ _) λ _.
        Writes-bind _ _ (Writes-try_one _ (Writes-update at_now (renew i node.id _ n _)))
          λ o. search chain

  pub Writes-request_cancel : (i : Text) → Writes at_now (request_cancel p now i)
  unfolding request_cancel
  Writes-request_cancel i = Writes-bind _ _ (Writes-update at_now (cancel _)) (λ r. Writes-view r)

  pub Writes-cancel_unclaimed : (i : Text) → Writes at_now (cancel_unclaimed p now i)
  unfolding cancel_unclaimed
  Writes-cancel_unclaimed i =
      Writes-bind _ _ (Writes-try_one _ (Writes-update at_now (drop i)))
        λ o. search (chain, Writes-view)

  Writes-check_request : (params : CreateParams) → Writes at_now (check_request p params)
  unfolding check_request
  Writes-check_request params = search chain depth 30

  Writes-check_retry : (retry : Text) (node : Node) → Writes at_now (check_retry p now retry node)
  unfolding check_retry
  Writes-check_retry retry node = search chain depth 12

  Writes-no_active : (o : Option Operation) → Writes at_now (no_active p now o)
  unfolding no_active
  Writes-no_active none = search chain
  Writes-no_active (some r) = search chain

  Writes-insert_new :
      (fresh : Text) (q : Request) → Writes at_now (insert_operation (new_row p now fresh q))
  unfolding new_row
  Writes-insert_new fresh q = Writes-insert at_now _ refl

  Writes-create_row :
      (fresh : Text) (q : Request) (o : Option Operation)
      → Writes at_now (create_row p now fresh q o)
  unfolding create_row
  Writes-create_row fresh q none =
      search (chain, Writes-no_active, Writes-check_retry, Writes-insert_new) depth 20
  Writes-create_row fresh q (some row) = search chain

  Writes-recover :
      (q : Request) (e : Failure) (o : Option Operation) → Writes at_now (recover p now q e o)
  unfolding recover
  Writes-recover q e none = search chain
  Writes-recover q e (some row) = search (chain, Writes-view)

  Writes-finish_create :
      (q : Request) (r : Result (Operation × Bool)) → Writes at_now (finish_create p now q r)
  unfolding finish_create
  Writes-finish_create q (ok (row, created)) = search (chain, Writes-view)
  Writes-finish_create q (err e) = search (chain, Writes-recover)

  Writes-create_tx : (fresh : Text) (q : Request) → Writes at_now (create_tx p now fresh q)
  unfolding create_tx
  Writes-create_tx fresh q = search (chain, Writes-create_row)

  pub Writes-create_operation :
      (fresh : Text) (params : CreateParams) → Writes at_now (create_operation p now fresh params)
  unfolding create_operation
  Writes-create_operation fresh params =
      search (chain, Writes-check_request, Writes-create_tx, Writes-finish_create) depth 9
