-- ===== src/App/Reconciled.antt =====
-- Reconciliation passes on every database that the calls lead to.
use pstu_hackathon.Base.{◌≡◌, refl, ◌∙◌, ap, true, false, Bool, ◌&&◌, List, [], ◌∷◌}
use pstu_hackathon.Platform.Database.{Db}
use pstu_hackathon.Platform.Action.{Env, ok, Result, State}
use pstu_hackathon.Platform.Transaction.{World, begin, commit, run_hooks}
use pstu_hackathon.Platform.Transaction.Attempts.{InTime, with_read_transaction_ok}
use pstu_hackathon.Ledger.Books.{Books}
use pstu_hackathon.Transfer.Books.{WorldBalanced}
use pstu_hackathon.Admin.Reconciliation.{
  ReconciliationReport, CheckResult, is_empty, stranded, checked, every_pass, read_totals,
  report_tx, reconcile,
}
use pstu_hackathon.Admin.Reconciliation.Passes.{passed, all_checks_pass}
use pstu_hackathon.App.{Reaches}
use pstu_hackathon.App.Books.{Reaches-WorldBalanced}

abbrev pub report_of : Env → Db → ReconciliationReport
report_of env db = record {
  status = is_empty (stranded env.now db);
  checked_at = env.date_now;
  totals = read_totals db;
  checks = passed ∷ passed ∷ passed ∷ checked (stranded env.now db) ∷ [];
}

-- From a database whose books balance, after whatever calls, reconciliation on a connection that comes back
-- in time changes nothing and reports that money is conserved, that every balance matches its entries, and
-- that every transfer is a complete double entry. Its last check finds no orphan and no overdrawn user: the
-- report passes exactly if no idempotency key has been in progress for more than a minute.
pub reconcile_passes :
    {w v : World} (env : Env)
    → Reaches w v
    → WorldBalanced w
    → InTime env 0
    → reconcile env v ≡ (ok (report_of env v.db), v)
unfolding reconcile report_tx checked commit run_hooks
reconcile_passes {v = v} env reached balanced time =
    with_read_transaction_ok report_tx env v (report_of env v.db) (begin v) time
      (reported (Reaches-WorldBalanced reached balanced))
  where
    reporting : List CheckResult → Result ReconciliationReport × State
    reporting cs = (
      ok (record {
        status = every_pass cs;
        checked_at = env.date_now;
        totals = read_totals v.db;
        checks = cs;
      }),
      begin v,
    )

    last_status : Bool → Result ReconciliationReport × State
    last_status b = (ok (record (report_of env v.db) { status = b }), begin v)

    and_true : (b : Bool) → (b && true) ≡ b
    and_true true = refl
    and_true false = refl

    reported : Books v.db → report_tx env (begin v) ≡ (ok (report_of env v.db), begin v)
    reported h =
        ap reporting (all_checks_pass v.db h env.now)
        ∙ ap last_status (and_true (is_empty (stranded env.now v.db)))
