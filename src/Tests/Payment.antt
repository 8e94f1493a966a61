-- ===== src/Tests/Payment.antt =====
-- A payment on the small database, and the same payment again after Bob has asked for money.
use pstu_hackathon.Base.{ℕ, ◌≡◌, refl, true, false, some, none, List, [], ◌∷◌}
use pstu_hackathon.Base.Int.{pos}
use pstu_hackathon.Shared.Text.{Text}
use pstu_hackathon.Platform.Errors.{ErrorCode, failure}
use pstu_hackathon.Platform.Action.{State, Result, ok, err, Tx}
use pstu_hackathon.Platform.Transaction.{World}
use pstu_hackathon.Platform.Canonical.{Json, codes}
use pstu_hackathon.Auth.Pin.{verify_pin, user_key}
use pstu_hackathon.Auth.Pin.Right.{verify_pin_right}
use pstu_hackathon.Base.Table.{find}
use pstu_hackathon.Ledger.{PostedTransfer}
use pstu_hackathon.Transfer.{CreateTransferInput, Outcome, receipt, send_money}
use pstu_hackathon.App.{Call, perform, Reaches, here, after}
use pstu_hackathon.App.Replay.{again, send_money_replayed}
use pstu_hackathon.Request.Repo.{Terminal}
use pstu_hackathon.Tests.Example.{env, world, person}

abbrev pub pin : Text
pin = 49 ∷ 50 ∷ 51 ∷ 52 ∷ []

abbrev pub lunch : CreateTransferInput
lunch = record { to_phone = 1730; amount_minor = pos 2500; pin = pin; note = none }

abbrev pub paid : World
paid = (send_money 20 7 lunch Json.undefined env world).1

is_paid :
    (o : Outcome) × (send_money 20 7 lunch Json.undefined env world ≡ (ok o, paid))
    × (o.replayed ≡ false)
unfolding send_money verify_pin pstu_hackathon.Platform.Action.◌>>=◌
    pstu_hackathon.Ledger.post_double_entry pstu_hackathon.Ledger.lock_account_pair
    pstu_hackathon.Ledger.move_locked pstu_hackathon.Ledger.rethrow
    pstu_hackathon.Ledger.update_balance pstu_hackathon.Base.Int.◌+ℤ◌
    pstu_hackathon.Ledger.record_movement pstu_hackathon.Platform.Transaction.with_transaction
    pstu_hackathon.Platform.Transaction.attempt
    pstu_hackathon.Platform.Idempotency.claim_idempotency_key
    pstu_hackathon.Transfer.Repo.find_account_id_for_user
    pstu_hackathon.Transfer.Velocity.enforce_velocity
    pstu_hackathon.Transfer.Repo.find_payee_by_phone pstu_hackathon.Transfer.Repo.outbound_in_window
    pstu_hackathon.Base.Int.◌-ℤ◌ pstu_hackathon.Auth.Pin.clear_failed_attempts
    pstu_hackathon.Auth.Pin.count_failed_attempt pstu_hackathon.Auth.Pin.forget_failures
    pstu_hackathon.Auth.Pin.record_failed_attempt pstu_hackathon.Ledger.Reference.base32
    pstu_hackathon.Ledger.Reference.chunk pstu_hackathon.Ledger.Reference.generate_reference
    pstu_hackathon.Ledger.Reference.suffix pstu_hackathon.Ledger.after_commit
    pstu_hackathon.Ledger.insert_movement pstu_hackathon.Ledger.lock_account
    pstu_hackathon.Ledger.next_reference pstu_hackathon.Ledger.translate
    pstu_hackathon.Platform.Action.ask pstu_hackathon.Platform.Action.continue
    pstu_hackathon.Platform.Action.gets pstu_hackathon.Platform.Action.or_throw
    pstu_hackathon.Platform.Action.pure pstu_hackathon.Platform.Action.throw
    pstu_hackathon.Platform.Action.throw_if pstu_hackathon.Platform.Action.update
    pstu_hackathon.Platform.Action.when pstu_hackathon.Platform.BalanceCache.write_balance
    pstu_hackathon.Platform.Canonical.canonicalize pstu_hackathon.Platform.Canonical.hash_request
    pstu_hackathon.Platform.Canonical.insert_member pstu_hackathon.Platform.Canonical.print_members
    pstu_hackathon.Platform.Canonical.sort_members pstu_hackathon.Platform.Errors.is_retryable
    pstu_hackathon.Platform.Idempotency.answer pstu_hackathon.Platform.Idempotency.claim_found
    pstu_hackathon.Platform.Idempotency.complete_idempotency_key
    pstu_hackathon.Platform.Idempotency.existing_claim pstu_hackathon.Platform.Outbox.enqueue_event
    pstu_hackathon.Platform.Outbox.insert_audit_log pstu_hackathon.Platform.Outbox.targets
    pstu_hackathon.Platform.Outbox.track_write pstu_hackathon.Platform.Transaction.attempts
    pstu_hackathon.Platform.Transaction.commit pstu_hackathon.Platform.Transaction.run_hook
    pstu_hackathon.Platform.Transaction.run_hooks pstu_hackathon.Platform.Transaction.track_all
    pstu_hackathon.Platform.Transaction.with_attempts pstu_hackathon.Shared.Money.format_taka
    pstu_hackathon.Shared.Money.group_thousands pstu_hackathon.Shared.Money.minor_string
    pstu_hackathon.Shared.Money.money pstu_hackathon.Shared.Money.pad_two
    pstu_hackathon.Shared.Text.decimal pstu_hackathon.Shared.Text.to_string
    pstu_hackathon.Transfer.Repo.find_payee pstu_hackathon.Transfer.Repo.outbound_sum
    pstu_hackathon.Transfer.Velocity.is_anomalous pstu_hackathon.Transfer.Velocity.oldest
    pstu_hackathon.Transfer.Velocity.recent_transfers pstu_hackathon.Transfer.Velocity.retry_seconds
    pstu_hackathon.Transfer.announce pstu_hackathon.Transfer.idempotently
    pstu_hackathon.Transfer.on_claim pstu_hackathon.Transfer.transfer_claimed
is_paid = (_, refl, refl)

abbrev pub cancelled : World
cancelled = perform (Call.terminating 30 50 Terminal.cancel none) env paid

no_failures : find user_key 20 cancelled.db.users ≡ some (person 20 1720 (codes "Alice"))
unfolding send_money verify_pin pstu_hackathon.Platform.Action.◌>>=◌
    pstu_hackathon.Ledger.post_double_entry pstu_hackathon.Ledger.lock_account_pair
    pstu_hackathon.Ledger.move_locked pstu_hackathon.Ledger.rethrow
    pstu_hackathon.Ledger.update_balance pstu_hackathon.Base.Int.◌+ℤ◌
    pstu_hackathon.Ledger.record_movement pstu_hackathon.Platform.Transaction.with_transaction
    pstu_hackathon.Platform.Transaction.attempt
    pstu_hackathon.Platform.Idempotency.claim_idempotency_key
    pstu_hackathon.Transfer.Repo.find_account_id_for_user
    pstu_hackathon.Transfer.Velocity.enforce_velocity
    pstu_hackathon.Transfer.Repo.find_payee_by_phone pstu_hackathon.Transfer.Repo.outbound_in_window
    pstu_hackathon.Base.Int.◌-ℤ◌ pstu_hackathon.Auth.Pin.clear_failed_attempts
    pstu_hackathon.Auth.Pin.count_failed_attempt pstu_hackathon.Auth.Pin.forget_failures
    pstu_hackathon.Auth.Pin.record_failed_attempt pstu_hackathon.Ledger.Reference.base32
    pstu_hackathon.Ledger.Reference.chunk pstu_hackathon.Ledger.Reference.generate_reference
    pstu_hackathon.Ledger.Reference.suffix pstu_hackathon.Ledger.after_commit
    pstu_hackathon.Ledger.insert_movement pstu_hackathon.Ledger.lock_account
    pstu_hackathon.Ledger.next_reference pstu_hackathon.Ledger.translate
    pstu_hackathon.Platform.Action.ask pstu_hackathon.Platform.Action.continue
    pstu_hackathon.Platform.Action.gets pstu_hackathon.Platform.Action.or_throw
    pstu_hackathon.Platform.Action.pure pstu_hackathon.Platform.Action.throw
    pstu_hackathon.Platform.Action.throw_if pstu_hackathon.Platform.Action.update
    pstu_hackathon.Platform.Action.when pstu_hackathon.Platform.BalanceCache.write_balance
    pstu_hackathon.Platform.Canonical.canonicalize pstu_hackathon.Platform.Canonical.hash_request
    pstu_hackathon.Platform.Canonical.insert_member pstu_hackathon.Platform.Canonical.print_members
    pstu_hackathon.Platform.Canonical.sort_members pstu_hackathon.Platform.Errors.is_retryable
    pstu_hackathon.Platform.Idempotency.answer pstu_hackathon.Platform.Idempotency.claim_found
    pstu_hackathon.Platform.Idempotency.complete_idempotency_key
    pstu_hackathon.Platform.Idempotency.existing_claim pstu_hackathon.Platform.Outbox.enqueue_event
    pstu_hackathon.Platform.Outbox.insert_audit_log pstu_hackathon.Platform.Outbox.targets
    pstu_hackathon.Platform.Outbox.track_write pstu_hackathon.Platform.Transaction.attempts
    pstu_hackathon.Platform.Transaction.commit pstu_hackathon.Platform.Transaction.run_hook
    pstu_hackathon.Platform.Transaction.run_hooks pstu_hackathon.Platform.Transaction.track_all
    pstu_hackathon.Platform.Transaction.with_attempts pstu_hackathon.Shared.Money.format_taka
    pstu_hackathon.Shared.Money.group_thousands pstu_hackathon.Shared.Money.minor_string
    pstu_hackathon.Shared.Money.money pstu_hackathon.Shared.Money.pad_two
    pstu_hackathon.Shared.Text.decimal pstu_hackathon.Shared.Text.to_string
    pstu_hackathon.Transfer.Repo.find_payee pstu_hackathon.Transfer.Repo.outbound_sum
    pstu_hackathon.Transfer.Velocity.is_anomalous pstu_hackathon.Transfer.Velocity.oldest
    pstu_hackathon.Transfer.Velocity.recent_transfers pstu_hackathon.Transfer.Velocity.retry_seconds
    pstu_hackathon.Transfer.announce pstu_hackathon.Transfer.idempotently
    pstu_hackathon.Transfer.on_claim pstu_hackathon.Transfer.transfer_claimed
    pstu_hackathon.App.perform pstu_hackathon.Request.Ending.terminate
    pstu_hackathon.Request.Ending.terminate_tx pstu_hackathon.Request.Ending.already
    pstu_hackathon.Request.Ending.updated_to pstu_hackathon.Request.to_dto
    pstu_hackathon.Request.Repo.transition pstu_hackathon.Request.Repo.find_request
    pstu_hackathon.Transfer.Repo.find_user_by_id
no_failures = refl

send_money_replayed_example :
    send_money 20 7 lunch Json.undefined env cancelled
    ≡ (ok (again 20 7 lunch Json.undefined is_paid.0), cancelled)
send_money_replayed_example =
    send_money_replayed 20 7 lunch Json.undefined env env world paid cancelled cancelled is_paid.0
      is_paid.1 is_paid.2 (after paid (Call.terminating 30 50 Terminal.cancel none) env here) refl
      refl
      (verify_pin_right 20 pin env cancelled (person 20 1720 (codes "Alice")) no_failures refl refl
        refl refl)
      (refl, refl)
