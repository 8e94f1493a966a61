-- ===== src/Tests/Witnesses.antt =====
-- The theorems on the small database, and what the calls in them answer.
use pstu_hackathon.Base.{true, List, ℕ, ◌≡◌, ◌⊎◌, arith, refl, some, none, [], ◌∷◌, ◌≤◌}
use pstu_hackathon.Base.Int.{pos}
use pstu_hackathon.Base.Table.{All}
use pstu_hackathon.Platform.BalanceCache.{read_balance, CachedBalance, Cache}
use pstu_hackathon.Platform.BalanceCache.Order.{
  Write, write_all, version_of, Listed, write_all_newest,
}
use pstu_hackathon.Platform.Transaction.{with_attempts}
use pstu_hackathon.Platform.Transaction.Attempts.{Settles, with_attempts-Settles}
use pstu_hackathon.Platform.Canonical.{Json}
use pstu_hackathon.Ledger.{post_double_entry}
use pstu_hackathon.Ledger.Outcome.{verdict, carry_out}
use pstu_hackathon.Ledger.Exact.{post_double_entry_exact}
use pstu_hackathon.Ledger.Books.{IsBalanced}
use pstu_hackathon.Ledger.Books.Posted.{post_double_entry-IsBalanced}
use pstu_hackathon.Transfer.Books.{WorldBalanced}
use pstu_hackathon.App.{Call, perform, here, after}
use pstu_hackathon.App.Books.{Reaches-WorldBalanced}
use pstu_hackathon.Tests.Payment.{pin, lunch}
use pstu_hackathon.Tests.Example.{env, world, funded, bonus, funded-IsBalanced}

abbrev accepting : Call
accepting = Call.accepting 20 50 8 pin Json.undefined

Reaches-WorldBalanced_example :
    WorldBalanced
      (perform accepting env (perform (Call.sending 20 7 lunch Json.undefined) env world))
Reaches-WorldBalanced_example =
    Reaches-WorldBalanced
      (after (perform (Call.sending 20 7 lunch Json.undefined) env world) accepting env
        (after world (Call.sending 20 7 lunch Json.undefined) env here))
      funded-IsBalanced

post_double_entry-IsBalanced_example : IsBalanced (post_double_entry (bonus 2) env funded).1
post_double_entry-IsBalanced_example =
    post_double_entry-IsBalanced (bonus 2) env funded funded-IsBalanced

post_double_entry_exact_example :
    post_double_entry (bonus 2) env funded
    ≡ carry_out (bonus 2) env funded (verdict (bonus 2) funded.db.accounts)
post_double_entry_exact_example =
    post_double_entry_exact (bonus 2) env funded funded-IsBalanced.covered

with_attempts-Settles_example :
    Settles
      (λ n. post_double_entry (bonus 2))
      env
      world
      3
      (with_attempts 3 (λ n. post_double_entry (bonus 2)) env world)
with_attempts-Settles_example =
    with_attempts-Settles (λ n. post_double_entry (bonus 2)) env world 3 (λ e. omega (arith, e))

abbrev version : ℕ → CachedBalance
version n = record { balance_minor = pos n; version = n }

abbrev late_writes : List Write
late_writes = record { at = 1000; value = version 5 } ∷ record { at = 9000; value = version 4 } ∷ []

late_first : read_balance true 20_000 2 (write_all 2 late_writes (λ id. none)) ≡ some (version 5)
unfolding write_all pstu_hackathon.Platform.BalanceCache.write_balance read_balance
late_first = refl

write_all_newest_example :
    ((none ≡ some (version 5)) ⊎ Listed (version 5) late_writes)
    × (version_of none ≤ 5)
    × All (λ w. w.value.version ≤ 5) late_writes
unfolding read_balance
write_all_newest_example =
    write_all_newest 2 20_000 late_writes (λ id. none) late_first tt
      ((omega arith, omega arith), ((omega arith, omega arith), tt))
