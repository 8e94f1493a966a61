-- ===== src/Tests/Guards.antt =====
-- An even split, and a user who gives a wrong PIN for the fifth time.
use pstu_hackathon.Base.{ℕ, ◌≡◌, ◌/◌, refl, some, List, [], ◌∷◌, arith, length, map}
use pstu_hackathon.Base.Int.{pos, negsuc}
use pstu_hackathon.Base.Table.{All}
use pstu_hackathon.Platform.Errors.{ErrorCode, domain, locked_until}
use pstu_hackathon.Platform.Schema.{User}
use pstu_hackathon.Platform.Action.{err}
use pstu_hackathon.Platform.Transaction.{World}
use pstu_hackathon.Platform.Canonical.{codes}
use pstu_hackathon.Auth.Pin.{verify_pin}
use pstu_hackathon.Auth.Pin.Lockout.{lock_end, last_failure_locks}
use pstu_hackathon.Shared.Allocate.{sum, allocate_evenly, allocate_by_weight}
use pstu_hackathon.Shared.Allocate.Even.{IsFair, allocate_evenly_exact}
use pstu_hackathon.Shared.Allocate.Weighted.{allocate_by_weight_exact}
use pstu_hackathon.Shared.Money.{to_minor, minor_string}
use pstu_hackathon.Shared.Money.RoundTrip.{to_minor-minor_string}
use pstu_hackathon.Tests.Example.{env, world, person}
use pstu_hackathon.Tests.Payment.{pin}

allocate_evenly_exact_example :
    (xs : List ℕ) × (allocate_evenly (pos 1000) (pos 3) ≡ some xs)
    × (sum xs ≡ 1000)
    × (length xs ≡ 3)
    × All (IsFair (1000 / 3)) xs
allocate_evenly_exact_example = allocate_evenly_exact 1000 3 (omega arith)

allocate_by_weight_exact_example :
    (xs : List ℕ) × (allocate_by_weight 1000 (map pos (3 ∷ 0 ∷ 4 ∷ [])) ≡ some xs)
    × (sum xs ≡ 1000)
    × (length xs ≡ 3)
allocate_by_weight_exact_example = allocate_by_weight_exact 1000 (3 ∷ 0 ∷ 4 ∷ []) (omega arith)

abbrev careless : User
careless = record (person 20 1720 (codes "Alice")) { failed_pin_attempts = 4 }

abbrev careless_world : World
careless_world = record world { db = record world.db { users = careless ∷ [] } }

last_failure_locks_example :
    verify_pin 20 pin env (verify_pin 20 (codes "0000") env careless_world).1 ≡ (
      err (domain ErrorCode.pin_locked (locked_until (lock_end env))),
      (verify_pin 20 (codes "0000") env careless_world).1,
    )
last_failure_locks_example =
    last_failure_locks 20 env careless_world careless (codes "0000") pin env refl refl refl refl
      (refl, refl) (omega arith) (omega arith)

to_minor-minor_string_example : to_minor (minor_string (negsuc 249)) ≡ some (negsuc 249)
to_minor-minor_string_example = to_minor-minor_string (negsuc 249)
