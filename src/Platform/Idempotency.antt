-- ===== src/Platform/Idempotency.antt =====
-- backend/src/platform/idempotency/store.ts: the claim of a key and its completion. Another
-- transaction's uncommitted claim is not visible here: it makes this one wait, or fail with
-- LOCK_NOT_AVAILABLE.
use pstu_hackathon.Base.{
  ℕ, ◌+◌, Bool, ◌&&◌, not, Option, none, some, List, ◌∷◌, ◌==◌, if◌then◌else◌,
}
use pstu_hackathon.Base.Table.{modify, first_where}
use pstu_hackathon.Platform.Errors.{ErrorCode, failure}
use pstu_hackathon.Platform.Schema.{KeyState}
use pstu_hackathon.Platform.Database.{IdempotencyKey, Body}
use pstu_hackathon.Platform.Action.{State, Result, ok, err, Tx}

pub data IdempotencyClaim : Type 0 where
  claimed : ℕ → IdempotencyClaim
  replay : ℕ → Body → IdempotencyClaim
  mismatch : IdempotencyClaim

pub record ClaimInput : Type 0 where
  pub user_id : ℕ
  pub key : ℕ
  pub request_hash : ℕ

abbrev pub key_key : IdempotencyKey → ℕ
key_key k = k.id

-- the scope of the unique constraint: (user_id, key)
abbrev pub in_scope : ℕ → ℕ → IdempotencyKey → Bool
in_scope user key k = (k.user_id == user) && (k.key == key)

abbrev pub find_key : ℕ → ℕ → List IdempotencyKey → Option IdempotencyKey
find_key user key = first_where (in_scope user key)

-- What a committed key answers. The table's CHECK `completed_has_response` excludes a completed key
-- without a body.
unfoldable pub answer : KeyState → Option ℕ → Option Body → Result IdempotencyClaim
answer KeyState.completed (some status) (some body) = ok (replay status body)
answer KeyState.completed (some status) none = err (failure ErrorCode.request_in_progress)
answer KeyState.completed none body = err (failure ErrorCode.request_in_progress)
answer KeyState.in_progress status body = err (failure ErrorCode.request_in_progress)

unfoldable pub existing_claim : ClaimInput → IdempotencyKey → Result IdempotencyClaim
unfolding answer
existing_claim input k =
    if not (k.request_hash == input.request_hash)
    then ok mismatch
    else answer k.state k.response_status k.response_body

-- INSERT … ON CONFLICT (user_id, key) DO NOTHING RETURNING id
abbrev pub new_key : ClaimInput → ℕ → ℕ → IdempotencyKey
new_key input id now = record {
  id = id;
  user_id = input.user_id;
  key = input.key;
  request_hash = input.request_hash;
  state = KeyState.in_progress;
  response_status = none;
  response_body = none;
  created_at = now;
}

-- the claim when the look-up of the key has found this
unfoldable pub claim_found :
    ClaimInput → ℕ → Option IdempotencyKey → State → Result IdempotencyClaim × State
unfolding existing_claim
claim_found input now (some k) s = (existing_claim input k, s)
claim_found input now none s = (
  ok (claimed s.db.next_id),
  record s {
    db = record s.db {
      next_id = s.db.next_id + 1;
      idempotency_keys = new_key input s.db.next_id now ∷ s.db.idempotency_keys;
    };
  },
)

unfoldable pub claim_idempotency_key : ClaimInput → Tx IdempotencyClaim
unfolding claim_found
claim_idempotency_key input env s =
    claim_found input env.now (find_key input.user_id input.key s.db.idempotency_keys) s

abbrev pub complete_with : ℕ → Body → IdempotencyKey → IdempotencyKey
complete_with status body k = record k {
  state = KeyState.completed;
  response_status = some status;
  response_body = some body;
}

unfoldable pub complete_idempotency_key : ℕ → ℕ → Body → Tx (Unit {0})
complete_idempotency_key id status body env s = (
  ok tt,
  record s {
    db = record s.db {
      idempotency_keys = modify key_key id (complete_with status body) s.db.idempotency_keys;
    };
  },
)
