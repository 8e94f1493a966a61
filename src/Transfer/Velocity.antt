-- ===== src/Transfer/Velocity.antt =====
-- backend/src/modules/transfers/velocity.service.ts. The advisory lock makes the checks of one sender
-- wait for one another.
use pstu_hackathon.Base.{
  ℕ, ◌+◌, ◌-◌, ◌*◌, ◌/◌, Bool, true, false, ◌&&◌, Option, none, some, List, [], ◌∷◌, ltb, leb, ◌==◌,
  length, if◌then◌else◌,
}
use pstu_hackathon.Base.Int.{ℤ, leb_ℤ}
use pstu_hackathon.Base.Table.{select_where}
use pstu_hackathon.Platform.Errors.{ErrorCode, domain, retry_after}
use pstu_hackathon.Platform.Schema.{Transfer, TransferType}
use pstu_hackathon.Platform.Action.{Env, ok, err, Tx}

-- COUNTED_TYPES
abbrev pub is_personal : TransferType → Bool
is_personal TransferType.p2p = true
is_personal TransferType.request_settlement = true
is_personal TransferType.scheduled = false
is_personal TransferType.mint = false
is_personal TransferType.reversal = false

abbrev pub is_recent : Env → ℕ → Transfer → Bool
is_recent env account t =
    (t.from_account_id == account)
    && (is_personal t.type && leb env.now (t.created_at + env.policy.window_seconds * 1_000_000))

unfoldable pub recent_transfers : Env → ℕ → List Transfer → List Transfer
recent_transfers env account = select_where (is_recent env account)

-- min(created_at)
unfoldable pub oldest : List Transfer → Option ℕ
oldest [] = none
oldest (t ∷ ts) = elim (oldest ts) [
  | none ↦ some t.created_at
  | some o ↦ some (if ltb t.created_at o then t.created_at else o)
]

-- `Math.max(1, Math.ceil(windowSeconds - (Date.now() - oldest.getTime()) / 1000))`
unfoldable pub retry_seconds : Env → Option ℕ → ℕ
retry_seconds env none = env.policy.window_seconds
retry_seconds env (some at) =
    let left = (env.policy.window_seconds * 1000 + at / 1000 - env.date_now + 999) / 1000 in
    if ltb left 1 then 1 else left

unfoldable pub enforce_velocity : ℕ → Tx (Unit {0})
unfolding recent_transfers oldest retry_seconds
enforce_velocity account env s =
    let recent = recent_transfers env account s.db.transfers in
    (
      if ltb (length recent) env.policy.max_transfers
          then ok tt
          else err
              (domain ErrorCode.rate_limited (retry_after (retry_seconds env (oldest recent)))),
      s,
    )

unfoldable pub is_anomalous : Env → ℤ → Bool
is_anomalous env amount = leb_ℤ env.policy.alert_threshold_minor amount
