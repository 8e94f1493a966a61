-- ===== src/Platform/BalanceCache.antt =====
-- backend/src/platform/cache/balance.cache.ts: balances in Redis, each with the version of the account
-- row it came from. The text that is stored, `version:balance`, is read as the pair.
pub mod Order
use pstu_hackathon.Base.{
  ℕ, ◌+◌, ◌*◌, Bool, true, false, Option, none, some, leb, ltb, ◌==◌, if◌then◌else◌,
}
use pstu_hackathon.Base.Int.{ℤ}

pub record CachedBalance : Type 0 where
  pub balance_minor : ℤ
  pub version : ℕ

-- a value and the instant of Redis' clock, in milliseconds, at which it expires
pub record Entry : Type 0 where
  pub value : CachedBalance
  pub expires_at : ℕ

-- Redis: what is stored at `bal:<account id>`
abbrev pub Cache : Type 0
Cache = ℕ → Option Entry

abbrev pub ttl_seconds : ℕ
ttl_seconds = 30

-- `redis.call('GET', …)`: an expired value is not there.
unfoldable pub live_value : ℕ → Option Entry → Option CachedBalance
live_value now none = none
live_value now (some e) = if ltb now e.expires_at then some e.value else none

pub data Written : Type 0 where
  stored stale unavailable : Written

-- `redis.call('SET', …, 'EX', …)`
abbrev pub put : ℕ → ℕ → CachedBalance → Cache → Cache
put now id v cache j =
    if j == id then some (record { value = v; expires_at = now + ttl_seconds * 1000 }) else cache j

-- CAS_SCRIPT rejects a value unless it is newer than the stored one.
abbrev pub rejects : Option CachedBalance → CachedBalance → Bool
rejects none v = false
rejects (some old) v = leb v.version old.version

-- The first argument says whether Redis answers, the second is its clock.
unfoldable pub write_balance : Bool → ℕ → ℕ → CachedBalance → Cache → Written × Cache
unfolding live_value
write_balance false now id v cache = (unavailable, cache)
write_balance true now id v cache =
    if rejects (live_value now (cache id)) v then (stale, cache) else (stored, put now id v cache)

unfoldable pub read_balance : Bool → ℕ → ℕ → Cache → Option CachedBalance
unfolding live_value
read_balance false now id cache = none
read_balance true now id cache = live_value now (cache id)

unfoldable pub invalidate_balance : Bool → ℕ → Cache → Cache
invalidate_balance false id cache = cache
invalidate_balance true id cache = λ j. if j == id then none else cache j
