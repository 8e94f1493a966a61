-- ===== src/Platform/BalanceCache/Order.antt =====
-- A sequence of writes in whatever order they arrive, as long as nothing expires, leaves the newest version.
use pstu_hackathon.Base.{
  ℕ, ◌+◌, ◌*◌, ◌==◌, ==_self, ap, ◌<◌, ◌≤◌, ◌≡◌, refl, sym, ◌∙◌, ◌⊎◌, inl, inr, true, false, Option,
  none, some, List, [], ◌∷◌, arith, Bool-cases, ltb, if◌then◌else◌, Bool,
}
use pstu_hackathon.Base.Table.{All, some_inj}
use pstu_hackathon.Platform.BalanceCache.{
  CachedBalance, Entry, Cache, ttl_seconds, live_value, write_balance, read_balance, rejects,
}

-- a write and the instant of Redis' clock at which its script runs
pub record Write : Type 0 where
  pub at : ℕ
  pub value : CachedBalance

-- the writes of one account, in the order in which Redis runs them
unfoldable pub write_all : ℕ → List Write → Cache → Cache
write_all id [] cache = cache
write_all id (w ∷ ws) cache = write_all id ws (write_balance true w.at id w.value cache).1

-- the version at hand, 0 where there is none
abbrev pub version_of : Option CachedBalance → ℕ
version_of none = 0
version_of (some v) = v.version

-- What is stored, if anything is, is still there at the instant `end`.
abbrev pub Lasts : ℕ → Option Entry → Type 0
Lasts end none = Unit
Lasts end (some e) = end < e.expires_at

-- The write runs by the instant `end`, and less than the time to live before it.
abbrev pub IsRecent : ℕ → Write → Type 0
IsRecent end w = (w.at ≤ end) × (end < w.at + ttl_seconds * 1000)

abbrev pub Listed : CachedBalance → List Write → Type 0
Listed v [] = ⊥
Listed v (w ∷ ws) = (v ≡ w.value) ⊎ Listed v ws

module _ (id end : ℕ) where
  abbrev seen : Cache → Option CachedBalance
  seen cache = read_balance true end id cache

  -- What lasts until the end is seen earlier as it is then.
  live_until :
      (now : ℕ) (o : Option Entry) → now ≤ end → Lasts end o → live_value now o ≡ live_value end o
  unfolding live_value
  live_until now none le h = refl
  live_until now (some e) le h = rw (early, late) refl
    where
      early : ltb now e.expires_at ≡ true
      early = ground (arith, le, h)

      late : ltb end e.expires_at ≡ true
      late = ground (arith, h)

  -- One write leaves what was seen, which is at least as new, or is seen itself, and was newer.
  data Step (cache : Cache) (w : Write) (after : Cache) : Type 0 where
    kept :
        seen after ≡ seen cache
        → w.value.version ≤ version_of (seen cache)
        → Lasts end (after id)
        → Step cache w after
    newer :
        seen after ≡ some w.value
        → version_of (seen cache) ≤ w.value.version
        → Lasts end (after id)
        → Step cache w after

  accepted :
      (o : Option CachedBalance) (v : CachedBalance)
      → rejects o v ≡ false
      → version_of o ≤ v.version
  accepted none v h = omega arith
  accepted (some old) v h = ground (arith, h)

  rejected :
      (o : Option CachedBalance) (v : CachedBalance) → rejects o v ≡ true → v.version ≤ version_of o
  rejected none v h = cc
  rejected (some old) v h = ground (arith, h)

  write_balance-Step :
      (cache : Cache) (w : Write)
      → Lasts end (cache id)
      → IsRecent end w
      → Step cache w (write_balance true w.at id w.value cache).1
  unfolding write_balance read_balance live_value
  write_balance-Step cache w lasts recent =
      elim (Bool-cases (rejects (live_value w.at (cache id)) w.value)) [
        | inl e ↦
            rw e (kept refl (rw same at (rejected (live_value w.at (cache id)) w.value e)) lasts)
        | inr e ↦ rw e (
            newer (there (id == id) (==_self id))
              (rw same at (accepted (live_value w.at (cache id)) w.value e))
              (stays (id == id) (==_self id)))
      ]
    where
      same : live_value w.at (cache id) ≡ live_value end (cache id)
      same = live_until w.at (cache id) recent.0 lasts

      entry : Entry
      entry = record { value = w.value; expires_at = w.at + ttl_seconds * 1000 }

      stays : (b : Bool) → b ≡ true → Lasts end (if b then some entry else cache id)
      stays b e = rw e recent.1

      there :
          (b : Bool) → b ≡ true → live_value end (if b then some entry else cache id) ≡ some w.value
      there b e = rw (e, late) refl
        where
          late : ltb end (w.at + ttl_seconds * 1000) ≡ true
          late = ground (arith, recent.1)

  version-Step :
      {cache after : Cache} {w : Write}
      → Step cache w after
      → (version_of (seen cache) ≤ version_of (seen after))
        × (w.value.version ≤ version_of (seen after))
        × Lasts end (after id)
  version-Step (kept e le l) = (rw e (omega arith), rw e le, l)
  version-Step (newer e le l) = (rw e le, rw e (omega arith), l)

  -- What was there before and every write is at most as new as what is left.
  newest-write_all :
      (ws : List Write) (cache : Cache)
      → Lasts end (cache id)
      → All (IsRecent end) ws
      → (version_of (seen cache) ≤ version_of (seen (write_all id ws cache)))
        × All (λ w. w.value.version ≤ version_of (seen (write_all id ws cache))) ws
  unfolding write_all
  newest-write_all [] cache l r = (omega arith, tt)
  newest-write_all (w ∷ ws) cache l (r, rs) =
      let (before, own, last) = version-Step (write_balance-Step cache w l r) in
      let (later, rest) =
        newest-write_all ws (write_balance true w.at id w.value cache).1 last rs in
      (omega (arith, before, later), (omega (arith, own, later), rest))

  source-Step :
      {cache after : Cache} {w : Write} (ws : List Write) (v : CachedBalance)
      → Step cache w after
      → (Lasts end (after id) → (seen after ≡ some v) ⊎ Listed v ws)
      → (seen cache ≡ some v) ⊎ ((v ≡ w.value) ⊎ Listed v ws)
  source-Step ws v (kept e le l) rest = elim (rest l) [
    | inl h ↦ inl (sym e ∙ h)
    | inr m ↦ inr (inr m)
  ]
  source-Step ws v (newer e le l) rest = elim (rest l) [
    | inl h ↦ inr (inl (some_inj (sym h ∙ e)))
    | inr m ↦ inr (inr m)
  ]

  -- What is left was there before or is one of the writes: nothing is made up.
  source-write_all :
      (ws : List Write) (cache : Cache) {v : CachedBalance}
      → Lasts end (cache id)
      → All (IsRecent end) ws
      → seen (write_all id ws cache) ≡ some v
      → (seen cache ≡ some v) ⊎ Listed v ws
  unfolding write_all
  source-write_all [] cache l r h = inl h
  source-write_all (w ∷ ws) cache {v} l (r, rs) h =
      source-Step ws v (write_balance-Step cache w l r)
        (λ last. source-write_all ws (write_balance true w.at id w.value cache).1 last rs h)

-- Whatever the order in which the writes of an account reach Redis, each of them less than the time to
-- live before the instant `end`, where what was stored before does not expire by then: the value read
-- at that instant is one of the writes or the one that was there, and it is at least as new as each of
-- them.
pub write_all_newest :
    (id end : ℕ) (ws : List Write) (cache : Cache) {v : CachedBalance}
    → read_balance true end id (write_all id ws cache) ≡ some v
    → Lasts end (cache id)
    → All (IsRecent end) ws
    → ((read_balance true end id cache ≡ some v) ⊎ Listed v ws)
      × (version_of (read_balance true end id cache) ≤ v.version)
      × All (λ w. w.value.version ≤ v.version) ws
write_all_newest id end ws cache {v} h lasts recent =
    let (before, each) = newest-write_all id end ws cache lasts recent in
    (
      source-write_all id end ws cache lasts recent h,
      rw (ap version_of h) at before,
      rw (ap version_of h) at each,
    )
