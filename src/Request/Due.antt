-- ===== src/Request/Due.antt =====
-- Only pending requests are due.
use pstu_hackathon.Base.{
  ℕ, zero, suc, ◌≡◌, arith, Bool, true, List, [], ◌∷◌, ltb, inl, inr, Bool-cases,
}
use pstu_hackathon.Base.Table.{All, All-imp, select_where}
use pstu_hackathon.Platform.Schema.{MoneyRequest}
use pstu_hackathon.Request.Repo.{
  insert_by_expiry, sort_by_expiry, take, is_due, is_pending, due_requests,
}

module _ (P : MoneyRequest → Type 0) where
  All-take : (n : ℕ) (rs : List MoneyRequest) → All P rs → All P (take n rs)
  All-take zero rs h = tt
  All-take (suc n) [] h = tt
  All-take (suc n) (r ∷ rs) (p, h) = (p, All-take n rs h)

  All-insert_by_expiry :
      (r : MoneyRequest) (rs : List MoneyRequest) → P r → All P rs → All P (insert_by_expiry r rs)
  unfolding insert_by_expiry
  All-insert_by_expiry r [] p h = (p, tt)
  All-insert_by_expiry r (q ∷ qs) p (x, h) = elim (Bool-cases (ltb q.expires_at r.expires_at)) [
    | inl before ↦ rw before (x, All-insert_by_expiry r qs p h)
    | inr behind ↦ rw behind (p, (x, h))
  ]

  All-sort_by_expiry : (rs : List MoneyRequest) → All P rs → All P (sort_by_expiry rs)
  unfolding sort_by_expiry
  All-sort_by_expiry [] h = tt
  All-sort_by_expiry (r ∷ rs) (p, h) =
      All-insert_by_expiry r (sort_by_expiry rs) p (All-sort_by_expiry rs h)

  All-select_where :
      (g : MoneyRequest → Bool) (rs : List MoneyRequest)
      → All (λ r. g r ≡ true → P r) rs
      → All P (select_where g rs)
  All-select_where g [] h = tt
  All-select_where g (r ∷ rs) (p, h) = elim (Bool-cases (g r)) [
    | inl hit ↦ rw hit (p hit, All-select_where g rs h)
    | inr miss ↦ rw miss (All-select_where g rs h)
  ]

  -- What holds of every pending request holds of every due one.
  pub All-due_requests :
      (now limit : ℕ) (rs : List MoneyRequest)
      → All (λ r. is_pending r.status ≡ true → P r) rs
      → All P (due_requests now limit rs)
  unfolding due_requests
  All-due_requests now limit rs h = All-take limit (sort_by_expiry (select_where (is_due now) rs)) (
      All-sort_by_expiry (select_where (is_due now) rs)
        (All-select_where (is_due now) rs (All-imp rs (λ r p due. p (ground (arith, due))) h)))
