-- ===== src/Split/Progress.antt =====
-- The progress of a split in the list of splits is that of its detail view.
use pstu_hackathon.Base.{
  ℕ, ◌+◌, ◌≡◌, ◌≢◌, refl, sym, ap, subst, ◌∙◌, arith, Option, none, some, List, [], ◌∷◌, map,
  length,
}
use pstu_hackathon.Base.Int.{ℤ, ◌+ℤ◌, ◌-ℤ◌}
use pstu_hackathon.Base.Table.{find, select_where, sort_by, All, All-select_where}
use pstu_hackathon.Base.Sums.{sum_of, sum_of-sort_by, length-sort_by, where_so, sum_of-select_where}
use pstu_hackathon.Shared.Money.{money}
use pstu_hackathon.Platform.Schema.{User, Transfer, MoneyRequest, BillSplit}
use pstu_hackathon.Platform.Action.{Env, State, Result, ok}
use pstu_hackathon.Transfer.Repo.{user_key}
use pstu_hackathon.Split.Repo.{
  SplitLeg, is_leg_of, leg_of, with_payer, join_legs, sort_legs, list_legs, is_accepted,
  sum_amounts, summary_of,
}
use pstu_hackathon.Split.{sum_legs, leg_dto, split_dto, summary_dto}

-- what a leg adds to the amount that was asked for, and to what has come in
abbrev asked : SplitLeg → ℤ
asked l = l.amount_minor

abbrev asked_of : MoneyRequest → ℤ
asked_of r = r.amount_minor

sum_legs-sum_of : (ls : List SplitLeg) → sum_legs ls ≡ sum_of asked ls
unfolding sum_legs
sum_legs-sum_of [] = refl
sum_legs-sum_of (l ∷ ls) = ap (λ z. l.amount_minor +ℤ z) (sum_legs-sum_of ls)

sum_amounts-sum_of : (rs : List MoneyRequest) → sum_amounts rs ≡ sum_of asked_of rs
unfolding sum_amounts
sum_amounts-sum_of [] = refl
sum_amounts-sum_of (r ∷ rs) = ap (λ z. r.amount_minor +ℤ z) (sum_amounts-sum_of rs)

-- The payer of the request is a user.
abbrev pub IsKnown : List User → MoneyRequest → Type 0
IsKnown us r = find user_key r.payer_user_id us ≢ none

module _ (us : List User) (ts : List Transfer) where
  joined :
      (f : SplitLeg → ℤ) (g : MoneyRequest → ℤ) (r : MoneyRequest) (o : Option User)
      (ls : List SplitLeg) (z : ℤ)
      → ((q : MoneyRequest) (u : User) → f (leg_of ts q u) ≡ g q)
      → o ≢ none
      → sum_of f ls ≡ z
      → sum_of f (with_payer ts r o ls) ≡ g r +ℤ z
  joined f g r none ls z k known h = absurd (known refl)
  joined f g r (some u) ls z k known h = rw (k r u, h) refl

  sum_of-join_legs :
      (f : SplitLeg → ℤ) (g : MoneyRequest → ℤ) (rs : List MoneyRequest)
      → ((q : MoneyRequest) (u : User) → f (leg_of ts q u) ≡ g q)
      → All (IsKnown us) rs
      → sum_of f (join_legs us ts rs) ≡ sum_of g rs
  unfolding join_legs
  sum_of-join_legs f g [] k h = refl
  sum_of-join_legs f g (r ∷ rs) k h =
      joined f g r (find user_key r.payer_user_id us) (join_legs us ts rs) (sum_of g rs) k h.0
        (sum_of-join_legs f g rs k h.1)

  counted :
      (r : MoneyRequest) (o : Option User) (ls : List SplitLeg) (n : ℕ)
      → o ≢ none
      → length ls ≡ n
      → length (with_payer ts r o ls) ≡ n + 1
  counted r none ls n known h = absurd (known refl)
  counted r (some u) ls n known h = omega (arith, h)

  length-join_legs :
      (rs : List MoneyRequest) → All (IsKnown us) rs → length (join_legs us ts rs) ≡ length rs
  unfolding join_legs
  length-join_legs [] h = refl
  length-join_legs (r ∷ rs) h = omega (
    arith,
    counted r (find user_key r.payer_user_id us) (join_legs us ts rs) (length rs) h.0
        (length-join_legs rs h.1),
  )

length-map : {A B : Type 0} (f : A → B) (xs : List A) → length (map f xs) ≡ length xs
length-map f [] = refl
length-map f (x ∷ xs) = omega (arith, length-map f xs)

module _ (b : BillSplit) (env : Env) (st : State) where
  abbrev rows : List MoneyRequest
  rows = select_where (is_leg_of b.id) st.db.money_requests

  abbrev joined_rows : List SplitLeg
  joined_rows = join_legs st.db.users st.db.transfers rows

  abbrev shown : List SplitLeg
  shown = sort_legs env joined_rows

  sum_of-shown : (f : SplitLeg → ℤ) → sum_of f shown ≡ sum_of f joined_rows
  unfolding sort_legs
  sum_of-shown f =
      sum_of-sort_by f (λ (l : SplitLeg). env.collation l.payer_name)
        (sort_by (λ (l : SplitLeg). l.request_id) joined_rows)
      ∙ sum_of-sort_by f (λ (l : SplitLeg). l.request_id) joined_rows

  length-shown : length shown ≡ length joined_rows
  unfolding sort_legs
  length-shown =
      length-sort_by asked (λ (l : SplitLeg). env.collation l.payer_name)
        (sort_by (λ (l : SplitLeg). l.request_id) joined_rows)
      ∙ length-sort_by asked (λ (l : SplitLeg). l.request_id) joined_rows

  module _ (known : All (IsKnown st.db.users) st.db.money_requests) where
    rows-IsKnown : All (IsKnown st.db.users) rows
    rows-IsKnown =
        All-select_where (IsKnown st.db.users) (is_leg_of b.id) st.db.money_requests known

    requested_agrees : sum_legs shown ≡ sum_amounts rows
    requested_agrees =
        sum_legs-sum_of shown
        ∙ sum_of-shown asked
        ∙ sum_of-join_legs st.db.users st.db.transfers asked asked_of rows (λ q u. refl)
            rows-IsKnown
        ∙ sym (sum_amounts-sum_of rows)

    collected_agrees :
        sum_legs (select_where (λ l. is_accepted l.status) shown)
        ≡ sum_amounts (select_where (λ r. is_accepted r.status) rows)
    collected_agrees =
        sum_legs-sum_of (select_where (λ l. is_accepted l.status) shown)
        ∙ sum_of-select_where asked (λ l. is_accepted l.status) shown
        ∙ sum_of-shown (where_so asked (λ l. is_accepted l.status))
        ∙ sum_of-join_legs st.db.users st.db.transfers (where_so asked (λ l. is_accepted l.status))
            (where_so asked_of (λ r. is_accepted r.status)) rows (λ q u. refl) rows-IsKnown
        ∙ sym (sum_of-select_where asked_of (λ r. is_accepted r.status) rows)
        ∙ sym (sum_amounts-sum_of (select_where (λ r. is_accepted r.status) rows))

  shown_legs : (legs : List SplitLeg) → list_legs b.id env st ≡ (ok legs, st) → shown ≡ legs
  unfolding list_legs
  shown_legs legs h = ok_inj h
    where
      ok_inj :
          {x y : List SplitLeg}
          → Path (Result (List SplitLeg) × State) (ok x, st) (ok y, st)
          → x ≡ y
      ok_inj k = cc

  -- Where the payer of every request is a user, the detail view of a split, which adds up the legs that
  -- `listLegs` returns, and its line in the list of splits, which the database adds up, show the same
  -- total, the same amounts collected and outstanding, and the same number of legs.
  pub progress_agrees :
      (legs : List SplitLeg)
      → All (IsKnown st.db.users) st.db.money_requests
      → list_legs b.id env st ≡ (ok legs, st)
      → ((split_dto b legs).total ≡ (summary_dto (summary_of st.db.money_requests b)).total)
        × ((split_dto b legs).collected
            ≡ (summary_dto (summary_of st.db.money_requests b)).collected)
        × ((split_dto b legs).outstanding
            ≡ (summary_dto (summary_of st.db.money_requests b)).outstanding)
        × (length (split_dto b legs).legs
            ≡ (summary_dto (summary_of st.db.money_requests b)).leg_count)
  unfolding split_dto summary_dto summary_of
  progress_agrees legs known h =
      subst
        (λ ls.
          (money b.total_amount_minor ≡ money b.total_amount_minor)
          × (money (sum_legs (select_where (λ l. is_accepted l.status) ls))
              ≡ money (sum_amounts (select_where (λ r. is_accepted r.status) rows)))
          × (money (sum_legs ls -ℤ sum_legs (select_where (λ l. is_accepted l.status) ls))
              ≡ money
                  (sum_amounts rows -ℤ sum_amounts (select_where (λ r. is_accepted r.status) rows)))
          × (length (map leg_dto ls) ≡ length rows))
        (shown_legs legs h)
        (
          refl,
          ap money (collected_agrees known),
          rw (requested_agrees known, collected_agrees known) refl,
          length-map leg_dto shown
              ∙ length-shown
              ∙ length-join_legs st.db.users st.db.transfers rows (rows-IsKnown known),
        )
