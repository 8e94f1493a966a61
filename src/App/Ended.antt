-- ===== src/App/Ended.antt =====
-- The end of a request is final.
use pstu_hackathon.Base.{
  ℕ, ◌<◌, ◌≡◌, ◌≢◌, refl, sym, ◌∙◌, arith, true, false, ◌&&◌, none, some, List, [], ◌∷◌, ◌==◌,
  ==_ne, ==_eq, inl, inr, Bool-cases,
}
use pstu_hackathon.Base.Table.{find, modify, find-modify, All, All-imp, All-modify, absent, IsKeyed}
use pstu_hackathon.Platform.Schema.{Transfer, MoneyRequest, Occurrence, RequestStatus}
use pstu_hackathon.Platform.Action.Keeps.{Keeps}
use pstu_hackathon.Platform.Transaction.{World}
use pstu_hackathon.Reversal.{claim_reversal}
use pstu_hackathon.Request.Repo.{
  Terminal, terminal_status, is_actor, is_pending, accept, finish, insert_request, mark_accepted,
  transition, expire_due, expire_all, due_requests, request_key,
}
use pstu_hackathon.Request.Due.{All-due_requests}
use pstu_hackathon.Request.Updates.{chosen, update_guarded-kept, row_count-kept}
use pstu_hackathon.Request.Steady.{RequestSteady}
use pstu_hackathon.Schedule.Steady.{ScheduleSteady}
use pstu_hackathon.Schedule.Aside.{apart}
use pstu_hackathon.Dispatcher.Steady.{unseen_outbox}
use pstu_hackathon.Auth.Session.Steady.{unseen_tokens}
use pstu_hackathon.App.{Reaches}
use pstu_hackathon.App.Steady.{Reaches-OnWorld}
use pstu_hackathon.App.Tables.{Grows, OnTables, OnTables-Steady, OnTables-SplitSteady}

module _ (r : MoneyRequest) (over : is_pending r.status ≡ false) where
  -- no pending row has the identifier of `r`
  abbrev IsElsewhere : MoneyRequest → Type 0
  IsElsewhere q = is_pending q.status ≡ true → q.id ≢ r.id

  -- The request's row is `r`, and its identifier has been given out.
  abbrev IsRow : ℕ → List Transfer → List MoneyRequest → List Occurrence → Type 0
  IsRow n ts rs os = (find request_key r.id rs ≡ some r) × (r.id < n) × All IsElsewhere rs

  -- In a keyed table the row of `r` is the only one with its identifier.
  elsewhere :
      (rs : List MoneyRequest)
      → IsKeyed request_key rs
      → find request_key r.id rs ≡ some r
      → All IsElsewhere rs
  elsewhere [] k h = tt
  elsewhere (q ∷ qs) (new, keyed) h = elim (Bool-cases (q.id == r.id)) [
    | inl same ↦ (
      (λ p e. over_pending (some_inj {x = q} {y = r} (rw same at h)) p),
      All-imp qs (λ x ne p. ne) (absent request_key r.id qs (rw (==_eq q.id r.id same) at new)),
    )
    | inr other ↦ ((λ p e. ground (arith, e, other)), elsewhere qs keyed (rw other at h))
  ]
    where
      some_inj : {x y : MoneyRequest} → some x ≡ some y → x ≡ y
      some_inj k = cc

      over_pending : q ≡ r → is_pending q.status ≡ true → ⊥
      over_pending k p = ground (arith, k, over, p)

  grows : Grows IsRow
  grows = record {
    later = λ le h. (h.0, omega (arith, h.1, le), h.2);
    posted = λ c reference now h. (h.0, omega (arith, h.1), h.2);
  }

  same_row :
      {q : MoneyRequest} (id : ℕ) (rs : List MoneyRequest)
      → find request_key r.id rs ≡ some r
      → id ≡ r.id
      → find request_key id rs ≡ some q
      → is_pending q.status ≡ true
      → ⊥
  same_row {q} id rs h e f p = not_pending (some_inj {x = r} {y = q} (sym h ∙ (rw e at f)))
    where
      some_inj : {x y : MoneyRequest} → some x ≡ some y → x ≡ y
      some_inj k = cc

      not_pending : r ≡ q → ⊥
      not_pending k = ground (arith, k, over, p)

  -- an update of another row, to a status that is not pending
  updated :
      (f : MoneyRequest → MoneyRequest) (id n : ℕ) (ts : List Transfer) (rs : List MoneyRequest)
      (os : List Occurrence)
      → ((q : MoneyRequest) → (f q).id ≡ q.id)
      → ((q : MoneyRequest) → is_pending (f q).status ≡ false)
      → id ≢ r.id
      → IsRow n ts rs os
      → IsRow n ts (modify request_key id f rs) os
  updated f id n ts rs os same_id done other h = (
    find-modify request_key r.id id f rs same_id
        ∙ rw (==_ne r.id id (λ e. other (sym e)), h.0) refl,
    h.1,
    All-modify request_key id f rs (λ q p pending. absurd (ground (arith, pending, done q))) h.2,
  )

  expire_all-IsRow :
      (ds : List MoneyRequest) (n : ℕ) (ts : List Transfer) (rs : List MoneyRequest)
      (os : List Occurrence)
      → All (λ d. d.id ≢ r.id) ds
      → IsRow n ts rs os
      → IsRow n ts (expire_all ds rs) os
  unfolding expire_all
  expire_all-IsRow [] n ts rs os other h = h
  expire_all-IsRow (d ∷ ds) n ts rs os (o, other) h =
      updated (finish RequestStatus.expired none) d.id n ts (expire_all ds rs) os (λ q. refl)
        (λ q. refl) o (expire_all-IsRow ds n ts rs os other h)

  done_by : (to : Terminal) → is_pending (terminal_status to) ≡ false
  done_by Terminal.decline = refl
  done_by Terminal.cancel = refl

  requests : RequestSteady (OnTables IsRow)
  unfolding insert_request mark_accepted transition expire_due
  requests = record {
    insertion = λ q. record {
      at = λ env s h. (
        rw (==_ne s.db.next_id r.id (λ e. omega (arith, h.1, e))) h.0,
        omega (arith, h.1),
        ((λ p e. omega (arith, h.1, e)), h.2),
      );
    };
    acceptance = λ id x. record {
      at = λ env s h. row_count-kept (OnTables IsRow) _ (
          update_guarded-kept (OnTables IsRow) (λ q. is_pending q.status) (accept x) id
            (find request_key id s.db.money_requests) s
            (λ q e p.
              updated (accept x) id s.db.next_id s.db.transfers s.db.money_requests
                s.db.schedule_occurrences (λ y. refl) (λ y. refl)
                (λ k. same_row id s.db.money_requests h.0 k e p) h)
            h);
    };
    ending = λ id to actor reason. record {
      at = λ env s h.
          update_guarded-kept (OnTables IsRow) (λ q. is_actor to actor q && is_pending q.status)
            (finish (terminal_status to) reason) id (find request_key id s.db.money_requests) s
            (λ q e p.
              updated (finish (terminal_status to) reason) id s.db.next_id s.db.transfers
                s.db.money_requests s.db.schedule_occurrences (λ y. refl) (λ y. done_by to)
                (λ k. same_row id s.db.money_requests h.0 k e (ground (arith, p))) h)
            h;
    };
    expiry = λ limit. record {
      at = λ env s h.
          expire_all-IsRow (due_requests env.now limit s.db.money_requests) s.db.next_id
            s.db.transfers s.db.money_requests s.db.schedule_occurrences
            (All-due_requests (λ d. d.id ≢ r.id) env.now limit s.db.money_requests h.2) h;
    };
  }

  marking : (t : Transfer) → Keeps (OnTables IsRow) (claim_reversal t)
  unfolding claim_reversal
  marking t = record { at = λ env s h. chosen (OnTables IsRow) _ _ _ _ s (λ e. h) h }

  schedules : ScheduleSteady (OnTables IsRow) (λ id. Unit)
  schedules = apart (record { schedules = λ s n ss os le h. (h.0, omega (arith, h.1, le), h.2) })

  -- The row of a request that is no longer pending, with an identifier that has been given out, is
  -- found unchanged after whatever calls are made, if the identifiers in the table are unique.
  pub ended_final :
      {w v : World}
      → Reaches w v
      → IsKeyed request_key w.db.money_requests
      → r.id < w.db.next_id
      → find request_key r.id w.db.money_requests ≡ some r
      → find request_key r.id v.db.money_requests ≡ some r
  ended_final {w} reached keyed given there =
      (Reaches-OnWorld
        (record {
          shared = OnTables-Steady grows;
          marking = marking;
          requests = requests;
          splits = OnTables-SplitSteady grows;
          sessions = unseen_tokens (λ s n ts le h.
              grows.later {ts = s.db.transfers} {rs = s.db.money_requests}
                {os = s.db.schedule_occurrences} le h);
          outbox = unseen_outbox (λ s es ns h. h);
          schedules = schedules;
        })
        reached (there, given, elsewhere w.db.money_requests keyed there)).0
