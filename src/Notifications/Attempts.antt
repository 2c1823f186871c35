-- ===== src/Notifications/Attempts.antt =====
-- What the attempts at a delivery leave in the log: backend/kairos/core/notifications.py.
use kairos_booking_engine.Base.{
  ℕ, suc, ◌+◌, ◌≡◌, refl, sym, ap, subst, String, Bool, true, false, ◌||◌, Option, none, some, List,
  [], ◌∷◌, arith, ==_refl, if◌then◌else◌, is_none, any, all, update_where_none, Option-cases, inl,
  inr,
}
use kairos_booking_engine.Errors.{Error, Result, ok, err}
use kairos_booking_engine.Schema.{NotificationLog, DeliveryStatus}
use kairos_booking_engine.Store.{State, Env}
use kairos_booking_engine.Notifications.{Mail}
use kairos_booking_engine.Notifications.Delivery.{
  Attempt, log_id, new_log, write_log, with_attempt, with_sent, with_failure, get_or_create_log,
  update_log, record_delivery, execute_notification_delivery, deliver, retry,
}

-- How many attempts are made: up to the first that succeeds.
abbrev pub attempts_made : Attempt → List Attempt → ℕ
attempts_made a [] = 1
attempts_made a (b ∷ rest) = if is_none a.outcome then 1 else suc (attempts_made b rest)

abbrev pub succeeds : Attempt → List Attempt → Bool
succeeds a rest = is_none a.outcome || any (λ b. is_none b.outcome) rest

abbrev pub is_quiet : Attempt → Bool
is_quiet a = is_none a.env.fault

abbrev pub is_sent : DeliveryStatus → Bool
is_sent DeliveryStatus.sent = true
is_sent _ = false

abbrev pub is_ok : Result (Unit {0}) → Bool
is_ok (ok u) = true
is_ok (err e) = false

-- One row for a delivery before the old ones: how often it was tried, and how it stands, which is
-- also how the delivery ended.
pub record IsLogged (id tried : ℕ) (done : Bool) (old : List NotificationLog)
    (end : Result (Unit {0}) × State) : Type 0 where
  pub row : NotificationLog
  pub rows : end.1.notifications ≡ row ∷ old
  pub named : row.id ≡ id
  pub attempts : row.attempts ≡ tried
  pub status : is_sent row.status ≡ done
  pub answer : is_ok end.0 ≡ done

after : Env → Option String → NotificationLog → NotificationLog
after e none l = with_sent e.now (with_attempt l)
after e (some reason) l = with_failure reason (with_attempt l)

module _ (id : ℕ) (m : Mail) (old : List NotificationLog) where
  step_row :
      (e : Env) (outcome : Option String) (l : NotificationLog) (s : State)
      → e.fault ≡ none
      → any (log_id id) old ≡ false
      → s.notifications ≡ l ∷ old
      → l.id ≡ id
      → ((execute_notification_delivery e id m outcome s).1.notifications ≡ after e outcome l ∷ old)
        × ((execute_notification_delivery e id m outcome s).0
            ≡ elim outcome [ none ↦ ok tt | some r ↦ err (Error.delivery_failure r) ])
  unfolding execute_notification_delivery get_or_create_log update_log record_delivery after
  step_row e none l s quiet apart here named =
      let tried = update_where_none (log_id id) with_attempt old apart in
      let marked = update_where_none (log_id id) (with_sent e.now) old apart in
      (ground (arith, ==_refl id), ground (arith, ==_refl id))
  step_row e (some reason) l s quiet apart here named =
      let tried = update_where_none (log_id id) with_attempt old apart in
      let marked = update_where_none (log_id id) (with_failure reason) old apart in
      (ground (arith, ==_refl id), ground (arith, ==_refl id))

  after_fields :
      (e : Env) (outcome : Option String) (l : NotificationLog)
      → ((after e outcome l).id ≡ l.id)
        × ((after e outcome l).attempts ≡ suc l.attempts)
        × (is_sent (after e outcome l).status ≡ is_none outcome)
  unfolding after
  after_fields e none l = (refl, refl, refl)
  after_fields e (some reason) l = (refl, refl, refl)

  deliver_from :
      (a : Attempt) (rest : List Attempt) (l : NotificationLog) (s : State)
      → is_quiet a ≡ true
      → all is_quiet rest ≡ true
      → any (log_id id) old ≡ false
      → s.notifications ≡ l ∷ old
      → l.id ≡ id
      → IsLogged id
          (l.attempts + attempts_made a rest)
          (succeeds a rest)
          old
          (deliver id m a rest s)
  unfolding deliver
  deliver_from a [] l s quiet calm apart here named =
      let (rows, answer) = step_row a.env a.outcome l s (ground arith) apart here named in
      let (same, tried, status) = after_fields a.env a.outcome l in
      record {
        row = after a.env a.outcome l;
        rows = rows;
        named = ground arith;
        attempts = omega arith;
        status = ground arith;
        answer = ground arith;
      }
  deliver_from a (b ∷ rest) l s quiet calm apart here named =
      let (rows, answer) = step_row a.env a.outcome l s (ground arith) apart here named in
      let (same, tried, status) = after_fields a.env a.outcome l in
      let t = (execute_notification_delivery a.env id m a.outcome s).1 in
      elim (Option-cases a.outcome) [
        | inl good ↦ record {
          row = after a.env a.outcome l;
          rows = ground (arith, good, answer, rows);
          named = ground arith;
          attempts = ground (arith, good, tried);
          status = ground (arith, good, status);
          answer = ground (arith, good, answer);
        }
        | inr (reason, bad) ↦
            let later =
              deliver_from b rest (after a.env a.outcome l) t (ground (arith, calm))
                (ground (arith, calm)) apart rows (ground arith) in
            record {
              row = later.row;
              rows = ground (arith, bad, answer, later.rows);
              named = later.named;
              attempts = ground (arith, bad, tried, later.attempts);
              status = ground (arith, bad, later.status);
              answer = ground (arith, bad, answer, later.answer);
            }
      ]

created_first :
    (id : ℕ) (m : Mail) (e : Env) (outcome : Option String) (s : State)
    → e.fault ≡ none
    → any (log_id id) s.notifications ≡ false
    → execute_notification_delivery e id m outcome s
      ≡ execute_notification_delivery e id m outcome
          (write_log s (new_log e id m ∷ s.notifications))
unfolding execute_notification_delivery get_or_create_log
created_first id m e outcome s quiet fresh = ground (arith, ==_refl id)

deliver-created :
    (id : ℕ) (m : Mail) (a : Attempt) (rest : List Attempt) (s : State)
    → a.env.fault ≡ none
    → any (log_id id) s.notifications ≡ false
    → deliver id m a rest s
      ≡ deliver id m a rest (write_log s (new_log a.env id m ∷ s.notifications))
unfolding deliver
deliver-created id m a [] s quiet fresh = created_first id m a.env a.outcome s quiet fresh
deliver-created id m a (b ∷ rest) s quiet fresh =
    ap (λ end. retry end (deliver id m b rest)) (created_first id m a.env a.outcome s quiet fresh)

-- With no failure of the database, the attempts at a new notification leave one row of it
-- before the old ones, whichever of them the mail server refuses: it counts the attempts that
-- were made, up to the first success, it is marked as sent exactly where one succeeded, and the
-- delivery raises exactly where none did.
pub deliver-IsLogged :
    (id : ℕ) (m : Mail) (a : Attempt) (rest : List Attempt) (s : State)
    → all is_quiet (a ∷ rest) ≡ true
    → any (log_id id) s.notifications ≡ false
    → IsLogged id (attempts_made a rest) (succeeds a rest) s.notifications (deliver id m a rest s)
deliver-IsLogged id m a rest s quiet fresh =
    let l = new_log a.env id m in
    let t = write_log s (l ∷ s.notifications) in
    subst (λ end. IsLogged id (attempts_made a rest) (succeeds a rest) s.notifications end)
      (sym (deliver-created id m a rest s (ground (arith, quiet)) fresh))
      (subst (λ n. IsLogged id n (succeeds a rest) s.notifications (deliver id m a rest t))
        {x = 0 + attempts_made a rest} {y = attempts_made a rest} (omega arith)
        (deliver_from id m s.notifications a rest l t (ground (arith, quiet))
          (ground (arith, quiet)) fresh refl refl))
