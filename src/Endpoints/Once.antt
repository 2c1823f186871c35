-- ===== src/Endpoints/Once.antt =====
-- `POST /api/v1/bookings` sent twice: `BookingCollectionView.post` of backend/kairos/bookings/views.py,
-- which validates a request before it looks at its key.
use kairos_booking_engine.Base.{ℕ, ◌≡◌, refl, ◌∙◌, true, false, none, List, ◌∷◌, any, all}
use kairos_booking_engine.Errors.{Result, ok, err}
use kairos_booking_engine.Schema.{Booking, Json, Resource, AuditActorType}
use kairos_booking_engine.Store.{State, Env}
use kairos_booking_engine.Store.Bookings.{conflicts}
use kairos_booking_engine.Store.Keys.{is_key, completed_has_response}
use kairos_booking_engine.Bookings.{new_booking}
use kairos_booking_engine.Bookings.Outcome.{IsProper, remaining, references}
use kairos_booking_engine.Authorization.{UserGroupMembership}
use kairos_booking_engine.Idempotency.{IdempotentWriteResult}
use kairos_booking_engine.Idempotency.Create.{post_booking, perform_create, post_booking_once}
use kairos_booking_engine.Recurrence.{Tzdata}
use kairos_booking_engine.Policy.{and_then, validate_booking_create}
use kairos_booking_engine.Endpoints.{
  Request, uuid, write_request, directory_of, create_request_of, post_booking_view,
}

abbrev pub created_answer : Json → IdempotentWriteResult
created_answer body = record { response_status = 201; response_body = body; is_replay = false }

abbrev pub replayed_answer : Json → IdempotentWriteResult
replayed_answer body = record { response_status = 201; response_body = body; is_replay = true }

module _ (tz : Tzdata) (ms : List UserGroupMembership) (r : Request) (key resource start end : ℕ)
    (render : Booking → Json) where
  validated :
      (now : ℕ) (claim_env e : Env) (found : Resource) (s : State)
      → r.header ≡ uuid key
      → validate_booking_create tz (directory_of ms s.tables) r.user now resource start end
        ≡ ok found
      → post_booking_view tz ms now claim_env e r resource start end render s
        ≡ post_booking claim_env e
            (write_request r key AuditActorType.user none)
            (create_request_of r found start end)
            render
            s
  unfolding post_booking_view
  validated now claim_env e found s named valid = rw (named, valid) refl

  by_validation :
      (now : ℕ) (claim_env e : Env) (body : Json) (t : State) (v : Result Resource)
      → r.header ≡ uuid key
      → validate_booking_create tz (directory_of ms t.tables) r.user now resource start end ≡ v
      → ((found : Resource)
          → post_booking claim_env e
              (write_request r key AuditActorType.user none)
              (create_request_of r found start end)
              render
              t
            ≡ (ok (replayed_answer body), t))
      → post_booking_view tz ms now claim_env e r resource start end render t
        ≡ (and_then v (λ found. ok (replayed_answer body)), t)
  unfolding post_booking_view
  by_validation now claim_env e body t (ok found) named valid replayed =
      validated now claim_env e found t named valid ∙ replayed found
  by_validation now claim_env e body t (err error) named valid replayed = rw (named, valid) refl

  -- Outside a transaction and with no server failure, where a request with a key that is new
  -- passes the validation, and the keys meet their constraint, the booking is a proper request,
  -- no booking is in its way and no offer loses its hold, `POST /bookings` answers 201 and
  -- leaves the new booking and the rows that its cleanup of expired holds leaves; the same
  -- request sent again, at any later clock, makes no booking and changes nothing: it gives the
  -- stored answer marked as a replay where it still passes the validation, and the exception of
  -- the validation where it does not.
  pub post_booking_view_once :
      (now then : ℕ) (claim_env e later later_e : Env) (found : Resource) (s : State)
      → s.in_atomic ≡ false
      → claim_env.fault ≡ none
      → later.fault ≡ none
      → r.header ≡ uuid key
      → validate_booking_create tz (directory_of ms s.tables) r.user now resource start end
        ≡ ok found
      → any (is_key r.user.id key) s.keys ≡ false
      → all completed_has_response s.keys ≡ true
      → let req = create_request_of r found start end in
        let rows = remaining e req s.bookings in
        IsProper e req s
        → any (conflicts (new_booking e req)) rows ≡ false
        → references (new_booking e req ∷ rows) s.offers ≡ true
        → let first = post_booking_view tz ms now claim_env e r resource start end render s in
          let t = first.1 in
          (first.0 ≡ ok (created_answer (render (new_booking e req))))
          × (t.bookings ≡ new_booking e req ∷ rows)
          × (post_booking_view tz ms then later later_e r resource start end render t ≡ (
            and_then
                (validate_booking_create tz
                  (directory_of ms t.tables)
                  r.user
                  then
                  resource
                  start
                  end)
                (λ again. ok (replayed_answer (render (new_booking e req)))),
            t,
          ))
  post_booking_view_once now then claim_env e later later_e found s outer calm quiet named valid
        fresh checked proper free referenced =
      let req = create_request_of r found start end in
      let wreq = write_request r key AuditActorType.user none in
      let body = render (new_booking e req) in
      let once = λ (f : Resource).
        post_booking_once claim_env e later wreq wreq req render
          (perform_create later_e (create_request_of r f start end) render) s outer calm quiet refl
          refl refl fresh checked proper free referenced in
      let same = validated now claim_env e found s named valid in
      let u = (post_booking claim_env e wreq req render s).1 in
      let second =
        by_validation then later later_e body u
          (validate_booking_create tz (directory_of ms u.tables) r.user then resource start end)
          named refl (λ f. (once f).2) in
      rw same ((once found).0, (once found).1, second)
