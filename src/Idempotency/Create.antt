-- ===== src/Idempotency/Create.antt =====
-- `POST /api/v1/bookings`: `BookingCollectionView.post` of backend/kairos/bookings/views.py, from the
-- validated request on, with any rendering of the booking as the body.
use kairos_booking_engine.Base.{
  ℕ, ◌≡◌, refl, Bool, true, false, none, List, ◌∷◌, arith, ◌==◌, ==_refl, if◌then◌else◌, any, all,
  ap, ◌∙◌,
}
use kairos_booking_engine.Errors.{ok}
use kairos_booking_engine.Schema.{Booking, WaitlistOffer, IdempotencyKey, Json}
use kairos_booking_engine.Store.{Tables, State, Env, M, ◌>>=◌, pure, references_hold}
use kairos_booking_engine.Store.Bookings.{conflicts, insert_booking, delete_bookings, get_booking}
use kairos_booking_engine.Store.Keys.{is_key, completed_has_response}
use kairos_booking_engine.Store.Keeps.{Keeps, keeps_rules}
use kairos_booking_engine.Bookings.{
  BookingCreateRequest, new_booking, create_booking, handle_write_database_error,
}
use kairos_booking_engine.Bookings.Outcome.{
  IsProper, remaining, references, create_booking_answer, create_booking_rows,
}
use kairos_booking_engine.Idempotency.{IdempotentWriteResult, WriteRequest, run_idempotent_write}
use kairos_booking_engine.Idempotency.Replay.{claimed, run_idempotent_write_first}
use kairos_booking_engine.Idempotency.Twice.{run_idempotent_write_twice}

-- perform_write
abbrev pub perform_create : Env → BookingCreateRequest → (Booking → Json) → M (ℕ × Json)
perform_create e req render = create_booking e req >>= λ b. pure (201, render b)

abbrev pub post_booking :
    Env → Env → WriteRequest → BookingCreateRequest → (Booking → Json) → M IdempotentWriteResult
post_booking claim_env e wreq req render =
    run_idempotent_write claim_env wreq (perform_create e req render)

module _ (ks : List IdempotencyKey) (os : List WaitlistOffer) where
  abbrev pub Kept : Tables → Type 0
  Kept t = (t.keys ≡ ks) × (t.offers ≡ os)

  Kept-insert_booking : (b : Booking) → Keeps Kept (insert_booking b)
  unfolding insert_booking
  Kept-insert_booking b = record { at = λ s h. (ground arith, ground arith) }

  Kept-delete_bookings : (p : Booking → Bool) → Keeps Kept (delete_bookings p)
  unfolding delete_bookings
  Kept-delete_bookings p = record { at = λ s h. h }

  Kept-get_booking : (id : ℕ) → Keeps Kept (get_booking id)
  unfolding get_booking
  Kept-get_booking id = record { at = λ s h. (ground arith, ground arith) }

  pub Kept-create_booking :
      (e : Env) (req : BookingCreateRequest) → Keeps Kept (create_booking e req)
  unfolding create_booking handle_write_database_error
  Kept-create_booking e req =
      search (keeps_rules, Kept-insert_booking, Kept-delete_bookings, Kept-get_booking) depth 12

chosen : {A : Type 0} (m n : ℕ) (a b : A) → n ≡ m → (if m == n then a else b) ≡ a
chosen m n a b h = ground (arith, ==_refl m)

performed :
    {A B : Type 0} (m : M A) (f : A → B) (a : A) (s : State)
    → (m s).0 ≡ ok a
    → (m >>= λ x. pure (f x)) s ≡ (ok (f a), (m s).1)
performed m f a s h = ground arith

module _ (claim_env e later : Env) (wreq again : WriteRequest) (req : BookingCreateRequest)
    (render : Booking → Json) (other_write : M (ℕ × Json)) (s : State) where
  -- Outside a transaction and with no server failure, with a key that is new, keys that meet
  -- their constraint, a proper request, no booking in the way and no offer that loses its hold,
  -- `POST /bookings` answers 201 and leaves the new booking and the rows that its cleanup of
  -- expired holds leaves; a second call with the same user, key and fingerprint, whatever it
  -- would write, gives the same answer marked as a replay and changes nothing.
  pub post_booking_once :
      s.in_atomic ≡ false
      → claim_env.fault ≡ none
      → later.fault ≡ none
      → again.user ≡ wreq.user
      → again.key ≡ wreq.key
      → again.fingerprint ≡ wreq.fingerprint
      → any (is_key wreq.user wreq.key) s.keys ≡ false
      → all completed_has_response s.keys ≡ true
      → IsProper e req s
      → any (conflicts (new_booking e req)) (remaining e req s.bookings) ≡ false
      → references (new_booking e req ∷ remaining e req s.bookings) s.offers ≡ true
      → ((post_booking claim_env e wreq req render s).0
          ≡ ok (record {
            response_status = 201;
            response_body = render (new_booking e req);
            is_replay = false;
          }))
        × ((post_booking claim_env e wreq req render s).1.bookings
            ≡ new_booking e req ∷ remaining e req s.bookings)
        × (run_idempotent_write later again other_write
              (post_booking claim_env e wreq req render s).1
            ≡ (
              ok (record {
                response_status = 201;
                response_body = render (new_booking e req);
                is_replay = true;
              }),
              (post_booking claim_env e wreq req render s).1,
            ))
  post_booking_once outer quiet quiet' user key body fresh checked proper free referenced =
      let c = claimed claim_env wreq s in
      let answered : (create_booking e req c).0 ≡ ok (new_booking e req) =
        create_booking_answer e req c
          (record { quiet = proper.quiet; nonempty = proper.nonempty; fresh = proper.fresh }) refl
        ∙ rw free in
      let rows =
        create_booking_rows e req c
          (record { quiet = proper.quiet; nonempty = proper.nonempty; fresh = proper.fresh })
          (new_booking e req) answered in
      let same = (Kept-create_booking c.keys s.offers e req).at c (refl, refl) in
      let wrote =
        performed (create_booking e req) (λ b. (201, render b)) (new_booking e req) c answered in
      let held : references_hold (create_booking e req c).1.tables ≡ true =
        rw (same.1, rows) referenced in
      let done =
        run_idempotent_write_first claim_env wreq (perform_create e req render) s 201
          (render (new_booking e req)) (create_booking e req c).1 outer quiet fresh checked wrote
          same.0 held in
      (
        ap (λ p. p.0) done,
        ap (λ p. p.1.bookings) done ∙ rows,
        run_idempotent_write_twice claim_env later wreq again (perform_create e req render)
              other_write s 201 (render (new_booking e req)) (create_booking e req c).1 outer quiet
              quiet' user key fresh checked wrote same.0 held
            ∙ ap (λ r. (r, (post_booking claim_env e wreq req render s).1))
                (chosen wreq.fingerprint again.fingerprint _ _ body),
      )
