-- ===== src/Endpoints/Authority.antt =====
-- Who can change a booking through the views of backend/kairos/bookings/views.py.
use kairos_booking_engine.Base.{
  ℕ, String, ◌≡◌, Bool, true, not, ◌&&◌, ◌||◌, Option, some, List, [], ◌∷◌, arith, any, find?, ◌==◌,
  Option-cases, inl, inr,
}
use kairos_booking_engine.Errors.{ok}
use kairos_booking_engine.Schema.{Booking, Json}
use kairos_booking_engine.Store.{State, Env}
use kairos_booking_engine.Authorization.{
  UserGroupMembership, can_administer_resource, can_cancel_booking,
}
use kairos_booking_engine.Idempotency.{IdempotentWriteResult}
use kairos_booking_engine.Policy.{is_blank, validate_cancel}
use kairos_booking_engine.Endpoints.{Request, directory_of, cancel_booking_view}

any_of_found :
    (p q : Booking → Bool) (rows : List Booking) (b : Booking)
    → find? p rows ≡ some b
    → q b ≡ true
    → any (λ x. p x && q x) rows ≡ true
any_of_found p q [] b found h = cc
any_of_found p q (x ∷ rows) b found h = ground (arith, any_of_found p q rows b)

-- Where `POST /bookings/{id}/cancel` answers without an exception, whatever the world decides,
-- the booking exists and the user owns it, or administers its resource, by a grant or as a
-- system administrator, and gave a reason that is not blank.
pub cancel_booking_view_authority :
    (ms : List UserGroupMembership) (claim_env e : Env) (r : Request) (pk : ℕ)
    (reason : Option String) (render : Booking → Json) (s : State) (y : IdempotentWriteResult)
    → (cancel_booking_view ms claim_env e r pk reason render s).0 ≡ ok y
    → any
        (λ b.
          b.id == pk
          && (b.user == r.user.id
              || (can_administer_resource (directory_of ms s.tables) r.user b.resource
                  && not (is_blank reason))))
        s.bookings
      ≡ true
unfolding cancel_booking_view can_cancel_booking validate_cancel
cancel_booking_view_authority ms claim_env e r pk reason render s y done =
    elim (Option-cases (find? (λ b. b.id == pk) s.bookings)) [
      | inl missing ↦ absurd (ground arith)
      | inr (b, found) ↦
          any_of_found (λ b. b.id == pk)
            (λ b.
              b.user == r.user.id
              || (can_administer_resource (directory_of ms s.tables) r.user b.resource
                  && not (is_blank reason)))
            s.bookings b found (ground arith)
    ]
