-- ===== src/Examples/Endpoints.antt =====
-- The theorems about backend/kairos/bookings/views.py at one administrator and one series.
use kairos_booking_engine.Base.{
  true, false, ◌≡◌, refl, not, ◌&&◌, ◌||◌, none, some, [], ◌∷◌, arith, any, ◌==◌,
}
use kairos_booking_engine.Errors.{Error, ok, err}
use kairos_booking_engine.Schema.{AppUser, AppUserPlatformRole, AppUserStatus, Booking, Json}
use kairos_booking_engine.Store.{State, atomic, on_commit}
use kairos_booking_engine.Authorization.{
  can_administer_resource, can_cancel_booking, can_view_resource,
}
use kairos_booking_engine.Idempotency.{
  IdempotentWriteResult, run_idempotent_write, run_idempotent_write_body,
}
use kairos_booking_engine.Bookings.{cancel_booking, create_booking}
use kairos_booking_engine.Store.Bookings.{
  update_bookings, get_booking, insert_booking, delete_bookings,
}
use kairos_booking_engine.Store.Keys.{insert_key, update_keys}
use kairos_booking_engine.Policy.{is_blank, validate_cancel}
use kairos_booking_engine.Resources.{
  RevokeResourceAdminRequest, delete_grants, revoke_resource_admin,
}
use kairos_booking_engine.Series.Token.{issue_preview_token}
use kairos_booking_engine.Series.Confirm.{ConfirmOutcome}
use kairos_booking_engine.Endpoints.{
  Request, uuid, directory_of, cancel_booking_view, confirm_series_view, create_request_of,
  post_booking_view,
}
use kairos_booking_engine.Endpoints.Authority.{cancel_booking_view_authority}
use kairos_booking_engine.Endpoints.Acknowledgment.{confirm_series_view_unacknowledged}
use kairos_booking_engine.Endpoints.Revoked.{cancel_booking_view-revoke_resource_admin}
use kairos_booking_engine.Examples.Data.{calm, state, confirmed_row, booked, offered}
use kairos_booking_engine.Endpoints.Waitlist.{confirm_offer_view, get_offer_for_owner}
use kairos_booking_engine.Waitlist.Offers.{accept_offer}
use kairos_booking_engine.Store.Waitlist.{update_offers, update_entries}
use kairos_booking_engine.Endpoints.Owned.{offer_views_owned}
use kairos_booking_engine.Endpoints.Once.{created_answer, replayed_answer, post_booking_view_once}
use kairos_booking_engine.Bookings.{new_booking}
use kairos_booking_engine.Policy.{validate_booking_create}
use kairos_booking_engine.Examples.Authorization.{resource_row}
use kairos_booking_engine.Examples.Series.{tz, definition, jwt, jwt-IsJwt, world}

abbrev admin : AppUser
admin = record {
  id = 4;
  platform_role = AppUserPlatformRole.booker;
  status = AppUserStatus.active;
  deactivated_at = none;
}

abbrev request : Request
request = record {
  user = admin;
  header = uuid 77;
  endpoint = "POST /api/v1/bookings/11/cancel";
  fingerprint = 5;
  request_id = "r";
}

abbrev rendered : Booking → Json
rendered b = Json.content "booking"

-- The user 4 administers room 7, where the user 3 has a booking.
abbrev administered : State
administered = state false (record booked {
  admin_grants = record { id = 1; resource = 7; user = 4; granted_at = 1; granted_by = 1 } ∷ [];
})

abbrev answer : IdempotentWriteResult
answer = record { response_status = 200; response_body = Json.content "booking"; is_replay = false }

cancel_booking_view_authority_example :
    any
      (λ b.
        b.id == 11
        && (b.user == 4
            || (can_administer_resource (directory_of [] administered.tables) admin b.resource
                && not (is_blank (some "flood")))))
      administered.bookings
    ≡ true
unfolding cancel_booking_view can_cancel_booking validate_cancel run_idempotent_write atomic
    run_idempotent_write_body insert_key cancel_booking update_bookings get_booking on_commit
    update_keys
cancel_booking_view_authority_example =
    cancel_booking_view_authority [] (calm 10 0) (calm 11 0) request 11 (some "flood") rendered
      administered answer refl

abbrev revocation : RevokeResourceAdminRequest
revocation = record { resource = 7; user_id = 4; actor = 1; request_id = "r" }

cancel_booking_view-revoke_resource_admin_example :
    let t = (revoke_resource_admin (calm 9 0) revocation administered).1 in
    cancel_booking_view [] (calm 10 0) (calm 11 0) request 11 (some "flood") rendered t
    ≡ (err Error.not_found, t)
unfolding revoke_resource_admin atomic delete_grants
cancel_booking_view-revoke_resource_admin_example =
    cancel_booking_view-revoke_resource_admin (calm 9 0) revocation [] (calm 10 0) (calm 11 0)
      request 77 confirmed_row (some "flood") rendered administered refl refl refl refl refl refl
      refl

abbrev described : ConfirmOutcome → Json
described o = Json.content "series"

-- The conflict of day 0 is acknowledged, the adjustment of day 7 is not.
confirm_series_view_unacknowledged_example :
    confirm_series_view jwt tz 899
      (calm 10 0)
      (calm 12 0)
      (world 100)
      request
      (issue_preview_token jwt 0 4 definition (0 ∷ []) (7 ∷ []))
      (0 ∷ [])
      []
      described
      (state false booked)
    ≡ (err Error.unacknowledged_conflicts, state false booked)
confirm_series_view_unacknowledged_example =
    confirm_series_view_unacknowledged jwt tz 0 899 (calm 10 0) (calm 12 0) (world 100) request 77
      definition (0 ∷ []) (7 ∷ []) (0 ∷ []) [] described (state false booked) jwt-IsJwt refl
      (omega arith) (omega arith) refl

-- The user 4 accepts the offer 31.
offer_views_owned_example :
    any
      (λ o. o.id == 31 && any (λ w. w.id == o.waitlist_entry && w.user == 4) offered.entries)
      offered.offers
    ≡ true
unfolding confirm_offer_view get_offer_for_owner run_idempotent_write atomic
    run_idempotent_write_body insert_key accept_offer update_bookings update_offers update_entries
    get_booking update_keys
offer_views_owned_example =
    offer_views_owned (calm 10 0) (calm 11 0) request 31 (λ b o. Json.content "booking")
      (λ o. Json.content "offer") (state false offered) refl

-- Room 7, with the booking of 100-200; the request is for 20-50, and is sent again in time.
abbrev furnished : State
furnished = state false (record booked { resources = resource_row 7 none ∷ [] })

room_validated :
    validate_booking_create tz (directory_of [] furnished.tables) admin 10 7 20 50
    ≡ ok (resource_row 7 none)
unfolding validate_booking_create can_view_resource
room_validated = refl

post_booking_view_once_example :
    ((post_booking_view tz [] 10 (calm 10 0) (calm 11 13) request 7 20 50 rendered furnished).0
      ≡ ok (created_answer (Json.content "booking")))
    × ((post_booking_view tz [] 10
          (calm 10 0)
          (calm 11 13)
          request
          7
          20
          50
          rendered
          furnished).1.bookings
        ≡ new_booking (calm 11 13) (create_request_of request (resource_row 7 none) 20 50)
          ∷ booked.bookings)
    × (post_booking_view tz [] 15
          (calm 15 0)
          (calm 16 14)
          request
          7
          20
          50
          rendered
          (post_booking_view tz [] 10 (calm 10 0) (calm 11 13) request 7 20 50 rendered furnished).1
        ≡ (
          ok (replayed_answer (Json.content "booking")),
          (post_booking_view tz [] 10
              (calm 10 0)
              (calm 11 13)
              request
              7
              20
              50
              rendered
              furnished).1,
        ))
unfolding validate_booking_create can_view_resource post_booking_view run_idempotent_write atomic
    run_idempotent_write_body insert_key update_keys create_booking insert_booking delete_bookings
    get_booking
post_booking_view_once_example =
    post_booking_view_once tz [] request 77 7 20 50 rendered 10 15 (calm 10 0) (calm 11 13)
      (calm 15 0) (calm 16 14) (resource_row 7 none) furnished refl refl refl refl room_validated
      refl refl (record { quiet = refl; nonempty = omega arith; fresh = refl }) refl refl
