-- ===== src/Endpoints/Acknowledgment.antt =====
-- What `RecurringSeriesConfirmView` of backend/kairos/bookings/views.py needs to be acknowledged.
use kairos_booking_engine.Base.{ℕ, ◌+◌, ◌≤◌, ◌<◌, ◌≡◌, true, not, ◌||◌, List, arith, ==_refl}
use kairos_booking_engine.Errors.{Error, err}
use kairos_booking_engine.Schema.{Json}
use kairos_booking_engine.Store.{State, Env}
use kairos_booking_engine.Waitlist.Cascade.{Envs}
use kairos_booking_engine.Recurrence.{Tzdata}
use kairos_booking_engine.Series.{SeriesDefinition}
use kairos_booking_engine.Series.{date_in}
use kairos_booking_engine.Series.Token.{Jwt, IsJwt, issue_preview_token, preview_token_ttl_seconds}
use kairos_booking_engine.Series.Roundtrip.{
  any-in_text_order, decode_preview_token-issue_preview_token,
}
use kairos_booking_engine.Series.Confirm.{ConfirmOutcome}
use kairos_booking_engine.Endpoints.{Request, uuid, has_unacknowledged, confirm_series_view}

-- With a lawful PyJWT and texts that are read back, a confirmation within the fifteen minutes
-- of the user's own preview that leaves one of its conflicts or adjustments unacknowledged
-- raises `unacknowledged_conflicts` and changes nothing: no key is claimed and no occurrence is
-- attempted.
pub confirm_series_view_unacknowledged :
    {Token : Type 0} (j : Jwt Token) (tz : Tzdata) (issued now : ℕ) (claim_env after : Env)
    (envs : Envs) (r : Request) (key : ℕ) (def : SeriesDefinition)
    (conflict_dates adjustment_dates conflicts adjustments : List ℕ)
    (render : ConfirmOutcome → Json) (s : State)
    → IsJwt j
    → r.header ≡ uuid key
    → issued ≤ now
    → now < issued + preview_token_ttl_seconds
    → has_unacknowledged conflict_dates conflicts || has_unacknowledged adjustment_dates adjustments
      ≡ true
    → let token = issue_preview_token j issued r.user.id def conflict_dates adjustment_dates in
      confirm_series_view j tz now claim_env after envs r token conflicts adjustments render s
      ≡ (err Error.unacknowledged_conflicts, s)
unfolding confirm_series_view
confirm_series_view_unacknowledged j tz issued now claim_env after envs r key def cds ads cs fs
      render s lawful named begun running missing =
    let decoded =
      decode_preview_token-issue_preview_token j issued now r.user.id r.user.id def cds ads
        lawful in
    let left =
      λ (given ds : List ℕ). any-in_text_order j.date_text (λ d. not (date_in d given)) ds in
    ground (arith, ==_refl r.user.id, decoded.0, left cs cds, left fs ads)
