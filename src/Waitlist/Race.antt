-- ===== src/Waitlist/Race.antt =====
-- The acceptance of an offer and the reaper meet on one hold (backend/kairos/waitlist/services.py):
-- whichever comes first decides.
use kairos_booking_engine.Base.{
  ℕ, String, ◌≡◌, refl, Bool, true, false, none, some, List, [], ◌∷◌, arith, any, find?,
  update_where, distinct_by, count_where_none, update_where_none, sym, find?-holds,
}
use kairos_booking_engine.Errors.{Error, ok, err}
use kairos_booking_engine.Schema.{Booking}
use kairos_booking_engine.Store.{State, Env, atomic, references_hold}
use kairos_booking_engine.Store.Bookings.{update_bookings}
use kairos_booking_engine.Store.Consistent.{IsConsistent, same_id}
use kairos_booking_engine.Bookings.{has_id}
use kairos_booking_engine.Waitlist.Offers.{
  AcceptOfferRequest, accept_offer, is_acceptable, confirm_row, release_row,
}
use kairos_booking_engine.Waitlist.Offers.Fine.{release_row_fine}
use kairos_booking_engine.Waitlist.Offers.Accept.{accept_offer_accepted, accept_offer_refused}
use kairos_booking_engine.Waitlist.Reaper.{is_expired, is_expired_row, Reclaimed, lost, reclaim}
use kairos_booking_engine.Waitlist.Reaper.Covered.{bookings-reclaim}

none_with_id :
    (i : ℕ) (p : Booking → Bool) (f : Booking → Booking) (q : Booking → Bool) (rows : List Booking)
    → ((b : Booking) → (f b).id ≡ b.id)
    → ((b : Booking) → q b ≡ true → b.id ≡ i)
    → any (has_id i) rows ≡ false
    → any q (update_where p f rows) ≡ false
none_with_id i p f q [] same only h = refl
none_with_id i p f q (x ∷ rows) same only h =
    ground (arith, same x, only x, only (f x), none_with_id i p f q rows same only)

-- An update that ends `q` on the one row with an identifier ends it on all.
ended :
    (i : ℕ) (p : Booking → Bool) (f : Booking → Booking) (q : Booking → Bool) (b : Booking)
    (rows : List Booking)
    → ((r : Booking) → (f r).id ≡ r.id)
    → ((r : Booking) → q r ≡ true → r.id ≡ i)
    → distinct_by same_id rows ≡ true
    → find? (has_id i) rows ≡ some b
    → p b ≡ true
    → q (f b) ≡ false
    → any q (update_where p f rows) ≡ false
ended i p f q b [] same only d found hit out = refl
ended i p f q b (x ∷ rows) same only d found hit out = ground (
  arith,
  same x,
  only x,
  only (f x),
  ended i p f q b rows same only,
  none_with_id x.id p f q rows same,
)

-- A row that is confirmed is no expired hold, and one that is released is not acceptable.
confirmed_not_expired :
    (i user now later : ℕ) (b : Booking) (rows : List Booking)
    → distinct_by same_id rows ≡ true
    → find? (has_id i) rows ≡ some b
    → is_acceptable i user now b ≡ true
    → any (is_expired_row i later) (update_where (is_acceptable i user now) confirm_row rows)
      ≡ false
confirmed_not_expired i user now later b rows d found fits =
    ended i (is_acceptable i user now) confirm_row (is_expired_row i later) b rows (λ r. refl)
      (λ r h. ground arith) d found fits (ground arith)

released_not_acceptable :
    (i user now later : ℕ) (b : Booking) (rows : List Booking)
    → distinct_by same_id rows ≡ true
    → find? (has_id i) rows ≡ some b
    → is_expired_row i now b ≡ true
    → any (is_acceptable i user later) (update_where (is_expired_row i now) (release_row now) rows)
      ≡ false
released_not_acceptable i user now later b rows d found fits =
    ended i (is_expired_row i now) (release_row now) (is_acceptable i user later) b rows (λ r. refl)
      (λ r h. ground arith) d found fits (ground arith)

reclaim_lost :
    (e : Env) (now : ℕ) (request_id : String) (hold : Booking) (t : State)
    → IsConsistent t.tables
    → references_hold t.tables ≡ true
    → e.fault ≡ none
    → any (is_expired_row hold.id now) t.bookings ≡ false
    → ((reclaim e now request_id hold t).0 ≡ ok lost)
      × ((reclaim e now request_id hold t).1.bookings ≡ t.bookings)
unfolding reclaim atomic update_bookings
reclaim_lost e now request_id hold t c held quiet missed =
    let fine = release_row_fine now (is_expired_row hold.id now) t.tables c in
    let same = update_where_none (is_expired_row hold.id now) (release_row now) t.bookings missed in
    let zero_rows = count_where_none (is_expired_row hold.id now) t.bookings missed in
    (ground arith, ground arith)

module _ (e after : Env) (req : AcceptOfferRequest) (now : ℕ) (request_id : String)
    (hold b : Booking) (s t : State) where
  -- Where the owner of a running hold of consistent tables has accepted its offer inside a
  -- transaction, with no server failure, the reaper that comes to the same hold afterwards, on
  -- consistent tables with those bookings where each offer has its hold, at any clock and with
  -- no server failure, finds it lost to the acceptance and leaves the bookings as they are.
  pub reclaim-accept_offer :
      IsConsistent s.tables
      → s.in_atomic ≡ true
      → e.fault ≡ none
      → find? (has_id req.offer.hold_booking) s.bookings ≡ some b
      → is_acceptable req.offer.hold_booking req.user e.now b ≡ true
      → hold.id ≡ req.offer.hold_booking
      → t.bookings ≡ (accept_offer e req s).1.bookings
      → IsConsistent t.tables
      → references_hold t.tables ≡ true
      → after.fault ≡ none
      → ((reclaim after now request_id hold t).0 ≡ ok lost)
        × ((reclaim after now request_id hold t).1.bookings ≡ t.bookings)
  reclaim-accept_offer c nested quiet found fits same committed c' held quiet' =
      reclaim_lost after now request_id hold t c' held quiet' (
        rw (committed, (accept_offer_accepted e req s b c nested quiet found fits).1, same)
          (confirmed_not_expired req.offer.hold_booking req.user e.now now b s.bookings c.ids found
            fits))

  -- Where the reaper has come to an expired hold of consistent tables without an exception, an
  -- acceptance of an offer of that hold, on consistent tables with the bookings it left, at any
  -- clock, by any user and with no server failure, is refused with `offer_expired` and changes
  -- nothing.
  pub accept_offer-reclaim :
      (r : Reclaimed)
      → IsConsistent s.tables
      → find? (has_id hold.id) s.bookings ≡ some b
      → is_expired now b ≡ true
      → (reclaim after now request_id hold s).0 ≡ ok r
      → hold.id ≡ req.offer.hold_booking
      → t.bookings ≡ (reclaim after now request_id hold s).1.bookings
      → IsConsistent t.tables
      → e.fault ≡ none
      → accept_offer e req t ≡ (err Error.offer_expired, t)
  accept_offer-reclaim r c found old done same committed c' quiet =
      accept_offer_refused e req t c' quiet (
        rw (committed, bookings-reclaim after now request_id hold s r done, sym same)
          (released_not_acceptable hold.id req.user now e.now b s.bookings c.ids found
            (ground (arith, find?-holds (has_id hold.id) s.bookings b found))))
