-- ===== src/Endpoints/Owned.antt =====
-- Whose offers and entries the views of backend/kairos/waitlist/views.py act on.
use kairos_booking_engine.Base.{
  ℕ, ◌≡◌, Bool, true, false, ◌&&◌, ◌||◌, some, List, [], ◌∷◌, arith, any, find?, ◌==◌, Option-cases,
  Bool-cases, inl, inr,
}
use kairos_booking_engine.Errors.{Result, ok, err}
use kairos_booking_engine.Schema.{Booking, Json, WaitlistEntry, WaitlistOffer}
use kairos_booking_engine.Store.{State, Env}
use kairos_booking_engine.Endpoints.{Request}
use kairos_booking_engine.Endpoints.Waitlist.{
  get_offer_for_owner, confirm_offer_view, decline_offer_view,
}

abbrev pub is_answer : {A : Type 0} → Result A → Bool
is_answer (ok a) = true
is_answer (err e) = false

any_with :
    {A : Type 0} (p q : A → Bool) (rows : List A) (a : A)
    → find? p rows ≡ some a
    → q a ≡ true
    → any (λ x. p x && q x) rows ≡ true
any_with p q [] a found h = cc
any_with p q (x ∷ rows) a found h = ground (arith, any_with p q rows a)

-- The offer of a user, with the entry that it was made to.
abbrev pub is_offer_to : ℕ → List WaitlistEntry → WaitlistOffer → Bool
is_offer_to user entries o = any (λ w. w.id == o.waitlist_entry && w.user == user) entries

owned_where_got :
    (pk : ℕ) (r : Request) (s : State)
    → is_answer (get_offer_for_owner pk r.user s).0 ≡ true
    → any (λ o. o.id == pk && is_offer_to r.user.id s.entries o) s.offers ≡ true
unfolding get_offer_for_owner
owned_where_got pk r s got = elim (Option-cases (find? (λ o. o.id == pk) s.offers)) [
  | inl missing ↦ absurd (ground arith)
  | inr (o, found) ↦ elim (Option-cases (find? (λ w. w.id == o.waitlist_entry) s.entries)) [
    | inl lost ↦ absurd (ground (arith, found))
    | inr (w, owned) ↦
        any_with (λ x. x.id == pk) (is_offer_to r.user.id s.entries) s.offers o found
          (any_with (λ x. x.id == o.waitlist_entry) (λ x. x.user == r.user.id) s.entries w owned
            (ground (arith, found)))
  ]
]

confirm_got :
    (claim_env e : Env) (r : Request) (pk : ℕ) (confirmed : Booking → WaitlistOffer → Json)
    (s : State)
    → is_answer (confirm_offer_view claim_env e r pk confirmed s).0 ≡ true
    → is_answer (get_offer_for_owner pk r.user s).0 ≡ true
unfolding confirm_offer_view get_offer_for_owner
confirm_got claim_env e r pk confirmed s h = ground arith

decline_got :
    (claim_env e : Env) (r : Request) (pk : ℕ) (declined : WaitlistOffer → Json) (s : State)
    → is_answer (decline_offer_view claim_env e r pk declined s).0 ≡ true
    → is_answer (get_offer_for_owner pk r.user s).0 ≡ true
unfolding decline_offer_view get_offer_for_owner
decline_got claim_env e r pk declined s h = ground arith

-- Where `POST /waitlist-offers/{id}/confirm` or `POST /waitlist-offers/{id}/decline` answers
-- without an exception, whatever the world decides, the offer exists and the waitlist entry
-- that it was made to is the user's.
pub offer_views_owned :
    (claim_env e : Env) (r : Request) (pk : ℕ) (confirmed : Booking → WaitlistOffer → Json)
    (declined : WaitlistOffer → Json) (s : State)
    → is_answer (confirm_offer_view claim_env e r pk confirmed s).0
        || is_answer (decline_offer_view claim_env e r pk declined s).0
      ≡ true
    → any
        (λ o. o.id == pk && any (λ w. w.id == o.waitlist_entry && w.user == r.user.id) s.entries)
        s.offers
      ≡ true
offer_views_owned claim_env e r pk confirmed declined s h =
    owned_where_got pk r s
      (elim (Bool-cases (is_answer (confirm_offer_view claim_env e r pk confirmed s).0)) [
        | inl c ↦ confirm_got claim_env e r pk confirmed s c
        | inr c ↦ decline_got claim_env e r pk declined s (ground arith)
      ])
