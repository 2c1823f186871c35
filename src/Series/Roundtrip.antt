-- ===== src/Series/Roundtrip.antt =====
-- A preview token of backend/kairos/bookings/recurring_series.py read back.
use kairos_booking_engine.Base.{
  ℕ, ◌+◌, ◌≡◌, refl, sym, ◌∙◌, ap, subst, Bool, true, ◌&&◌, ◌||◌, Option, some, List, [], ◌∷◌, map,
  arith, ltb, leb, ◌==◌, ==_refl, ==_iff, if◌then◌else◌, any, Bool-cases, inl, inr,
}
use kairos_booking_engine.Errors.{Error, ok, err}
use kairos_booking_engine.Series.{SeriesDefinition, date_in}
use kairos_booking_engine.Series.Token.{
  Text, text_eq, text_leb, insert_text, Claims, Jwt, IsJwt, DecodedPreview, sorted,
  preview_token_ttl_seconds, issue_preview_token, parse_dates, read_claims, decode_preview_token,
}

-- The order that the dates of a set get in a token: that of their texts.
insert_by : (ℕ → Text) → ℕ → List ℕ → List ℕ
insert_by text d [] = d ∷ []
insert_by text d (x ∷ xs) =
    let rest = insert_by text d xs in if text_leb (text d) (text x) then d ∷ x ∷ xs else x ∷ rest

unfoldable pub in_text_order : (ℕ → Text) → List ℕ → List ℕ
unfolding insert_by
in_text_order text [] = []
in_text_order text (d ∷ ds) = insert_by text d (in_text_order text ds)

any-insert_by :
    (text : ℕ → Text) (p : ℕ → Bool) (d : ℕ) (xs : List ℕ)
    → any p (insert_by text d xs) ≡ p d || any p xs
unfolding insert_by
any-insert_by text p d [] = refl
any-insert_by text p d (x ∷ xs) = ground (arith, any-insert_by text p d xs)

pub any-in_text_order :
    (text : ℕ → Text) (p : ℕ → Bool) (ds : List ℕ) → any p (in_text_order text ds) ≡ any p ds
unfolding in_text_order
any-in_text_order text p [] = refl
any-in_text_order text p (d ∷ ds) =
    ground (arith, any-insert_by text p d (in_text_order text ds), any-in_text_order text p ds)

insert_text-map :
    (text : ℕ → Text) (d : ℕ) (xs : List ℕ)
    → insert_text (text d) (map text xs) ≡ map text (insert_by text d xs)
unfolding insert_text insert_by
insert_text-map text d [] = refl
insert_text-map text d (x ∷ xs) = ground (arith, insert_text-map text d xs)

sorted-map :
    (text : ℕ → Text) (ds : List ℕ) → sorted (map text ds) ≡ map text (in_text_order text ds)
unfolding sorted in_text_order
sorted-map text [] = refl
sorted-map text (d ∷ ds) =
    ap (insert_text (text d)) (sorted-map text ds) ∙ insert_text-map text d (in_text_order text ds)

parse_dates-map :
    (text : ℕ → Text) (parse : Text → Option ℕ) (ds : List ℕ)
    → ((n : ℕ) → parse (text n) ≡ some n)
    → parse_dates parse (map text ds) ≡ some ds
parse_dates-map text parse [] back = refl
parse_dates-map text parse (d ∷ ds) back = rw (back d, parse_dates-map text parse ds back) refl

text_eq_refl : (t : Text) → text_eq t t ≡ true
text_eq_refl [] = refl
text_eq_refl (c ∷ cs) = ground (arith, ==_refl c, text_eq_refl cs)

text_eq-≡ : (t u : Text) → text_eq t u ≡ true → t ≡ u
text_eq-≡ [] [] h = refl
text_eq-≡ [] (d ∷ ds) h = absurd (cc h)
text_eq-≡ (c ∷ cs) [] h = absurd (cc h)
text_eq-≡ (c ∷ cs) (d ∷ ds) h =
    let heads : c ≡ d = (==_iff c d).0 (ground arith) in
    let tails : cs ≡ ds = text_eq-≡ cs ds (ground arith) in rw (heads, tails) refl

same_user :
    {Token : Type 0} (j : Jwt Token) (owner user : ℕ)
    → IsJwt j
    → text_eq (j.uuid_text owner) (j.uuid_text user) ≡ (owner == user)
same_user j owner user lawful = elim (Bool-cases (owner == user)) [
  | inl same ↦
      let equal : owner ≡ user = (==_iff owner user).0 same in
      subst (λ u. text_eq (j.uuid_text owner) (j.uuid_text u) ≡ (owner == u)) equal
        (text_eq_refl (j.uuid_text owner) ∙ sym (==_refl owner))
  | inr other ↦ elim (Bool-cases (text_eq (j.uuid_text owner) (j.uuid_text user))) [
    | inl hit ↦
        let texts = text_eq-≡ (j.uuid_text owner) (j.uuid_text user) hit in
        let values : some owner ≡ some user =
          sym (lawful.reads_uuid owner) ∙ ap j.uuid_of texts ∙ lawful.reads_uuid user in
        let equal : owner ≡ user = cc values in absurd (ground (arith, ==_refl user))
    | inr miss ↦ miss ∙ sym other
  ]
]

-- What is read of the claims that a token was issued with.
abbrev pub as_issued :
    {Token : Type 0} → Jwt Token → SeriesDefinition → List ℕ → List ℕ → DecodedPreview
as_issued j def conflict_dates adjustment_dates = record {
  definition = def;
  conflict_dates = in_text_order j.date_text conflict_dates;
  adjustment_dates = in_text_order j.date_text adjustment_dates;
}

abbrev issued_claims :
    {Token : Type 0} → Jwt Token → ℕ → ℕ → SeriesDefinition → List ℕ → List ℕ → Claims
issued_claims j now user def conflict_dates adjustment_dates = record {
  user_id = some (j.uuid_text user);
  resource_id = some (j.uuid_text def.resource);
  timezone = some def.timezone;
  local_start_time = some (j.time_text def.local_start_time);
  local_end_time = some (j.time_text def.local_end_time);
  weekday = some def.weekday;
  series_start_date = some (j.date_text def.series_start_date);
  occurrence_count = some def.occurrence_count;
  conflict_dates = some (sorted (map j.date_text conflict_dates));
  adjustment_dates = some (sorted (map j.date_text adjustment_dates));
  iat = now;
  exp = now + preview_token_ttl_seconds;
}

read_back :
    {Token : Type 0} (j : Jwt Token) (now user : ℕ) (def : SeriesDefinition) (cd ad : List ℕ)
    → IsJwt j
    → read_claims j (issued_claims j now user def cd ad) ≡ some (as_issued j def cd ad)
read_back j now user def cd ad lawful =
    let parsed = λ (ds : List ℕ).
      parse_dates-map j.date_text j.date_of_text (in_text_order j.date_text ds) lawful.reads_date in
    rw
      (
        lawful.reads_uuid def.resource,
        lawful.reads_time def.local_start_time,
        lawful.reads_time def.local_end_time,
        lawful.reads_date def.series_start_date,
        sorted-map j.date_text cd,
        sorted-map j.date_text ad,
        parsed cd,
        parsed ad,
      )
      refl

-- With a lawful PyJWT, and texts of identifiers, dates and times that are read as what they
-- were written from, a preview token that was issued at `issued` to a user gives back, to that
-- user and within its fifteen minutes, each field of the definition of the series as it was
-- issued and both sets of dates, with the same members; to another user, or at any other time,
-- it raises `preview_expired`.
pub decode_preview_token-issue_preview_token :
    {Token : Type 0} (j : Jwt Token) (issued now owner user : ℕ) (def : SeriesDefinition)
    (conflict_dates adjustment_dates : List ℕ)
    → IsJwt j
    → let token = issue_preview_token j issued owner def conflict_dates adjustment_dates in
      let inside = leb issued now && ltb now (issued + preview_token_ttl_seconds) in
      (decode_preview_token j now token user ≡ (
        if inside && owner == user
        then ok (as_issued j def conflict_dates adjustment_dates)
        else err Error.preview_expired))
      × ((d : ℕ)
          → date_in d (as_issued j def conflict_dates adjustment_dates).conflict_dates
            ≡ date_in d conflict_dates)
      × ((d : ℕ)
          → date_in d (as_issued j def conflict_dates adjustment_dates).adjustment_dates
            ≡ date_in d adjustment_dates)
unfolding issue_preview_token decode_preview_token
decode_preview_token-issue_preview_token j issued now owner user def cd ad lawful = (
  rw (lawful.accepts (issued_claims j issued owner def cd ad) now)
      (ground (arith, same_user j owner user lawful, read_back j issued owner def cd ad lawful)),
  λ d. any-in_text_order j.date_text (λ x. x == d) cd,
  λ d. any-in_text_order j.date_text (λ x. x == d) ad,
)
