-- ===== src/Series/Token.antt =====
-- `_issue_preview_token` and `decode_preview_token` of backend/kairos/bookings/recurring_series.py.
use kairos_booking_engine.Base.{
  ℕ, ◌+◌, ◌≡◌, Bool, true, false, String, map, [], ◌∷◌, ◌||◌, ◌&&◌, Option, none, some, List, ltb,
  leb, ◌==◌, if◌then◌else◌,
}
use kairos_booking_engine.Errors.{Error, Result, ok, err}
use kairos_booking_engine.Series.{SeriesDefinition}

-- PREVIEW_TOKEN_TTL_SECONDS of backend/kairos/core/constants.py.
abbrev pub preview_token_ttl_seconds : ℕ
preview_token_ttl_seconds = 900

-- A text, as its code points.
abbrev pub Text : Type 0
Text = List ℕ

abbrev pub text_eq : Text → Text → Bool
text_eq [] [] = true
text_eq [] (d ∷ ds) = false
text_eq (c ∷ cs) [] = false
text_eq (c ∷ cs) (d ∷ ds) = c == d && text_eq cs ds

-- The order of texts, by their code points.
abbrev pub text_leb : Text → Text → Bool
text_leb [] ds = true
text_leb (c ∷ cs) [] = false
text_leb (c ∷ cs) (d ∷ ds) = ltb c d || (c == d && text_leb cs ds)

-- The claims of a token by their names: a claim that is not there is `none`. A token of another kind
-- under the same key (the session token) has a `user_id` and lacks the others.
pub record Claims : Type 0 where
  pub user_id : Option Text
  pub resource_id : Option Text
  pub timezone : Option String
  pub local_start_time : Option Text
  pub local_end_time : Option Text
  pub weekday : Option ℕ
  pub series_start_date : Option Text
  pub occurrence_count : Option ℕ
  pub conflict_dates : Option (List Text)
  pub adjustment_dates : Option (List Text)
  pub iat : ℕ
  pub exp : ℕ

-- The library PyJWT with the signing key: `jwt.encode`, and `jwt.decode` at a time in seconds,
-- which raises (`none`) for a token that it does not accept; and the texts of a UUID, a date and a
-- time of day, with `uuid.UUID`, `date.fromisoformat` and `time.fromisoformat`, which raise
-- ValueError (`none`) for a text that is none.
pub record Jwt (Token : Type 0) : Type 0 where
  pub encode : Claims → Token
  pub decode : ℕ → Token → Option Claims
  pub uuid_text : ℕ → Text
  pub uuid_of : Text → Option ℕ
  pub date_text : ℕ → Text
  pub date_of_text : Text → Option ℕ
  pub time_text : ℕ → Text
  pub time_of_text : Text → Option ℕ

-- What PyJWT documents: a token signed with the key is accepted from its `iat` on and before its
-- `exp`, and gives its claims back. What the standard library documents: each of the three texts is
-- read as the value that it was written from.
pub record IsJwt {Token : Type 0} (j : Jwt Token) : Type 0 where
  pub accepts :
      (c : Claims) (now : ℕ)
      → j.decode now (j.encode c) ≡ (if leb c.iat now && ltb now c.exp then some c else none)
  pub reads_uuid : (n : ℕ) → j.uuid_of (j.uuid_text n) ≡ some n
  pub reads_date : (n : ℕ) → j.date_of_text (j.date_text n) ≡ some n
  pub reads_time : (n : ℕ) → j.time_of_text (j.time_text n) ≡ some n

pub record DecodedPreview : Type 0 where
  pub definition : SeriesDefinition
  pub conflict_dates : List ℕ
  pub adjustment_dates : List ℕ

unfoldable pub insert_text : Text → List Text → List Text
insert_text t [] = t ∷ []
insert_text t (x ∷ xs) =
    let rest = insert_text t xs in if text_leb t x then t ∷ x ∷ xs else x ∷ rest

-- sorted(..), of texts
unfoldable pub sorted : List Text → List Text
unfolding insert_text
sorted [] = []
sorted (t ∷ ts) = insert_text t (sorted ts)

-- now = int(time.time())
unfoldable pub issue_preview_token :
    {Token : Type 0} → Jwt Token → ℕ → ℕ → SeriesDefinition → List ℕ → List ℕ → Token
issue_preview_token j now user def conflict_dates adjustment_dates = j.encode (record {
  user_id = some (j.uuid_text user);
  resource_id = some (j.uuid_text def.resource);
  timezone = some def.timezone;
  local_start_time = some (j.time_text def.local_start_time);
  local_end_time = some (j.time_text def.local_end_time);
  weekday = some def.weekday;
  series_start_date = some (j.date_text def.series_start_date);
  occurrence_count = some def.occurrence_count;
  conflict_dates = some (sorted (map j.date_text conflict_dates));
  adjustment_dates = some (sorted (map j.date_text adjustment_dates));
  iat = now;
  exp = now + preview_token_ttl_seconds;
})

-- To go on with a value, unless there is none.
abbrev pub with_value : {A B : Type 0} → Option A → (A → Option B) → Option B
with_value none f = none
with_value (some a) f = f a

-- frozenset(date.fromisoformat(d) for d in ..), as the list of its members
abbrev pub parse_dates : (Text → Option ℕ) → List Text → Option (List ℕ)
parse_dates parse [] = some []
parse_dates parse (t ∷ ts) =
    with_value (parse t) (λ d. with_value (parse_dates parse ts) (λ ds. some (d ∷ ds)))

-- The fields of the preview, read from the claims one by one: `none` is a KeyError or a ValueError.
abbrev pub read_claims : {Token : Type 0} → Jwt Token → Claims → Option DecodedPreview
read_claims j c = with_value (with_value c.resource_id j.uuid_of) (λ resource.
    with_value c.timezone (λ timezone.
      with_value (with_value c.local_start_time j.time_of_text) (λ local_start_time.
        with_value (with_value c.local_end_time j.time_of_text) (λ local_end_time.
          with_value c.weekday (λ weekday.
            with_value (with_value c.series_start_date j.date_of_text) (λ series_start_date.
              with_value c.occurrence_count (λ occurrence_count.
                with_value (with_value c.conflict_dates (parse_dates j.date_of_text))
                  (λ conflict_dates.
                    with_value (with_value c.adjustment_dates (parse_dates j.date_of_text))
                      (λ adjustment_dates. some (record {
                        definition = record {
                          resource = resource;
                          timezone = timezone;
                          local_start_time = local_start_time;
                          local_end_time = local_end_time;
                          weekday = weekday;
                          series_start_date = series_start_date;
                          occurrence_count = occurrence_count;
                        };
                        conflict_dates = conflict_dates;
                        adjustment_dates = adjustment_dates;
                      }))))))))))

abbrev pub or_expired : {A : Type 0} → Option A → Result A
or_expired none = err Error.preview_expired
or_expired (some a) = ok a

-- claims.get("user_id") == str(user.id)
abbrev pub has_text : Text → Option Text → Bool
has_text t none = false
has_text t (some x) = text_eq x t

-- What a token's verification gave, against the user who sends it.
abbrev pub decode_claims : {Token : Type 0} → Jwt Token → ℕ → Option Claims → Result DecodedPreview
decode_claims j user none = err Error.preview_expired
decode_claims j user (some c) =
    if has_text (j.uuid_text user) c.user_id
    then or_expired (read_claims j c)
    else err Error.preview_expired

unfoldable pub decode_preview_token :
    {Token : Type 0} → Jwt Token → ℕ → Token → ℕ → Result DecodedPreview
decode_preview_token j now token user = decode_claims j user (j.decode now token)
