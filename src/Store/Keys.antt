-- ===== src/Store/Keys.antt =====
-- The table `idempotency_key` of backend/kairos/core/models.py, which no trigger watches.
use kairos_booking_engine.Base.{
  ℕ, Bool, true, false, ◌&&◌, Option, none, some, List, ◌∷◌, ◌==◌, if◌then◌else◌, is_some, is_none,
  any, find?, update_where, all, count_where,
}
use kairos_booking_engine.Errors.{Sqlstate}
use kairos_booking_engine.Schema.{IdempotencyKey, IdempotencyKeyStatus}
use kairos_booking_engine.Store.{State, M}
use kairos_booking_engine.Store.Bookings.{verdict, or_missing}

abbrev pub is_in_progress : IdempotencyKeyStatus → Bool
is_in_progress IdempotencyKeyStatus.in_progress = true
is_in_progress IdempotencyKeyStatus.completed = false

-- The primary key (user_id, key).
abbrev pub is_key : ℕ → ℕ → IdempotencyKey → Bool
is_key user key k = k.user == user && k.key == key

-- The CHECK constraint `completed_has_response`.
abbrev pub completed_has_response : IdempotencyKey → Bool
completed_has_response k =
    if is_in_progress k.status
    then is_none k.response_status
    else (is_some k.response_status && is_some k.completed_at)

abbrev pub write_keys : State → List IdempotencyKey → State
write_keys s rows = record s { tables = record s.tables { keys = rows } }

abbrev pub key_error : IdempotencyKey → List IdempotencyKey → Option Sqlstate
key_error k rows =
    if completed_has_response k
    then (if any (is_key k.user k.key) rows then some Sqlstate.unique_violation else none)
    else some Sqlstate.check_violation

-- IdempotencyKey.objects.create(...)
unfoldable pub insert_key : IdempotencyKey → M (Unit {0})
insert_key k s = verdict s (key_error k s.keys) tt (write_keys s (k ∷ s.keys))

-- IdempotencyKey.objects.filter(user=user, key=key).update(...)
unfoldable pub update_keys : ℕ → ℕ → (IdempotencyKey → IdempotencyKey) → M ℕ
update_keys user key f s =
    let rows = update_where (is_key user key) f s.keys in
    verdict s (if all completed_has_response rows then none else some Sqlstate.check_violation)
      (count_where (is_key user key) s.keys) (write_keys s rows)

-- IdempotencyKey.objects.get(user=user, key=key)
unfoldable pub get_key : ℕ → ℕ → M IdempotencyKey
get_key user key s = or_missing (find? (is_key user key) s.keys) s
