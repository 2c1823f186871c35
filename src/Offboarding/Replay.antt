-- ===== src/Offboarding/Replay.antt =====
-- A repeated `deactivate_user` of backend/kairos/identity/services.py.
use kairos_booking_engine.Base.{
  ℕ, ◌≡◌, true, false, none, some, arith, ◌==◌, any, find?, update_where_none, count_where_none,
}
use kairos_booking_engine.Errors.{ok}
use kairos_booking_engine.Schema.{AppUser}
use kairos_booking_engine.Store.{State, atomic}
use kairos_booking_engine.Waitlist.Cascade.{Envs}
use kairos_booking_engine.Authorization.{Directory}
use kairos_booking_engine.Offboarding.Rows.{
  DeactivateUserRequest, deactivate_row, get_user, flip_status, is_active_row, deactivated_row,
  zeroed,
}
use kairos_booking_engine.Offboarding.Cascade.{deactivate_user, after_flip}

-- Inside a transaction, with no server failure, the deactivation of a user who is not active
-- answers the stored status with zero counts and changes no table, queues nothing and sends
-- nothing.
pub deactivate_user_replay :
    (d : Directory) (envs : ℕ → Envs) (req : DeactivateUserRequest) (s : State) (u : AppUser)
    → s.in_atomic ≡ true
    → (envs 0 0).fault ≡ none
    → find? (λ x. x.id == req.target) s.users ≡ some u
    → any (is_active_row req.target) s.users ≡ false
    → ((deactivate_user d envs req s).0 ≡ ok (zeroed u))
      × ((deactivate_user d envs req s).1.tables ≡ s.tables)
      × ((deactivate_user d envs req s).1.on_commit_queue ≡ s.on_commit_queue)
      × ((deactivate_user d envs req s).1.sent ≡ s.sent)
unfolding deactivate_user flip_status after_flip deactivate_row get_user atomic
deactivate_user_replay d envs req s u nested quiet found inactive =
    let same =
      update_where_none (is_active_row req.target) (deactivated_row (envs 0 0).now) s.users
        inactive in
    let none_matched = count_where_none (is_active_row req.target) s.users inactive in
    (ground arith, ground arith, ground arith, ground arith)
