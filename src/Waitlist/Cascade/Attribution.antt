-- ===== src/Waitlist/Cascade/Attribution.antt =====
-- Whom the audit trail names for the rows of an offer that
-- `create_offer_for_freed_range` (backend/kairos/waitlist/services.py) makes.
use kairos_booking_engine.Base.{
  ℕ, String, ◌<◌, ◌≡◌, refl, Bool, true, false, ◌&&◌, List, [], ◌∷◌, ◌++◌, map, arith, ◌==◌,
  ==_refl, any, select,
}
use kairos_booking_engine.Errors.{ok}
use kairos_booking_engine.Schema.{
  Booking, WaitlistEntry, AuditLog, AuditActorType, AuditedTable, AuditAction,
}
use kairos_booking_engine.Store.{State, Env, atomic, no_session, write_audit_log}
use kairos_booking_engine.Store.Waitlist.{insert_offer, update_entries}
use kairos_booking_engine.Bookings.{
  BookingCreateRequest, new_booking, create_booking, handle_write_database_error,
}
use kairos_booking_engine.Waitlist.Entries.{entry_id}
use kairos_booking_engine.Waitlist.Cascade.{
  Envs, hold_request, make_offer, offer_for_hold, try_candidates,
}
use kairos_booking_engine.Waitlist.Cascade.Fcfs.{IsOfferable, Unrelated-create_booking}

-- The row of the trail that says who inserted an offer, where the actor is not known.
abbrev pub is_unattributed_offer : ℕ → AuditLog → Bool
is_unattributed_offer id r =
    (r.entity_id == id && elim r.entity_type [ AuditedTable.waitlist_offer ↦ true | _ ↦ false ])
    && elim r.actor_type [ AuditActorType.unknown ↦ true | _ ↦ false ]

session_closed :
    (e : Env) (req : BookingCreateRequest) (s : State) (b : Booking)
    → s.in_atomic ≡ false
    → (create_booking e req s).0 ≡ ok b
    → (create_booking e req s).1.session ≡ no_session
unfolding create_booking atomic handle_write_database_error
session_closed e req s b outermost done = ground arith

audit_log_offered :
    (envs : Envs) (resource : ℕ) (request_id : String) (tried : ℕ) (entry : WaitlistEntry)
    (rest : List WaitlistEntry) (s : State)
    → s.in_atomic ≡ false
    → (create_booking (envs 0) (hold_request resource request_id entry) s).0
      ≡ ok (new_booking (envs 0) (hold_request resource request_id entry))
    → entry.time_range.lower < entry.time_range.upper
    → IsOfferable envs resource request_id entry s
    → (try_candidates envs resource request_id tried (entry ∷ rest) s).1.audit_log
      ≡ map
          (λ r. write_audit_log no_session AuditedTable.waitlist_entry AuditAction.update r.id)
          (select (entry_id entry.id) s.entries)
        ++ write_audit_log no_session AuditedTable.waitlist_offer AuditAction.insert (envs 1).uuid
          ∷ (create_booking (envs 0) (hold_request resource request_id entry) s).1.audit_log
unfolding try_candidates offer_for_hold make_offer insert_offer update_entries
audit_log_offered envs resource request_id tried entry rest s outermost held proper fine =
    let closed =
      session_closed (envs 0) (hold_request resource request_id entry) s
        (new_booking (envs 0) (hold_request resource request_id entry)) outermost held in
    let kept =
      (Unrelated-create_booking s.offers s.entries (envs 0)
          (hold_request resource request_id entry)).at
        s (refl, refl) in
    let kept_offers = kept.0 in
    let kept_entries = kept.1 in
    let quiet = fine.quiet in
    let quiet' = fine.quiet' in
    let unclaimed = fine.unclaimed in let slots = fine.slots in ground arith

any_after :
    (id : ℕ) (xs ys : List AuditLog)
    → any (is_unattributed_offer id) ys ≡ true
    → any (is_unattributed_offer id) (xs ++ ys) ≡ true
any_after id [] ys h = h
any_after id (x ∷ xs) ys h = ground (arith, any_after id xs ys)

unattributed :
    (id : ℕ) (ys : List AuditLog)
    → any
        (is_unattributed_offer id)
        (write_audit_log no_session AuditedTable.waitlist_offer AuditAction.insert id ∷ ys)
      ≡ true
unfolding write_audit_log
unattributed id ys = ground (arith, ==_refl id)

-- Outside a transaction, where the hold of the candidate is made and meets no constraint
-- afterwards, the audit trail has a row for its offer whose actor type is `unknown`.
pub try_candidates_unattributed :
    (envs : Envs) (resource : ℕ) (request_id : String) (tried : ℕ) (entry : WaitlistEntry)
    (rest : List WaitlistEntry) (s : State)
    → s.in_atomic ≡ false
    → (create_booking (envs 0) (hold_request resource request_id entry) s).0
      ≡ ok (new_booking (envs 0) (hold_request resource request_id entry))
    → entry.time_range.lower < entry.time_range.upper
    → IsOfferable envs resource request_id entry s
    → any
        (is_unattributed_offer (envs 1).uuid)
        (try_candidates envs resource request_id tried (entry ∷ rest) s).1.audit_log
      ≡ true
try_candidates_unattributed envs resource request_id tried entry rest s outermost held proper fine =
    rw (audit_log_offered envs resource request_id tried entry rest s outermost held proper fine) (
      any_after (envs 1).uuid
        (map (λ r. write_audit_log no_session AuditedTable.waitlist_entry AuditAction.update r.id)
          (select (entry_id entry.id) s.entries))
        (write_audit_log no_session AuditedTable.waitlist_offer AuditAction.insert (envs 1).uuid
          ∷ (create_booking (envs 0) (hold_request resource request_id entry) s).1.audit_log)
        (unattributed (envs 1).uuid
          (create_booking (envs 0) (hold_request resource request_id entry) s).1.audit_log))
