-- ===== src/Monitoring/Edges.antt =====
-- Alerts are edge-triggered: what `fire_or_resolve` of backend/kairos/core/alerting.py promises.
use kairos_booking_engine.Base.{
  ℕ, ◌≡◌, refl, subst, String, Bool, true, false, not, ◌&&◌, none, some, List, [], ◌∷◌, ◌++◌, arith,
  ◌==◌, ==_refl, if◌then◌else◌, any, find?, any_of_find?, update_where, update_where_none,
  distinct_by, distinct_by-update, Bool-cases, Option-cases, inl, inr,
}
use kairos_booking_engine.Schema.{AlertEvent, AlertKey}
use kairos_booking_engine.Store.{State, Env, Message}
use kairos_booking_engine.Monitoring.Alerts.{
  is_open, open_clash, key_code, resolved_now, insert_alert, update_alerts, fire_case,
  fire_or_resolve,
}

-- The latch of a key: an alert of it is open.
abbrev pub is_firing : AlertKey → State → Bool
is_firing key s = any (is_open key) s.alerts

abbrev same_alert : AlertEvent → AlertEvent → Bool
same_alert a b = b.id == a.id

-- The table meets its constraints: distinct identifiers, one open alert for a key.
pub record IsLatched (rows : List AlertEvent) : Type 0 where
  pub ids : distinct_by same_alert rows ≡ true
  pub single : distinct_by open_clash rows ≡ true

none_open :
    (key : AlertKey) (rows : List AlertEvent)
    → find? (is_open key) rows ≡ none
    → any (is_open key) rows ≡ false
none_open key [] h = refl
none_open key (a ∷ rows) h = ground (arith, none_open key rows)

untouched_by_find? :
    (p q : AlertEvent → Bool) (rows : List AlertEvent) (a : AlertEvent)
    → find? p rows ≡ some a
    → any q rows ≡ false
    → q a ≡ false
untouched_by_find? p q [] a h n = cc
untouched_by_find? p q (x ∷ rows) a h n = ground (arith, untouched_by_find? p q rows a)

open_apart :
    (key : AlertKey) (x : AlertEvent) (rows : List AlertEvent)
    → is_open key x ≡ true
    → any (open_clash x) rows ≡ false
    → any (is_open key) rows ≡ false
open_apart key x [] h n = refl
open_apart key x (y ∷ rows) h n = ground (arith, open_apart key x rows h)

resolve_head :
    (key other : AlertKey) (now : ℕ) (x : AlertEvent) (rows : List AlertEvent)
    → is_open key x ≡ true
    → IsLatched (x ∷ rows)
    → any (is_open other) (update_where (λ y. y.id == x.id) (resolved_now now) (x ∷ rows))
      ≡ (if key_code key == key_code other then false else any (is_open other) (x ∷ rows))
resolve_head key other now x rows hit l =
    let alone : any (same_alert x) rows ≡ false = ground (arith, l.ids) in
    let apart : any (open_clash x) rows ≡ false = ground (arith, l.single) in
    ground (
      arith,
      hit,
      ==_refl x.id,
      update_where_none (λ y. y.id == x.id) (resolved_now now) rows alone,
      open_apart other x rows,
      apart,
    )

-- Resolving the open alert of a key closes that key and no other.
resolve-open :
    (key other : AlertKey) (now : ℕ) (a : AlertEvent) (rows : List AlertEvent)
    → find? (is_open key) rows ≡ some a
    → IsLatched rows
    → any (is_open other) (update_where (λ x. x.id == a.id) (resolved_now now) rows)
      ≡ (if key_code key == key_code other then false else any (is_open other) rows)
resolve-open key other now a [] found l = absurd (cc found)
resolve-open key other now a (x ∷ rows) found l = elim (Bool-cases (is_open key x)) [
  | inl hit ↦
      let same : some x ≡ some a =
        subst (λ b. (if b then some x else find? (is_open key) rows) ≡ some a) hit found in
      let the_same : x ≡ a = cc same in
      subst
        (λ (c : AlertEvent).
          any (is_open other) (update_where (λ y. y.id == c.id) (resolved_now now) (x ∷ rows))
          ≡ (if key_code key == key_code other then false else any (is_open other) (x ∷ rows)))
        the_same (resolve_head key other now x rows hit l)
  | inr miss ↦
      let found_later : find? (is_open key) rows ≡ some a =
        subst (λ b. (if b then some x else find? (is_open key) rows) ≡ some a) miss found in
      let latched : IsLatched rows = record {
        ids = ground (arith, l.ids);
        single = ground (arith, l.single);
      } in
      let later = resolve-open key other now a rows found_later latched in
      let apart : any (same_alert x) rows ≡ false = ground (arith, l.ids) in
      let different = untouched_by_find? (is_open key) (same_alert x) rows a found_later apart in
      ground (arith, miss, different, later)
]

resolve-IsLatched :
    (id now : ℕ) (rows : List AlertEvent)
    → IsLatched rows
    → IsLatched (update_where (λ x. x.id == id) (resolved_now now) rows)
resolve-IsLatched id now rows l = record {
  ids =
      distinct_by-update same_alert (λ x. x.id == id) (resolved_now now) rows (λ a b. ground arith)
        l.ids;
  single =
      distinct_by-update open_clash (λ x. x.id == id) (resolved_now now) rows (λ a b. ground arith)
        l.single;
}

module _ (e : Env) (key other : AlertKey) (active : Bool) (message : String) (s : State) where
  -- With no server failure and the broker reached, on alerts that meet their constraints and
  -- with a new identifier, an evaluation leaves the alert of its key open exactly if the
  -- condition is active and that of any other key as it was, keeps the constraints, and hands
  -- an email to the broker exactly where the condition is active and no alert of the key was
  -- open.
  pub fire_or_resolve_latch :
      IsLatched s.alerts
      → e.fault ≡ none
      → any (λ a. a.id == e.uuid) s.alerts ≡ false
      → let t = (fire_or_resolve e true key active message s).1 in
        (is_firing other t ≡ (if key_code key == key_code other then active else is_firing other s))
        × (t.sent ≡ (
            if active && not (is_firing key s)
            then s.sent ++ Message.send_alert_email e.uuid ∷ []
            else s.sent))
        × IsLatched t.alerts
  unfolding fire_or_resolve fire_case insert_alert update_alerts
  fire_or_resolve_latch latched quiet fresh = elim (Option-cases (find? (is_open key) s.alerts)) [
    | inl closed ↦
        let shut = none_open key s.alerts closed in
        (ground arith, ground arith, record { ids = ground arith; single = ground arith })
    | inr (a, found) ↦
        let firing = any_of_find? (is_open key) s.alerts a found in
        let resolved = resolve-open key other e.now a s.alerts found latched in
        let after = resolve-IsLatched a.id e.now s.alerts latched in
        (
          ground arith,
          ground arith,
          record { ids = ground (arith, after.ids); single = ground (arith, after.single) },
        )
  ]
