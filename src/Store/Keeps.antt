-- ===== src/Store/Keeps.antt =====
-- Invariants of the tables under actions, one rule for each way to build an action.
use kairos_booking_engine.Base.{ℕ, Bool, true, false, Option, arith, if◌then◌else◌, String}
use kairos_booking_engine.Errors.{Sqlstate, Error, Result, ok, err}
use kairos_booking_engine.Schema.{AuditActorType}
use kairos_booking_engine.Store.{
  Tables, State, Env, M, Message, resume, ◌>>=◌, pure, raise, gets, when, serve, recover,
  catch_database_error, atomic, on_commit, send, apply_write_path_session_settings,
}

-- `m` keeps `P`, whether it returns or raises.
pub record Keeps {A : Type 0} (P : Tables → Type 0) (m : M A) : Type 0 where
  pub at : (s : State) → P s.tables → P (m s).1.tables

module _ {P : Tables → Type 0} where
  pub Keeps-pure : {A : Type 0} (a : A) → Keeps P (pure a)
  Keeps-pure a = record { at = λ s h. h }

  pub Keeps-raise : {A : Type 0} (e : Error) → Keeps P (raise {A = A} e)
  Keeps-raise e = record { at = λ s h. h }

  pub Keeps-gets : {A : Type 0} (f : Tables → A) → Keeps P (gets f)
  Keeps-gets f = record { at = λ s h. h }

  pub Keeps-serve : (e : Env) → Keeps P (serve e)
  Keeps-serve e = record { at = λ s h. ground arith }

  pub Keeps-settings :
      (actor : Option ℕ) (kind : AuditActorType) (request_id : String) (reason : Option String)
      → Keeps P (apply_write_path_session_settings actor kind request_id reason)
  Keeps-settings actor kind request_id reason = record { at = λ s h. h }

  pub Keeps-on_commit : (m : Message) → Keeps P (on_commit m)
  unfolding on_commit
  Keeps-on_commit m = record { at = λ s h. ground arith }

  pub Keeps-send : (m : Message) → Keeps P (send m)
  Keeps-send m = record { at = λ s h. h }

  pub Keeps-when : (b : Bool) (m : M (Unit {0})) → Keeps P m → Keeps P (when b m)
  Keeps-when true m k = k
  Keeps-when false m k = record { at = λ s h. h }

  pub Keeps-if :
      {A : Type 0} (b : Bool) (m n : M A) → Keeps P m → Keeps P n → Keeps P (if b then m else n)
  Keeps-if true m n km kn = km
  Keeps-if false m n km kn = kn

  resume_keeps :
      {A B : Type 0} (f : A → M B) (r : Result A) (s : State)
      → ((a : A) → Keeps P (f a))
      → P s.tables
      → P (resume f (r, s)).1.tables
  resume_keeps f (ok a) s kf h = (kf a).at s h
  resume_keeps f (err e) s kf h = h

  pub Keeps-bind :
      {A B : Type 0} (m : M A) (f : A → M B)
      → Keeps P m
      → ((a : A) → Keeps P (f a))
      → Keeps P (m >>= f)
  Keeps-bind m f km kf = record { at = λ s h. resume_keeps f (m s).0 (m s).1 kf (km.at s h) }

  recover_keeps :
      {A : Type 0} (handler : Option Sqlstate → M A) (r : Result A) (s : State)
      → ((st : Option Sqlstate) → Keeps P (handler st))
      → P s.tables
      → P (recover handler (r, s)).1.tables
  recover_keeps handler (ok a) s k h = h
  recover_keeps handler (err (Error.database_error st)) s k h = (k st).at s h
  recover_keeps handler (err _) s k h = h

  pub Keeps-catch :
      {A : Type 0} (m : M A) (handler : Option Sqlstate → M A)
      → Keeps P m
      → ((st : Option Sqlstate) → Keeps P (handler st))
      → Keeps P (catch_database_error m handler)
  Keeps-catch m handler km k = record {
    at = λ s h. recover_keeps handler (m s).0 (m s).1 k (km.at s h);
  }

  -- A block that fails leaves the tables as they were; one that ends leaves them as its body did.
  pub Keeps-atomic : {A : Type 0} (m : M A) → Keeps P m → Keeps P (atomic m)
  unfolding atomic
  Keeps-atomic m km = record {
    at = λ s h. ground (arith, km.at s h, km.at (record s { in_atomic = true }) h);
  }

pub ruleset keeps_rules = (
  Keeps-pure, Keeps-raise, Keeps-gets, Keeps-serve, Keeps-settings, Keeps-on_commit, Keeps-send,
  Keeps-when, Keeps-if, Keeps-bind, Keeps-catch, Keeps-atomic,
)
