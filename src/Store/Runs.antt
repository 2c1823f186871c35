-- ===== src/Store/Runs.antt =====
-- How a chain of actions on the connection of backend/kairos ends: case by case of its first one.
use kairos_booking_engine.Base.{◌≡◌, refl}
use kairos_booking_engine.Errors.{Error, Result, ok, err}
use kairos_booking_engine.Store.{State, M, resume}

pub resume_cases :
    {A B : Type 0} (P : Result B × State → Type 0) (f : A → M B) (r : Result A) (s : State)
    → ((a : A) → r ≡ ok a → P (f a s))
    → ((e : Error) → P (err e, s))
    → P (resume f (r, s))
resume_cases P f (ok a) s returned raised = returned a refl
resume_cases P f (err e) s returned raised = raised e
