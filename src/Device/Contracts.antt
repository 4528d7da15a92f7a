-- ===== src/Device/Contracts.antt =====
-- The functions of examples/device/src/cxx_device.cpp return the codes that include/qdmi/device.h
-- documents, each for its documented cause.
pub mod Reply
pub mod Properties
pub mod Sites
pub mod Jobs
pub mod Sessions
mod Tests
use qdmi.Base.{
  sym, ◌∙◌, ℕ, ◌<◌, ◌≡◌, ◌≢◌, ◌⊎◌, inl, inr, refl, Bool, true, false, not, ◌||◌, ◌==◌,
  if◌then◌else◌, Option, none, some, List, [], ◌∷◌, arith, Bool-cases, is_empty, leb, length,
}
use qdmi.Base.Bytes.{Bytes}
use qdmi.Constants.{
  Code, success, error_fatal, error_invalid_argument, error_bad_state, error_not_supported,
  error_permission_denied, JobStatus, created, done, DeviceStatus, is_invalid_enum_value,
}
use qdmi.Constants.DeviceSessionParameter
use qdmi.Constants.DeviceJobParameter
use qdmi.Device.State.{
  Session, SessionStatus, allocated, initialized, Job, DeviceState, Random, Effect,
}
use qdmi.Device.Session.{
  device_initialize, device_finalize, is_down, session_init, is_empty_value, read_bytes, set_token,
  set_parameter_in, session_set_parameter, create_device_job,
}
use qdmi.Device.Jobs.{set_num_shots, job_set_parameter, cancel, cancel_in, check, wait, wait_in}
use qdmi.Device.Programs.{is_created, get_program_status}
use qdmi.Interface.{
  Documented, invalid, caused, succeeded, reported, IsEmptyValue, IsUnexpected, OfCode, Listed,
}
use qdmi.Interface

abbrev pub was_initialized : Option Session → Bool
was_initialized none = false
was_initialized (some s) = elim s.status [ allocated ↦ false | initialized ↦ true ]

new_session-Documented :
    (dev : DeviceState) (s : Session)
    → Documented
        (some s ≡ none)
        ⊥
        (error_permission_denied ∷ error_bad_state ∷ error_fatal ∷ [])
        (session_init dev (some s)).0
unfolding session_init
new_session-Documented dev s = elim (Bool-cases (is_down dev.status)) [
  | inl down ↦ rw down (reported _ (λ n. cc) (inr (inr (inl refl))))
  | inr up ↦ elim (Bool-cases (is_empty s.token)) [
    | inl empty ↦ rw (up, empty) (reported _ (λ n. cc) (inl refl))
    | inr given ↦ rw (up, given) (succeeded (λ n. cc))
  ]
]

pub session_init-Documented :
    (dev : DeviceState) (session : Option Session)
    → was_initialized session ≡ false
    → Interface.SessionInit session (was_initialized session) (session_init dev session).0
unfolding session_init
session_init-Documented dev none new = (invalid refl, λ e. cc)
session_init-Documented dev (some s) new =
    (new_session-Documented dev s, λ e. (let no : false ≡ true = sym new ∙ e in cc))

pub no_cause : {A B : Type 0} → ¬ A → ¬ B → ¬ (A ⊎ B)
no_cause h k (inl a) = h a
no_cause h k (inr b) = k b

create_in-Documented :
    (rnd : Random) (dev : DeviceState) (address : ℕ) (s : Session) (status : SessionStatus)
    → s.status ≡ status
    → Interface.CreateDeviceJob (some s) true (create_device_job rnd dev address (some s) true).code
unfolding create_device_job
create_in-Documented rnd dev address s allocated e =
    rw (create_device_job, e) (reported _ (no_cause (λ n. cc) (λ n. cc)) (inl refl))
create_in-Documented rnd dev address s initialized e =
    rw (create_device_job, e) (succeeded (no_cause (λ n. cc) (λ n. cc)))

pub create_device_job-Documented :
    (rnd : Random) (dev : DeviceState) (address : ℕ) (session : Option Session) (out : Bool)
    → Interface.CreateDeviceJob session out (create_device_job rnd dev address session out).code
unfolding create_device_job
create_device_job-Documented rnd dev address none out = invalid (inl refl)
create_device_job-Documented rnd dev address (some s) false = invalid (inr refl)
create_device_job-Documented rnd dev address (some s) true =
    create_in-Documented rnd dev address s s.status refl

not_empty :
    (size : ℕ) (value : Option Bytes)
    → is_empty_value size value ≡ false
    → ¬ IsEmptyValue size value
not_empty size none h k = k
not_empty size (some bytes) h k = ground arith

empty :
    (size : ℕ) (value : Option Bytes) → is_empty_value size value ≡ true → IsEmptyValue size value
empty size none h = cc
empty size (some bytes) h = ground arith

-- Invalid arguments of a function that sets a parameter, as its first test sees them.
abbrev pub Refused : {A : Type 0} → Option A → ℕ → ℕ → ℕ → Option Bytes → Type 0
Refused object param last size value =
    (object ≡ none) ⊎ ((is_invalid_enum_value param last ≡ true) ⊎ IsEmptyValue size value)

pub Refused-none :
    {A : Type 0} (a : A) (param last size : ℕ) (value : Option Bytes)
    → (is_empty_value size value || is_invalid_enum_value param last) ≡ false
    → ¬ Refused (some a) param last size value
Refused-none a param last size value h (inl n) = cc
Refused-none a param last size value h (inr (inl bad)) = ground (arith, bad)
Refused-none a param last size value h (inr (inr k)) = not_empty size value (ground arith) k

pub Refused-some :
    {A : Type 0} (a : A) (param last size : ℕ) (value : Option Bytes)
    → (is_empty_value size value || is_invalid_enum_value param last) ≡ true
    → Refused (some a) param last size value
Refused-some a param last size value h = elim (Bool-cases (is_empty_value size value)) [
  | inl none_there ↦ inr (inr (empty size value none_there))
  | inr there ↦ inr (inl (ground arith))
]

module _ (s : Session) (param size : ℕ) (value : Option Bytes)
    (fine : ¬ Refused (some s) param DeviceSessionParameter.max_value size value) where
  abbrev IsSetParameter : Option (Code × Option Session) → Type 0
  IsSetParameter = OfCode (Interface.SessionSetParameter (some s) param size value)

  read-Documented :
      (o : Option Bytes)
      → IsSetParameter
          (elim o [ none ↦ none | some t ↦ some (success, some (record s { token = t })) ])
  read-Documented none = tt
  read-Documented (some t) = succeeded fine

  token-Documented : (v : Option Bytes) → IsSetParameter (set_token s size v)
  token-Documented none = succeeded fine
  token-Documented (some bytes) = read-Documented (read_bytes size bytes)

  in_state-Documented :
      (status : SessionStatus) → IsSetParameter (set_parameter_in status s param size value)
  in_state-Documented initialized = reported _ fine (inr (inl refl))
  in_state-Documented allocated = elim (Bool-cases (param == DeviceSessionParameter.token)) [
    | inl token ↦ rw token (token-Documented value)
    | inr other ↦ rw other (reported _ fine (inl refl))
  ]

pub session_set_parameter-Documented :
    (session : Option Session) (param size : ℕ) (value : Option Bytes)
    → OfCode
        (Interface.SessionSetParameter session param size value)
        (session_set_parameter session param size value)
unfolding session_set_parameter
session_set_parameter-Documented none param size value = invalid (inl refl)
session_set_parameter-Documented (some s) param size value =
    elim (Bool-cases
      (is_empty_value size value || is_invalid_enum_value param DeviceSessionParameter.max_value)) [
        | inl bad ↦
            rw (session_set_parameter, bad) (invalid (Refused-some s param _ size value bad))
        | inr fine ↦
            rw (session_set_parameter, fine)
              (in_state-Documented s param size value (Refused-none s param _ size value fine)
                s.status)
      ]
