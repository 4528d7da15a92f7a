-- ===== src/Device/Jobs/Laws.antt =====
-- How a job's status moves: wait, check, cancel and the guards of the functions that configure a
-- job, in examples/device/src/cxx_device.cpp; and the text of a job's identifier.
use qdmi.Base.{
  ℕ, zero, suc, ◌+◌, ◌-◌, ◌*◌, ◌/◌, ◌%◌, ◌^◌, ◌<◌, ◌≡◌, ◌≢◌, refl, ap, ◌∙◌, inl, inr, Option, none,
  some, List, [], ◌∷◌, Bool, true, false, not, ◌==◌, ◌||◌, if◌then◌else◌, arith, Bool-cases,
}
use qdmi.Base.Bytes.{Bytes, encode, decode-encode, length-encode}
use qdmi.Constants.{
  Code, success, error_bad_state, error_invalid_argument, JobStatus, created, done, canceled,
  failed, idle, is_invalid_enum_value,
}
use qdmi.Constants.DeviceJobParameter
use qdmi.Constants.DeviceJobProperty
use qdmi.Output.{Request, is_empty_buffer, add_single_value_property, add_string_property}
use qdmi.Output.Serves.{IsContract, Serves, copy-Serves, empty_buffer-Serves}
use qdmi.Device.State.{Job, DeviceState, Random, Effect, Build, Float, Session}
use qdmi.Device.Programs.{is_created, set_programs, valid_format}
use qdmi.Device.Submit.{submit}
use qdmi.Device.Session.{is_empty_value}
use qdmi.Device.Jobs.{
  job_properties, keep, digits, to_string, job_set_parameter, job_query_property, check, wait,
}

-- The states that a job does not leave by itself.
pub data IsSettled : JobStatus → Type 0 where
  settled_done : IsSettled done
  settled_canceled : IsSettled canceled
  settled_failed : IsSettled failed

-- What is left by a wait: nothing more to wait for.
pub record Waited (rnd : Random) (e : Effect) (timeout : ℕ) (j : Job) : Type 0 where
  pub the_job : e.job ≡ some j
  pub succeeds : e.code ≡ success
  pub settled : IsSettled j.status
  pub seen : check rnd e.dev (some j) true ≡ (keep success e.dev (some j), some j.status)
  pub again : wait e.dev (some j) timeout ≡ keep success e.dev (some j)

settled-Waited :
    (rnd : Random) (dev : DeviceState) (later : ℕ) (e : Effect) (j : Job) (s : JobStatus)
    → e ≡ keep success dev (some j)
    → j.status ≡ s
    → IsSettled s
    → Waited rnd e later j
unfolding wait check
settled-Waited rnd dev later e j s h i settled_done = record {
  the_job = rw h;
  succeeds = rw h;
  settled = rw i settled_done;
  seen = rw (h, i);
  again = rw (h, i);
}
settled-Waited rnd dev later e j s h i settled_canceled = record {
  the_job = rw h;
  succeeds = rw h;
  settled = rw i settled_canceled;
  seen = rw (h, i);
  again = rw (h, i);
}
settled-Waited rnd dev later e j s h i settled_failed = record {
  the_job = rw h;
  succeeds = rw h;
  settled = rw i settled_failed;
  seen = rw (h, i);
  again = rw (h, i);
}

wait_in-Waited :
    (rnd : Random) (dev : DeviceState) (job : Job) (timeout later : ℕ) (s : JobStatus)
    → job.status ≡ s
    → (j : Job) × Waited rnd (wait dev (some job) timeout) later j
unfolding wait
wait_in-Waited rnd dev job timeout later done e =
    (job, settled-Waited rnd dev later _ job done (rw e) e settled_done)
wait_in-Waited rnd dev job timeout later canceled e =
    (job, settled-Waited rnd dev later _ job canceled (rw e) e settled_canceled)
wait_in-Waited rnd dev job timeout later failed e =
    (job, settled-Waited rnd dev later _ job failed (rw e) e settled_failed)
wait_in-Waited rnd dev job timeout later _ e = (
  record job { status = done },
  settled-Waited rnd (record dev { status = idle }) later _ (record job { status = done }) done
      (rw e) refl settled_done,
)

-- A wait on any job succeeds and leaves it settled; a check then reports that state and changes
-- nothing, and a second wait changes nothing either.
pub wait_settles :
    (rnd : Random) (dev : DeviceState) (job : Job) (timeout later : ℕ)
    → (j : Job) × Waited rnd (wait dev (some job) timeout) later j
wait_settles rnd dev job timeout later = wait_in-Waited rnd dev job timeout later job.status refl

-- What a refused call to a job leaves: an error, and the job as it was.
abbrev pub JobRefuses : Job → Option (Code × Option Job) → Type 0
JobRefuses job none = ⊥
JobRefuses job (some (c, j)) = (c ≢ success) × (j ≡ some job)

one_of_two-JobRefuses :
    (t : Bool) (job : Job)
    → JobRefuses job
        (if t then some (error_invalid_argument, some job) else some (error_bad_state, some job))
one_of_two-JobRefuses true job = (λ e. cc, refl)
one_of_two-JobRefuses false job = (λ e. cc, refl)

-- A job that is not in the state CREATED cannot be configured or submitted: set_parameter,
-- set_programs and submit return an error, whatever their arguments, and leave the job and the
-- device as they are.
pub not_created-JobRefuses :
    (b : Build) (rnd : Random) (fl : Float) (memory : ℕ → Bool) (dev : DeviceState)
    (session : Option Session) (job : Job) (n size count : ℕ) (value : Option Bytes)
    (sizes : Option (List ℕ)) (programs : Option (List (Option Bytes)))
    → is_created job.status ≡ false
    → JobRefuses job (job_set_parameter (some job) n size value)
      × JobRefuses job (set_programs memory (some job) n count sizes programs)
      × (submit b rnd fl memory dev session (some job) ≡ keep error_invalid_argument dev (some job))
unfolding job_set_parameter set_programs submit
not_created-JobRefuses b rnd fl memory dev session job n size count value sizes programs h = (
  rw h (
      one_of_two-JobRefuses
        (is_empty_value size value || is_invalid_enum_value n DeviceJobParameter.max_value) job),
  rw h (one_of_two-JobRefuses (count == 0 || not (valid_format n)) job),
  rw h,
)

-- The number that a text of decimal digits continues.
abbrev pub decimal : Bytes → ℕ → ℕ
decimal [] before = before
decimal (d ∷ ds) before = decimal ds (before * 10 + (d - 48))

decimal-digits :
    (fuel n : ℕ) (later : Bytes) → n < fuel → decimal (digits fuel n later) 0 ≡ decimal later n
unfolding digits
decimal-digits zero n later h = absurd (omega arith)
decimal-digits (suc fuel) n later h = elim (Bool-cases (n / 10 == 0)) [
  | inl last ↦ rw last (ap (decimal later) (ground arith))
  | inr more ↦ rw more (
      decimal-digits fuel (n / 10) ((n % 10 + 48) ∷ later) (ground arith)
      ∙ ap (decimal later) (omega arith))
]

-- Reading the digits of a decimal number gives the number.
pub decimal-to_string : (n : ℕ) → decimal (to_string n) 0 ≡ n
unfolding to_string
decimal-to_string n = decimal-digits (suc n) n [] (omega arith)

num_shots-Serves :
    (job : Job) (r : Request)
    → IsContract r
    → Serves (encode 8 job.num_shots) r (job_query_property (some job) DeviceJobProperty.shotsnum r)
unfolding job_query_property job_properties add_single_value_property add_string_property
    is_invalid_enum_value
num_shots-Serves job r c = elim (Bool-cases (is_empty_buffer r)) [
  | inl empty ↦ rw empty (
      empty_buffer-Serves (encode 8 job.num_shots) r (omega (arith, length-encode 8 job.num_shots))
        empty)
  | inr usable ↦ rw usable (copy-Serves (encode 8 job.num_shots) _ r refl c)
]

-- The number of shots that set_parameter stores in a job that is not submitted yet is what
-- query_property serves.
pub num_shots_roundtrip :
    (job : Job) (n : ℕ) (r : Request)
    → job.status ≡ created
    → n < 2 ^ 64
    → IsContract r
    → (j : Job) × (job_set_parameter (some job) DeviceJobParameter.shotsnum 8 (some (encode 8 n))
        ≡ some (success, some j))
      × Serves (encode 8 n) r (job_query_property (some j) DeviceJobProperty.shotsnum r)
unfolding job_set_parameter is_invalid_enum_value encode
num_shots_roundtrip job n r h small c = (
  record job { num_shots = n },
  rw (h, decode-encode 8 n (omega (arith, small))),
  num_shots-Serves (record job { num_shots = n }) r c,
)
