-- ===== src/Device/World.antt =====
-- The reference device as a whole: its global state and the sessions and jobs that live behind
-- handles, under any sequence of the calls of examples/device/src/cxx_device.cpp that change them.
-- A handle is an address and 0 is the null pointer. A call through an address where no object
-- lives is undefined behaviour, `none`. New objects get addresses that were never used before.
pub mod Invariant
pub mod Ownership
pub mod Reach
pub mod Kept
pub mod Submitted
pub mod Lasting
use qdmi.Base.{
  ℕ, suc, ◌+◌, Bool, true, false, Option, none, some, List, [], ◌∷◌, ◌==◌, if◌then◌else◌,
}
use qdmi.Base.Bytes.{Bytes}
use qdmi.Constants.{Code, success, error_invalid_argument, offline}
use qdmi.Device.State.{Session, Job, DeviceState, Build, Random, Float, Effect}
use qdmi.Device.Session.{
  device_initialize, device_finalize, new_session, session_init, session_set_parameter,
  create_device_job,
}
use qdmi.Device.Programs.{set_programs}
use qdmi.Device.Jobs.{job_set_parameter, cancel, check, wait}
use qdmi.Device.Submit.{submit}

pub record World : Type 0 where
  pub dev : DeviceState
  pub sessions : ℕ → Option Session
  pub jobs : ℕ → Option Job
  pub next : ℕ

-- What the build and the libraries provide.
pub record Platform : Type 0 where
  pub build : Build
  pub rnd : Random
  pub fl : Float

-- `CXX_QDMI_get_device_state()` before the first call.
abbrev pub start : ℕ → World
start seed = record {
  dev = record { status = offline; gen = seed };
  sessions = λ _. none;
  jobs = λ _. none;
  next = 1;
}

abbrev pub update {ℓ} : {A : Type ℓ} → (ℕ → Option A) → ℕ → Option A → ℕ → Option A
update f p v q = if p == q then v else f q

-- A handle: a null pointer, an object, or nothing that may be used.
pub data Handle (A : Type 0) : Type 0 where
  null : Handle A
  object : A → Handle A
  dangling : Handle A

abbrev found : {A : Type 0} → Option A → Handle A
found none = dangling
found (some a) = object a

abbrev pub resolve : {A : Type 0} → (ℕ → Option A) → ℕ → Handle A
resolve f p = if p == 0 then null else found (f p)

-- The calls that change the state, with their arguments. A pointer to an out-parameter is the flag
-- whether it is not null. Of two calls the first argument is what the memory allocator does.
pub data Call : Type 0 where
  initialize finalize : Call
  alloc_session : Bool → Call
  init_session free_session : ℕ → Call
  set_session_parameter : ℕ → ℕ → ℕ → Option Bytes → Call
  create_job : ℕ → Bool → Call
  free_job : ℕ → Call
  set_job_parameter : ℕ → ℕ → ℕ → Option Bytes → Call
  set_job_programs : (ℕ → Bool) → ℕ → ℕ → ℕ → Option (List ℕ) → Option (List (Option Bytes)) → Call
  submit_job : (ℕ → Bool) → ℕ → Call
  cancel_job : ℕ → Call
  check_job : ℕ → Bool → Call
  wait_job : ℕ → ℕ → Call

abbrev pub put_session : World → ℕ → Option Session → World
put_session w p s = record w { sessions = update w.sessions p s }

abbrev pub put_job : World → ℕ → Option Job → World
put_job w p j = record w { jobs = update w.jobs p j }

-- A call on the session at an address, by a function that may be undefined.
abbrev pub on_session :
    World
    → ℕ
    → Handle Session
    → (Option Session → Option (Code × Option Session))
    → Option (Code × World)
on_session w p dangling f = none
on_session w p null f = elim (f none) [ none ↦ none | some (c, _) ↦ some (c, w) ]
on_session w p (object s) f = elim (f (some s)) [
  | none ↦ none
  | some (c, s') ↦ some (c, put_session w p s')
]

abbrev pub on_job :
    World → ℕ → Handle Job → (Option Job → Option (Code × Option Job)) → Option (Code × World)
on_job w p dangling f = none
on_job w p null f = elim (f none) [ none ↦ none | some (c, _) ↦ some (c, w) ]
on_job w p (object j) f = elim (f (some j)) [
  | none ↦ none
  | some (c, j') ↦ some (c, put_job w p j')
]

-- A call on a job that also changes the device.
abbrev pub on_device :
    World → ℕ → Handle Job → (DeviceState → Option Job → Effect) → Option (Code × World)
on_device w p dangling f = none
on_device w p null f = let e = f w.dev none in some (e.code, record w { dev = e.dev })
on_device w p (object j) f =
    let e = f w.dev (some j) in some (e.code, put_job (record w { dev = e.dev }) p e.job)

-- The new job, if there is one, at a new address.
abbrev pub place_job : World → Effect → World
place_job w e = elim e.job [
  | none ↦ record w { dev = e.dev }
  | some j ↦ record w { dev = e.dev; jobs = update w.jobs w.next (some j); next = suc w.next }
]

abbrev pub create_on : Platform → World → ℕ → Bool → Handle Session → Option (Code × World)
create_on pl w p out dangling = none
create_on pl w p out null =
    let e = create_device_job pl.rnd w.dev p none out in some (e.code, place_job w e)
create_on pl w p out (object s) =
    let e = create_device_job pl.rnd w.dev p (some s) out in some (e.code, place_job w e)

-- submit reads the session through the job.
abbrev pub submit_on : Platform → (ℕ → Bool) → World → ℕ → Handle Job → Option (Code × World)
submit_on pl memory w p (object j) = elim (resolve w.sessions j.session) [
  | dangling ↦ none
  | null ↦ on_device w p (object j) (λ dev job. submit pl.build pl.rnd pl.fl memory dev none job)
  | object s ↦
      on_device w p (object j) (λ dev job. submit pl.build pl.rnd pl.fl memory dev (some s) job)
]
submit_on pl memory w p h =
    on_device w p h (λ dev job. submit pl.build pl.rnd pl.fl memory dev none job)

-- One call. The functions that return nothing report success.
unfoldable pub call : Platform → Call → World → Option (Code × World)
call pl initialize w = let (c, dev) = device_initialize w.dev in some (c, record w { dev = dev })
call pl finalize w = let (c, dev) = device_finalize w.dev in some (c, record w { dev = dev })
call pl (alloc_session false) w = some (error_invalid_argument, w)
call pl (alloc_session true) w = some (
  success,
  record w { sessions = update w.sessions w.next (some new_session); next = suc w.next },
)
call pl (init_session p) w =
    on_session w p (resolve w.sessions p) (λ s. some (session_init w.dev s))
call pl (free_session p) w = on_session w p (resolve w.sessions p) (λ _. some (success, none))
call pl (set_session_parameter p param size value) w =
    on_session w p (resolve w.sessions p) (λ s. session_set_parameter s param size value)
call pl (create_job p out) w = create_on pl w p out (resolve w.sessions p)
call pl (free_job p) w = on_job w p (resolve w.jobs p) (λ _. some (success, none))
call pl (set_job_parameter p param size value) w =
    on_job w p (resolve w.jobs p) (λ j. job_set_parameter j param size value)
call pl (set_job_programs memory p format count sizes programs) w =
    on_job w p (resolve w.jobs p) (λ j. set_programs memory j format count sizes programs)
call pl (submit_job memory p) w = submit_on pl memory w p (resolve w.jobs p)
call pl (cancel_job p) w = on_device w p (resolve w.jobs p) cancel
call pl (check_job p out) w = on_device w p (resolve w.jobs p) (λ dev j. (check pl.rnd dev j out).0)
call pl (wait_job p timeout) w = on_device w p (resolve w.jobs p) (λ dev j. wait dev j timeout)

-- A sequence of calls, as far as all of them are defined.
unfoldable pub calls : Platform → List Call → World → Option World
unfolding call
calls pl [] w = some w
calls pl (c ∷ cs) w = elim (call pl c w) [ none ↦ none | some (_, w') ↦ calls pl cs w' ]
