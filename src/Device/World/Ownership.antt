-- ===== src/Device/World/Ownership.antt =====
-- Every function on a job leaves it in the same session, and sound.
use qdmi.Base.{ℕ, ◌≡◌, refl, Bool, true, false, Option, none, some, List, arith}
use qdmi.Base.Bytes.{Bytes}
use qdmi.Constants.{Code}
use qdmi.Device.State.{Session, initialized, Job, DeviceState, Build, Random, Float}
use qdmi.Device.Programs.{set_programs}
use qdmi.Device.Jobs.{job_set_parameter, cancel, check, wait}
use qdmi.Device.Submit.{submit, Outcome, finish_submit}
use qdmi.Device.Invariant.{IsSound, IsSoundOption, LeavesSound}
use qdmi.Device.Invariant.Operations.{
  set_programs-IsSound, job_set_parameter-IsSound, cancel-IsSound, check-IsSound, wait-IsSound,
}
use qdmi.Device.Invariant.Submit.{submit-IsSound}
use qdmi.Device.World.Invariant.{IsOf}

-- The session of a job that may be there.
abbrev HasSession : ℕ → Option Job → Type 0
HasSession a none = Unit
HasSession a (some j) = j.session ≡ a

IsOf-intro : (a : ℕ) (j : Option Job) → HasSession a j → IsSoundOption j → IsOf a j
IsOf-intro a none h k = tt
IsOf-intro a (some j) h k = (h, k)

-- The same for a function that may be undefined.
abbrev pub LeavesOf : ℕ → Option (Code × Option Job) → Type 0
LeavesOf a none = Unit
LeavesOf a (some (c, j)) = IsOf a j

abbrev LeavesSession : ℕ → Option (Code × Option Job) → Type 0
LeavesSession a none = Unit
LeavesSession a (some (c, j)) = HasSession a j

LeavesOf-intro :
    (a : ℕ) (r : Option (Code × Option Job)) → LeavesSession a r → LeavesSound r → LeavesOf a r
LeavesOf-intro a none h k = tt
LeavesOf-intro a (some (c, j)) h k = IsOf-intro a j h k

set_programs-session :
    (memory : ℕ → Bool) (job : Job) (format count : ℕ) (sizes : Option (List ℕ))
    (programs : Option (List (Option Bytes)))
    → LeavesSession job.session (set_programs memory (some job) format count sizes programs)
unfolding set_programs
set_programs-session memory job format count sizes programs = ground arith

pub set_programs-LeavesOf :
    (memory : ℕ → Bool) (job : Job) (format count : ℕ) (sizes : Option (List ℕ))
    (programs : Option (List (Option Bytes)))
    → IsSound job
    → LeavesOf job.session (set_programs memory (some job) format count sizes programs)
set_programs-LeavesOf memory job format count sizes programs h =
    LeavesOf-intro job.session _ (set_programs-session memory job format count sizes programs)
      (set_programs-IsSound memory job format count sizes programs h)

job_set_parameter-session :
    (job : Job) (param size : ℕ) (value : Option Bytes)
    → LeavesSession job.session (job_set_parameter (some job) param size value)
unfolding job_set_parameter
job_set_parameter-session job param size value = ground arith

pub job_set_parameter-LeavesOf :
    (job : Job) (param size : ℕ) (value : Option Bytes)
    → IsSound job
    → LeavesOf job.session (job_set_parameter (some job) param size value)
job_set_parameter-LeavesOf job param size value h =
    LeavesOf-intro job.session _ (job_set_parameter-session job param size value)
      (job_set_parameter-IsSound job param size value h)

cancel-session :
    (dev : DeviceState) (job : Job) → HasSession job.session (cancel dev (some job)).job
unfolding cancel
cancel-session dev job = ground arith

pub cancel-IsOf :
    (dev : DeviceState) (job : Job) → IsSound job → IsOf job.session (cancel dev (some job)).job
cancel-IsOf dev job h = IsOf-intro job.session _ (cancel-session dev job) (cancel-IsSound dev job h)

wait-session :
    (dev : DeviceState) (job : Job) (timeout : ℕ)
    → HasSession job.session (wait dev (some job) timeout).job
unfolding wait
wait-session dev job timeout = ground arith

pub wait-IsOf :
    (dev : DeviceState) (job : Job) (timeout : ℕ)
    → IsSound job
    → IsOf job.session (wait dev (some job) timeout).job
wait-IsOf dev job timeout h =
    IsOf-intro job.session _ (wait-session dev job timeout) (wait-IsSound dev job timeout h)

check-session :
    (rnd : Random) (dev : DeviceState) (job : Job) (out : Bool)
    → HasSession job.session (check rnd dev (some job) out).0.job
unfolding check
check-session rnd dev job false = refl
check-session rnd dev job true = ground arith

pub check-IsOf :
    (rnd : Random) (dev : DeviceState) (job : Job) (out : Bool)
    → IsSound job
    → IsOf job.session (check rnd dev (some job) out).0.job
check-IsOf rnd dev job out h =
    IsOf-intro job.session _ (check-session rnd dev job out) (check-IsSound rnd dev job out h)

finish_submit-session :
    (dev : DeviceState) (job : Job) (o : Outcome)
    → HasSession job.session (finish_submit dev job o).job
finish_submit-session dev job o = ground arith

submit-session :
    (b : Build) (rnd : Random) (fl : Float) (memory : ℕ → Bool) (dev : DeviceState)
    (s : Option Session) (job : Job)
    → HasSession job.session (submit b rnd fl memory dev s (some job)).job
unfolding submit
submit-session b rnd fl memory dev s job = ground arith

pub submit-IsOf :
    (b : Build) (rnd : Random) (fl : Float) (memory : ℕ → Bool) (dev : DeviceState) (s : Session)
    (job : Job)
    → s.status ≡ initialized
    → IsSound job
    → IsOf job.session (submit b rnd fl memory dev (some s) (some job)).job
submit-IsOf b rnd fl memory dev s job i h =
    IsOf-intro job.session _ (submit-session b rnd fl memory dev (some s) job)
      (submit-IsSound b rnd fl memory dev s job i h)
