-- ===== src/Device/World/Kept.antt =====
-- What the functions of examples/device/src/cxx_device.cpp leave of a job that was submitted: all but its
-- state.
use mathlib.Core.Path.{subst}
use qdmi.Base.{ℕ, ◌≡◌, ◌≢◌, refl, sym, Bool, true, false, Option, none, some, List}
use qdmi.Base.Bytes.{Bytes}
use qdmi.Constants.{Code, JobStatus, created, submitted, queued, running, done, canceled, failed}
use qdmi.Device.State.{Session, Job, DeviceState, Build, Random, Float}
use qdmi.Device.Programs.{set_programs, is_created}
use qdmi.Device.Jobs.{job_set_parameter, cancel_in, cancel, poll, check_in, check, wait_in, wait}
use qdmi.Device.Jobs.Laws.{JobRefuses, not_created-JobRefuses}
use qdmi.Device.Submit.{submit}

-- The job is there as it was, but for its state: it is not CREATED again, and if it was DONE it is
-- DONE.
abbrev pub Kept : Job → Option Job → Type 0
Kept j v =
    (s : JobStatus) × (v ≡ some (record j { status = s }))
    × (s ≢ created)
    × (j.status ≡ done → s ≡ done)

pub same-Kept : (j : Job) → j.status ≢ created → Kept j (some j)
same-Kept j n = (j.status, refl, n, λ e. e)

-- What a function on a job leaves, if anything.
abbrev pub LeavesKept : Job → Option (Code × Option Job) → Type 0
LeavesKept j none = Unit
LeavesKept j (some (c, v)) = Kept j v

JobRefuses-LeavesKept :
    (j : Job) (r : Option (Code × Option Job))
    → j.status ≢ created
    → JobRefuses j r
    → LeavesKept j r
JobRefuses-LeavesKept j none n h = tt
JobRefuses-LeavesKept j (some (c, v)) n h = subst (Kept j) (sym h.1) (same-Kept j n)

not_fresh : (s : JobStatus) → s ≢ created → is_created s ≡ false
not_fresh created n = absurd (n refl)
not_fresh _ n = refl

cancel_in-Kept :
    (dev : DeviceState) (j : Job) (s : JobStatus)
    → j.status ≡ s
    → s ≢ created
    → Kept j (cancel_in s dev j).job
cancel_in-Kept dev j created e n = absurd (n refl)
cancel_in-Kept dev j submitted e n = (canceled, refl, (λ d. cc), λ d. cc)
cancel_in-Kept dev j queued e n = (canceled, refl, (λ d. cc), λ d. cc)
cancel_in-Kept dev j running e n = (canceled, refl, (λ d. cc), λ d. cc)
cancel_in-Kept dev j done e n = same-Kept j (λ d. cc)
cancel_in-Kept dev j canceled e n = (canceled, refl, (λ d. cc), λ d. cc)
cancel_in-Kept dev j failed e n = (canceled, refl, (λ d. cc), λ d. cc)

pub cancel-Kept :
    (dev : DeviceState) (j : Job) → j.status ≢ created → Kept j (cancel dev (some j)).job
unfolding cancel
cancel-Kept dev j n = cancel_in-Kept dev j j.status refl n

wait_in-Kept :
    (dev : DeviceState) (j : Job) (s : JobStatus)
    → j.status ≡ s
    → s ≢ created
    → Kept j (wait_in s dev j).job
wait_in-Kept dev j done e n = same-Kept j (λ d. cc)
wait_in-Kept dev j canceled e n = same-Kept j (λ d. cc)
wait_in-Kept dev j failed e n = same-Kept j (λ d. cc)
wait_in-Kept dev j _ e n = (done, refl, (λ d. cc), λ d. refl)

pub wait-Kept :
    (dev : DeviceState) (j : Job) (t : ℕ) → j.status ≢ created → Kept j (wait dev (some j) t).job
unfolding wait
wait-Kept dev j t n = wait_in-Kept dev j j.status refl n

poll-Kept :
    (draw : Bool × ℕ) (dev : DeviceState) (j : Job)
    → j.status ≢ created
    → Kept j (some (poll draw dev j).1)
poll-Kept (true, gen) dev j n = (done, refl, (λ d. cc), λ d. refl)
poll-Kept (false, gen) dev j n = same-Kept j n

check_in-Kept :
    (rnd : Random) (dev : DeviceState) (j : Job) (s : JobStatus)
    → j.status ≢ created
    → Kept j (some (check_in rnd s dev j).1)
check_in-Kept rnd dev j running n = poll-Kept (rnd.draw_bit dev.gen) dev j n
check_in-Kept rnd dev j _ n = same-Kept j n

pub check-Kept :
    (rnd : Random) (dev : DeviceState) (j : Job) (out : Bool)
    → j.status ≢ created
    → Kept j (check rnd dev (some j) out).0.job
unfolding check
check-Kept rnd dev j false n = same-Kept j n
check-Kept rnd dev j true n = check_in-Kept rnd dev j j.status n

pub set_programs-LeavesKept :
    (b : Build) (rnd : Random) (fl : Float) (memory : ℕ → Bool) (dev : DeviceState) (j : Job)
    (format count : ℕ) (sizes : Option (List ℕ)) (programs : Option (List (Option Bytes)))
    → j.status ≢ created
    → LeavesKept j (set_programs memory (some j) format count sizes programs)
set_programs-LeavesKept b rnd fl memory dev j format count sizes programs n =
    let refuses =
      not_created-JobRefuses b rnd fl memory dev none j format 0 count none sizes programs
        (not_fresh j.status n) in
    JobRefuses-LeavesKept j _ n refuses.1

pub job_set_parameter-LeavesKept :
    (b : Build) (rnd : Random) (fl : Float) (dev : DeviceState) (j : Job) (param size : ℕ)
    (value : Option Bytes)
    → j.status ≢ created
    → LeavesKept j (job_set_parameter (some j) param size value)
job_set_parameter-LeavesKept b rnd fl dev j param size value n =
    let refuses =
      not_created-JobRefuses b rnd fl (λ _. true) dev none j param size 0 value none none
        (not_fresh j.status n) in
    JobRefuses-LeavesKept j _ n refuses.0

pub submit-Kept :
    (b : Build) (rnd : Random) (fl : Float) (memory : ℕ → Bool) (dev : DeviceState)
    (s : Option Session) (j : Job)
    → j.status ≢ created
    → Kept j (submit b rnd fl memory dev s (some j)).job
submit-Kept b rnd fl memory dev s j n =
    let refuses =
      not_created-JobRefuses b rnd fl memory dev s j 0 0 0 none none none (not_fresh j.status n) in
    rw refuses.2 (same-Kept j n)
