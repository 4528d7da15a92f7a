-- ===== src/Driver/Jobs/Reference.antt =====
-- The reference device of examples/device/src/cxx_device.cpp as a library of the example driver:
-- a job from its submission to its results, by the driver's functions.
use qdmi.Base.{
  ℕ, suc, ◌==◌, ◌≤◌, ◌<◌, ◌≡◌, ◌≢◌, refl, inr, Bool, true, false, Option, none, some, List, [],
  replicate, length, arith, All,
}
use qdmi.Base.Bytes.{Bytes}
use qdmi.Constants.{Code, success, created, running, done, idle, busy, JobStatus}
use qdmi.Constants.JobResult
use qdmi.Output.{Request}
use qdmi.Output.Serves.{IsContract, Serves}
use qdmi.Device.State.{Session, Job, ResultData, initialized}
use qdmi.Device.Session.{retrieve_device_job_by_id}
use qdmi.Device.Programs.{get_program, get_program_status}
use qdmi.Device.Query.{query_site_property, query_operation_property}
use qdmi.Device.Jobs.{job_query_property, check, wait}
use qdmi.Device.Submit.{submit, max_shots}
use qdmi.Device.Submit.Results.{IsShot, IsResult}
use qdmi.Device.Results.{get_results}
use qdmi.Device.Results.Laws.{terminated}
use qdmi.Device.Invariant.{IsSound}
use qdmi.Device.World.{
  World, Platform, submit_on, Handle, null, object, dangling, resolve, update, put_job, call,
  free_job, set_job_parameter, set_job_programs, submit_job, cancel_job, wait_job,
}
use qdmi.Device.World.Invariant.{IsSafe}
use qdmi.Device.Outcome.{submit_succeeds, get_results_done}
use qdmi.Driver.{ClientJob}
use qdmi.Driver.Jobs.{DeviceFunctions, job_submit, job_wait, job_get_results}

-- A function that leaves its object as it is, called through a handle.
abbrev pub reading {ℓ} : {A : Type 0} {B : Type ℓ} → Handle A → (Option A → Option B) → Option B
reading null f = f none
reading (object a) f = f (some a)
reading dangling f = none

abbrev checked : Platform → World → ℕ → Bool → Handle Job → Option (Code × Option JobStatus × World)
checked pl w p out dangling = none
checked pl w p out null =
    let (e, status) = check pl.rnd w.dev none out in some (e.code, status, record w { dev = e.dev })
checked pl w p out (object job) =
    let (e, status) = check pl.rnd w.dev (some job) out in
    some (e.code, status, put_job (record w { dev = e.dev }) p e.job)

-- The functions of the reference device on its sessions and jobs; `memory` is what the allocator
-- does in each call.
abbrev pub reference_functions : Platform → (ℕ → Bool) → DeviceFunctions World
reference_functions pl memory = record {
  job_free = λ p w. elim (call pl (free_job p) w) [ none ↦ none | some (_, w') ↦ some w' ];
  job_set_parameter = λ p param size value. call pl (set_job_parameter p param size value);
  job_set_programs = λ p format count sizes programs.
      call pl (set_job_programs memory p format count sizes programs);
  job_get_program = λ p index r w. reading (resolve w.jobs p) (λ j. get_program j index r);
  job_get_program_status =
      λ p index w. reading (resolve w.jobs p) (λ j. some (get_program_status j index, none));
  job_query_property = λ p prop r w. reading (resolve w.jobs p) (λ j. job_query_property j prop r);
  job_submit = λ p. call pl (submit_job memory p);
  job_cancel = λ p. call pl (cancel_job p);
  job_check = λ p out w. checked pl w p out (resolve w.jobs p);
  job_wait = λ p timeout. call pl (wait_job p timeout);
  job_get_results =
      λ p index result r w. reading (resolve w.jobs p) (λ j. get_results pl.fl j index result r);
  query_site_property = λ p site prop r w.
      reading (resolve w.sessions p) (λ s. query_site_property pl.build s site prop r);
  query_operation_property = λ p op a prop r w.
      reading (resolve w.sessions p) (λ s. query_operation_property pl.build s op a prop r);
  retrieve_device_job_by_id = some (λ p job_id w.
      reading (resolve w.sessions p) (λ s. some (retrieve_device_job_by_id s, 0, w)));
}

pub update-same : {A : Type 0} (f : ℕ → Option A) (p : ℕ) (v : Option A) → update f p v p ≡ v
update-same f p v = ground arith

-- The state after the submission.
abbrev pub running_world : World → ℕ → Job → List ResultData → ℕ → World
running_world w p job rs gen =
    put_job (record w { dev = record { status = busy; gen = gen } }) p
      (some (record job { results = rs; status = running }))

-- The state after the wait.
abbrev pub done_world : World → ℕ → Job → List ResultData → ℕ → World
done_world w p job rs gen =
    put_job
      (put_job (record w { dev = record { status = idle; gen = gen } }) p
        (some (record job { results = rs; status = running })))
      p (some (record job { results = rs; status = done }))

module _ (pl : Platform) (memory : ℕ → Bool) (w : World) (p : ℕ) (job : Job) (s : Session)
    (real : p ≢ 0) (there : w.jobs p ≡ some job) (session_there : w.sessions job.session ≡ some s)
    (safe : IsSafe w) where
  real_test : (p == 0) ≡ false
  real_test = ground arith

  session_real : (job.session == 0) ≡ false
  session_real = let h = (safe.jobs_fit p job there).real in ground arith

  submitted :
      (rs : List ResultData) (gen : ℕ)
      → submit pl.build pl.rnd pl.fl memory w.dev (some s) (some job) ≡ record {
        code = success;
        dev = record { status = busy; gen = gen };
        job = some (record job { results = rs; status = running });
      }
      → call pl (submit_job memory p) w ≡ some (success, running_world w p job rs gen)
  unfolding call
  submitted rs gen e = rw (real_test, there, submit_on, session_real, session_there, e)

  waited :
      (rs : List ResultData) (gen timeout : ℕ)
      → call pl (wait_job p timeout) (running_world w p job rs gen)
        ≡ some (success, done_world w p job rs gen)
  unfolding call wait
  waited rs gen timeout =
      rw (real_test, update-same w.jobs p (some (record job { results = rs; status = running })))

  done_job-IsSound :
      (rs : List ResultData)
      → IsSound job
      → length rs ≡ length job.programs
      → All (IsResult job.num_shots) rs
      → IsSound (record job { results = rs; status = done })
  done_job-IsSound rs h l each = record {
    format_supported = h.format_supported;
    programs_valid = h.programs_valid;
    status_possible = tt;
    none_before = λ e. cc;
    one_each = inr l;
    all_there = λ _. l;
    results_valid = each;
  }

-- What a client of the driver does with a job: it submits it, waits, and asks for the shots.
pub record Completes (libs : ℕ → DeviceFunctions World) (job : ClientJob) (w : World)
    (num_shots timeout index : ℕ) (r : Request) : Type 0 where
  pub after_submit : World
  pub after_wait : World
  pub shot : Bytes
  pub submits : job_submit libs (some job) w ≡ some (success, after_submit)
  pub waits : job_wait libs (some job) timeout after_submit ≡ some (success, after_wait)
  pub is_shot : IsShot shot
  pub serves :
      Serves
        (terminated (replicate num_shots shot))
        r
        (job_get_results libs (some job) index JobResult.shots r after_wait)

-- In every safe state of the reference device, if the memory suffices: a client's job behind whose
-- handle there is a job that has just been created, with a program list, at least one shot and no
-- more than a vector holds, in a session that lives, is submitted and waited for by the driver's functions,
-- both successfully, and then the driver serves the shots of each of its programs: as many as were
-- asked for, all alike, one of the four texts of five bits.
pub submit_wait_results :
    (pl : Platform) (memory : ℕ → Bool) (libs : ℕ → DeviceFunctions World) (w : World)
    (client_job : ClientJob) (job : Job) (s : Session) (n timeout index : ℕ) (r : Request)
    → libs client_job.device.library ≡ reference_functions pl memory
    → IsSafe w
    → client_job.device_job ≢ 0
    → w.jobs client_job.device_job ≡ some job
    → w.sessions job.session ≡ some s
    → job.status ≡ created
    → job.programs ≢ []
    → job.num_shots ≡ suc n
    → suc n ≤ max_shots
    → ((k : ℕ) → memory k ≡ true)
    → index < length job.programs
    → IsContract r
    → Completes libs client_job w (suc n) timeout index r
unfolding job_submit job_wait job_get_results
submit_wait_results pl memory libs w client_job job s n timeout index r lib safe real there
      session_there fresh given shots few m i c =
    let p = client_job.device_job in
    let fit = safe.jobs_fit p job there in
    let ready : s.status ≡ initialized = fit.ready s session_there in
    let (rs, gen, e, l, each) =
      submit_succeeds pl.build pl.rnd pl.fl memory w.dev s job ready fit.sound fresh given
        (omega (arith, shots)) m in
    let sound =
      done_job-IsSound pl memory w p job s real there session_there safe rs fit.sound l each in
    let (shot, is_shot, served) =
      get_results_done pl.fl (record job { results = rs; status = done }) n index r sound refl l i
        shots few c in
    record {
      after_submit = running_world w p job rs gen;
      after_wait = done_world w p job rs gen;
      shot = shot;
      submits =
          rw (job_submit, lib)
            (submitted pl memory w p job s real there session_there safe rs gen e);
      waits =
          rw (job_wait, lib)
            (waited pl memory w p job s real there session_there safe rs gen timeout);
      is_shot = is_shot;
      serves =
          rw
            (
              job_get_results,
              lib,
              real_test pl memory w p job s real there session_there safe,
              update-same,
            )
            served;
    }
