-- ===== src/Device/Outcome.antt =====
-- A job from its submission to its results: submit, wait and get_results of
-- examples/device/src/cxx_device.cpp together.
use mathlib.Core.Path.{subst}
use qdmi.Base.{
  ◌∷◌, length-append, ℕ, zero, suc, ◌≤◌, ◌<◌, ◌≡◌, ◌≢◌, refl, inl, inr, Bool, true, false, none,
  some, List, [], length, replicate, get_elem?, get_elem?-lt, All, All-get, All-replicate, is_empty,
  arith, Bool-cases, leb, length-replicate,
}
use qdmi.Base.Bytes.{Bytes}
use qdmi.Constants.{success, created, running, done, busy, is_invalid_enum_value}
use qdmi.Constants.JobResult
use qdmi.Output.{Request, is_empty_buffer}
use qdmi.Output.Serves.{IsContract, Serves, empty_buffer-Serves}
use qdmi.Device.State.{Session, initialized, Job, ResultData, DeviceState, Build, Random, Float}
use qdmi.Device.Jobs.{wait}
use qdmi.Device.Submit.{submit, try_submit, submit_setting, max_shots}
use qdmi.Device.Submit.Results.{
  IsShot, IsResult, num_qubits_initialized, compute_results-computed, compute_results-IsResults,
}
use qdmi.Device.Invariant.{IsSound}
use qdmi.Device.Invariant.Submit.{programs-pos}
use qdmi.Device.Results.{get_results, select_result}
use qdmi.Device.Results.Laws.{get_results_shots-Serves, joined, terminated}

module _ (b : Build) (rnd : Random) (fl : Float) (memory : ℕ → Bool) (dev : DeviceState)
    (s : Session) (job : Job) (ready : s.status ≡ initialized) (sound : IsSound job)
    (fresh : job.status ≡ created) where
  -- A sound job that has just been created, with a program list and a number of shots that a vector
  -- holds, in an initialized session, is submitted, if the memory suffices: the device is busy, the job runs, and there is one result for each program.
  pub submit_succeeds :
      job.programs ≢ []
      → job.num_shots ≤ max_shots
      → ((k : ℕ) → memory k ≡ true)
      → (rs : List ResultData) × (gen : ℕ) × (submit b rnd fl memory dev (some s) (some job)
          ≡ record {
            code = success;
            dev = record { status = busy; gen = gen };
            job = some (record job { results = rs; status = running });
          })
        × (length rs ≡ length job.programs)
        × All (IsResult job.num_shots) rs
  unfolding submit try_submit
  submit_succeeds given few m =
      let setting = submit_setting b rnd fl dev (some s) job in
      let q = num_qubits_initialized b dev s ready in
      let pos = programs-pos job.format job.programs sound.programs_valid in
      let (rs, gen, e) =
        compute_results-computed setting memory 0 job.programs dev.gen q few m pos in
      let r = compute_results-IsResults setting memory 0 job.programs dev.gen gen rs q pos e in
      let some_program : is_empty job.programs ≡ false = ground arith in
      (rs, gen, rw (submit, try_submit, fresh, some_program, m 0, e), r.one_each, r.each)

length-shot : (shot : Bytes) → IsShot shot → length shot ≡ 5
length-shot shot (zero, e) = rw e
length-shot shot (suc zero, e) = rw e
length-shot shot (suc (suc zero), e) = rw e
length-shot shot (suc (suc (suc n)), e) = rw e

select_shots-Serves :
    (fl : Float) (n : ℕ) (stored : ResultData) (r : Request)
    → IsResult (suc n) stored
    → suc n ≤ max_shots
    → IsContract r
    → (shot : Bytes) × IsShot shot
      × Serves (terminated (replicate (suc n) shot)) r (select_result fl stored JobResult.shots r)
unfolding select_result
select_shots-Serves fl n stored r h few c = (
  h.shot,
  h.is_shot,
  rw h.shots_eq (
      get_results_shots-Serves 5 h.shot (replicate n h.shot) r
        (All-replicate _ (suc n) (length-shot h.shot h.is_shot))
        (omega (arith, length-replicate (suc n) h.shot)) c),
)

get_results_serves :
    (fl : Float) (job : Job) (index : ℕ) (r : Request) (stored : ResultData) (payload : Bytes)
    → job.status ≡ done
    → index < length job.programs
    → get_elem? job.results index ≡ some stored
    → 0 < length payload
    → Serves payload r (select_result fl stored JobResult.shots r)
    → Serves payload r (get_results fl (some job) index JobResult.shots r)
unfolding get_results is_invalid_enum_value
get_results_serves fl job index r stored payload d i e p h =
    let inside : leb (length job.programs) index ≡ false = ground arith in
    elim (Bool-cases (is_empty_buffer r)) [
      | inl empty ↦ rw empty (empty_buffer-Serves payload r p empty)
      | inr usable ↦ rw (usable, inside, d, e) h
    ]

shots-pos : (n : ℕ) (shot : Bytes) → 0 < length (terminated (replicate (suc n) shot))
shots-pos n shot = omega (arith, length-append (joined (replicate (suc n) shot)) (0 ∷ []))

-- The shots of every program of a sound job that is done, has a result for each program and was set
-- to at least one shot and no more than a vector holds: one text, with as many shots as were asked
-- for, all alike, one of the four texts of five bits, a comma between them and NUL at the end.
pub get_results_done :
    (fl : Float) (job : Job) (n index : ℕ) (r : Request)
    → IsSound job
    → job.status ≡ done
    → length job.results ≡ length job.programs
    → index < length job.programs
    → job.num_shots ≡ suc n
    → suc n ≤ max_shots
    → IsContract r
    → (shot : Bytes) × IsShot shot
      × Serves
          (terminated (replicate (suc n) shot))
          r
          (get_results fl (some job) index JobResult.shots r)
get_results_done fl job n index r h d all i shots few c =
    let (stored, e) = get_elem?-lt job.results index (omega arith) in
    let ok = All-get (IsResult job.num_shots) index job.results h.results_valid e in
    let ok_n = subst (λ (k : ℕ). IsResult k stored) shots ok in
    let (shot, is_shot, serves) = select_shots-Serves fl n stored r ok_n few c in
    (
      shot,
      is_shot,
      get_results_serves fl job index r stored (terminated (replicate (suc n) shot)) d i e
          (shots-pos n shot) serves,
    )

-- A job that was never submitted is done after a wait, and then the results of any of its programs
-- are read where there are none.
pub wait_unsubmitted :
    (fl : Float) (dev : DeviceState) (job : Job) (timeout index result : ℕ) (r : Request)
    → IsSound job
    → job.status ≡ created
    → index < length job.programs
    → is_empty_buffer r ≡ false
    → is_invalid_enum_value result JobResult.max_value ≡ false
    → (j : Job) × ((wait dev (some job) timeout).job ≡ some j)
      × (j.status ≡ done)
      × (get_results fl (some j) index result r ≡ none)
unfolding wait get_results
wait_unsubmitted fl dev job timeout index result r h fresh i usable valid =
    let inside : leb (length job.programs) index ≡ false = ground arith in
    (
      record job { status = done },
      ground arith,
      refl,
      rw (usable, valid, inside, h.none_before fresh),
    )
