-- ===== src/Device/Tests.antt =====
-- The theorems on the reference device at concrete inputs: a session with the token "t", and jobs
-- with one program of the text "x" for the format QASM2.
use qdmi.Base.{
  ◌/◌, ℕ, suc, ◌+◌, ◌≡◌, refl, inl, inr, Option, none, some, List, [], ◌∷◌, ◌++◌, true, arith, All,
  length, replicate, lookup,
}
use qdmi.Base.Bytes.{Bytes, text, encode}
use qdmi.Constants.{
  success, created, done, running, idle, busy, is_invalid_enum_value, error_invalid_argument,
}
use qdmi.Constants.DeviceJobParameter
use qdmi.Constants.DeviceJobProperty
use qdmi.Constants.DeviceSessionParameter
use qdmi.Constants.DeviceProperty
use qdmi.Constants.SiteProperty
use qdmi.Constants.OperationProperty
use qdmi.Constants.ProgramFormat
use qdmi.Constants.JobResult
use qdmi.Output.{Request}
use qdmi.Output.Serves.{Serves}
use qdmi.Device.State.{Session, allocated, initialized, Job, ResultData, Random, Float}
use qdmi.Device.Sample.{build, build-IsLinked, dev, session}
use qdmi.Device.Session.{device_initialize, create_device_job, session_init, session_set_parameter}
use qdmi.Device.Session.Laws.{SessionRefuses, token_then_init}
use qdmi.Device.Jobs.{wait, keep, job_set_parameter, job_query_property}
use qdmi.Device.Jobs.Laws.{
  Waited, wait_settles, JobRefuses, not_created-JobRefuses, num_shots_roundtrip,
}
use qdmi.Device.Programs.{set_programs, supported_format, valid_program}
use qdmi.Device.Programs.Laws.{input, end_of_inputs, SetPrograms, set_programs-SetPrograms}
use qdmi.Device.Programs.{get_program, valid_format, load_all, load_programs, copy_program}
use qdmi.Device.Programs.Roundtrip.{set_programs_accepts, programs_roundtrip}
use qdmi.Device.Query.{query_device_property, query_site_property}
use qdmi.Device.Query.Tables.{query_device_property-Serves, query_site_property-Serves}
use qdmi.Device.Query.{query_operation_property}
use qdmi.Device.Query.Operations.{
  is_ry, rotation_table, of_rotation, query_operation_property-Serves,
}
use qdmi.Device.Submit.{submit}
use qdmi.Device.Submit.Results.{IsShot, IsResult}
use qdmi.Device.Results.{get_results}
use qdmi.Device.Results.Laws.{terminated}
use qdmi.Device.Invariant.{IsSound}
use qdmi.Device.World.{
  World, Platform, Call, call, calls, update, initialize, alloc_session, set_session_parameter,
  init_session, create_job, wait_job, cancel_job,
}
use qdmi.Device.World.Reach.{reached-IsSafe}
use qdmi.Device.World.Submitted.{Remains, call-Remains}
use qdmi.Device.World.Lasting.{IsLawful, reached-IsLawful}
use qdmi.Device.World.Invariant.{IsSafe}
use qdmi.Device.Outcome.{submit_succeeds, get_results_done, wait_unsubmitted}

abbrev rnd : Random
rnd = record {
  draw_id = λ g. (42, suc g);
  draw_bit = λ g. (true, suc g);
  draw_real = λ g. (1, suc g);
}

abbrev fl : Float
fl = record {
  norm = λ a. a.re;
  add = λ a b. a + b;
  sqrt = λ a. a;
  divide = λ a n. a;
  log2_cut = λ n. n / 2;
}

abbrev program : Bytes
program = text "x" ++ 0 ∷ []

abbrev job : Job
job = record {
  session = 1;
  id = 42;
  format = ProgramFormat.qasm2;
  programs = program ∷ [];
  status = created;
  num_shots = 2;
  results = [];
}

abbrev size_query : Request
size_query = record { size = 0; value = none; size_ret = true }

abbrev small_buffer : Request
small_buffer = record { size = 8; value = some (replicate 8 255); size_ret = true }

job-IsSound : IsSound job
unfolding supported_format valid_program
job-IsSound = record {
  format_supported = λ _. refl;
  programs_valid = (refl, tt);
  status_possible = tt;
  none_before = λ _. refl;
  one_each = inl refl;
  all_there = λ e. cc;
  results_valid = tt;
}

abbrev platform : Platform
platform = record { build = build; rnd = rnd; fl = fl }

abbrev history : List Call
history =
    initialize
    ∷ alloc_session true
    ∷ set_session_parameter 1 DeviceSessionParameter.token 1 (some (text "t"))
    ∷ init_session 1
    ∷ create_job 1 true
    ∷ wait_job 2 0
    ∷ []

abbrev empty_job : Job
empty_job = record {
  session = 1;
  id = 42;
  format = ProgramFormat.max_value;
  programs = [];
  status = created;
  num_shots = 0;
  results = [];
}

abbrev waited_job : Job
waited_job = record empty_job { status = done }

abbrev reached : World
reached = record {
  dev = record { status = idle; gen = 7 };
  sessions =
      update
        (update (update (λ _. none) 1 (some (record { token = []; status = allocated }))) 1
          (some (record { token = text "t"; status = allocated })))
        1 (some session);
  jobs = update (update (λ _. none) 2 (some empty_job)) 2 (some waited_job);
  next = 3;
}

history-IsSafe : IsSafe reached
unfolding calls call device_initialize session_set_parameter session_init create_device_job wait
    is_invalid_enum_value
history-IsSafe = reached-IsSafe platform history 6 reached refl

reached-IsLawful_example : IsLawful platform reached
unfolding calls call device_initialize session_set_parameter session_init create_device_job wait
    is_invalid_enum_value
reached-IsLawful_example = reached-IsLawful platform history 6 reached refl

call-Remains_example : Remains 2 waited_job (cancel_job 2) (call platform (cancel_job 2) reached)
call-Remains_example =
    call-Remains reached 2 waited_job refl (λ e. cc) platform (cancel_job 2) history-IsSafe

submit_succeeds_example :
    (rs : List ResultData) × (gen : ℕ) × (submit build rnd fl
        (λ _. true)
        dev
        (some session)
        (some job)
      ≡ record {
        code = success;
        dev = record { status = busy; gen = gen };
        job = some (record job { results = rs; status = running });
      })
    × (length rs ≡ 1)
    × All (IsResult 2) rs
submit_succeeds_example =
    submit_succeeds build rnd fl (λ _. true) dev session job refl job-IsSound refl (λ e. cc)
      (omega arith) (λ k. refl)

abbrev result : ResultData
result = record {
  shots = replicate 2 (text "00001");
  state_vec = replicate 32 (record { re = 1; im = 0 });
}

abbrev done_job : Job
done_job = record job { status = done; results = result ∷ [] }

done_job-IsSound : IsSound done_job
unfolding supported_format valid_program
done_job-IsSound = record {
  format_supported = λ _. refl;
  programs_valid = (refl, tt);
  status_possible = tt;
  none_before = λ e. cc;
  one_each = inr refl;
  all_there = λ _. refl;
  results_valid =
      (record { shot = text "00001"; is_shot = (0, refl); shots_eq = refl; amplitudes = refl }, tt);
}

get_results_done_example :
    (shot : Bytes) × IsShot shot
    × Serves
        (terminated (replicate 2 shot))
        size_query
        (get_results fl (some done_job) 0 JobResult.shots size_query)
get_results_done_example =
    get_results_done fl done_job 1 0 size_query done_job-IsSound refl refl (omega arith) refl
      (omega arith) tt

wait_unsubmitted_example :
    (j : Job) × ((wait dev (some job) 0).job ≡ some j)
    × (j.status ≡ done)
    × (get_results fl (some j) 0 JobResult.shots size_query ≡ none)
unfolding is_invalid_enum_value
wait_unsubmitted_example =
    wait_unsubmitted fl dev job 0 0 JobResult.shots size_query job-IsSound refl (omega arith) refl
      refl

set_programs-SetPrograms_example :
    SetPrograms
      (record job { programs = [] })
      ProgramFormat.qasm2
      1
      (some (2 ∷ []))
      (some (some program ∷ []))
      (set_programs
        (λ _. true)
        (some (record job { programs = [] }))
        ProgramFormat.qasm2
        1
        (some (2 ∷ []))
        (some (some program ∷ [])))
set_programs-SetPrograms_example =
    set_programs-SetPrograms (λ _. true) (record job { programs = [] }) ProgramFormat.qasm2 1
      (some (2 ∷ [])) (some (some program ∷ []))

query_device_property-Serves_example :
    Serves
      (encode 8 5)
      small_buffer
      (query_device_property build dev (some session) DeviceProperty.qubitsnum small_buffer)
unfolding is_invalid_enum_value lookup
query_device_property-Serves_example =
    query_device_property-Serves build dev session DeviceProperty.qubitsnum small_buffer
      (encode 8 5) refl refl refl refl

query_site_property-Serves_example :
    Serves
      (encode 8 1000000)
      small_buffer
      (query_site_property build (some session) 16 SiteProperty.t1 small_buffer)
unfolding is_invalid_enum_value lookup
query_site_property-Serves_example =
    query_site_property-Serves build session 16 0 SiteProperty.t1 small_buffer (encode 8 1000000)
      (λ e. cc) refl refl refl refl

wait_settles_example : (j : Job) × Waited rnd (wait dev (some job) 0) 5 j
wait_settles_example = wait_settles rnd dev job 0 5

not_created-JobRefuses_example :
    JobRefuses done_job
      (job_set_parameter (some done_job) DeviceJobParameter.shotsnum 8 (some (encode 8 5)))
    × JobRefuses done_job
        (set_programs (λ _. true) (some done_job) DeviceJobParameter.shotsnum 1 none none)
    × (submit build rnd fl (λ _. true) dev (some session) (some done_job)
        ≡ keep error_invalid_argument dev (some done_job))
not_created-JobRefuses_example =
    not_created-JobRefuses build rnd fl (λ _. true) dev (some session) done_job
      DeviceJobParameter.shotsnum 8 1 (some (encode 8 5)) none none refl

num_shots_roundtrip_example :
    (j : Job) × (job_set_parameter (some job) DeviceJobParameter.shotsnum 8 (some (encode 8 1024))
      ≡ some (success, some j))
    × Serves
        (encode 8 1024)
        small_buffer
        (job_query_property (some j) DeviceJobProperty.shotsnum small_buffer)
num_shots_roundtrip_example = num_shots_roundtrip job 1024 small_buffer refl (omega arith) refl

token_then_init_example :
    (s1 s2 : Session) × (session_set_parameter
        (some (record { token = []; status = allocated }))
        DeviceSessionParameter.token
        1
        (some (text "t"))
      ≡ some (success, some s1))
    × (s1.token ≡ text "t")
    × (session_init dev (some s1) ≡ (success, some s2))
    × (s2 ≡ record s1 { status = initialized })
    × ((param size : ℕ) (value : Option Bytes)
        → SessionRefuses s2 (session_set_parameter (some s2) param size value))
token_then_init_example =
    token_then_init dev (record { token = []; status = allocated }) (text "t") refl (omega arith)
      refl

programs_roundtrip_example : Serves program small_buffer (get_program (some job) 0 small_buffer)
unfolding set_programs valid_format supported_format load_all load_programs valid_program
    copy_program
programs_roundtrip_example =
    programs_roundtrip (λ _. true) (record job { programs = [] }) job ProgramFormat.qasm2 1 0 2
      (2 ∷ []) (some program ∷ []) program small_buffer refl (omega arith) refl refl refl

set_programs_accepts_example :
    set_programs
      (λ _. true)
      (some (record job { programs = [] }))
      ProgramFormat.qasm2
      1
      (some (2 ∷ []))
      (some (some program ∷ []))
    ≡ some (success, some job)
unfolding valid_format supported_format valid_program copy_program
set_programs_accepts_example =
    set_programs_accepts (λ _. true) (record job { programs = [] }) ProgramFormat.qasm2 1 (2 ∷ [])
      (some program ∷ []) (program ∷ []) (λ k. refl) refl refl refl (omega arith) (omega arith)
      (input refl refl end_of_inputs)

query_operation_property-Serves_example : Serves (encode 8 1) small_buffer (
    query_operation_property build
      (some session)
      272
      (record { num_sites = 1; sites = some (16 ∷ []); num_params = 1; params = true })
      OperationProperty.parametersnum
      small_buffer)
unfolding is_invalid_enum_value lookup
query_operation_property-Serves_example =
    query_operation_property-Serves build session 272
      (record { num_sites = 1; sites = some (16 ∷ []); num_params = 1; params = true })
      (rotation_table build (text "ry")) OperationProperty.parametersnum small_buffer (encode 8 1)
      build-IsLinked (of_rotation 272 (text "ry") is_ry (refl, refl)) refl refl refl
