-- ===== src/Driver/Jobs/Tests.antt =====
-- The theorems on the jobs of examples/driver/qdmi_example_driver.cpp at concrete inputs: a job with
-- one program on the reference device of examples/device/src/cxx_device.cpp.
use qdmi.Base.{refl, true, none, some, List, [], ◌∷◌, ◌++◌, arith}
use qdmi.Base.Bytes.{text, encode, decode}
use qdmi.Constants.{created, idle, is_invalid_enum_value}
use qdmi.Constants.DeviceSessionParameter
use qdmi.Constants.DeviceJobParameter
use qdmi.Constants.ProgramFormat
use qdmi.Output.{Request}
use qdmi.Device.State.{allocated, Job}
use qdmi.Device.Programs.{
  set_programs, valid_format, supported_format, load_all, load_programs, valid_program,
  copy_program,
}
use qdmi.Device.Session.{device_initialize, create_device_job, session_init, session_set_parameter}
use qdmi.Device.Jobs.{job_set_parameter}
use qdmi.Device.Sample.{platform, session}
use qdmi.Device.World.{
  World, Call, call, calls, update, initialize, alloc_session, set_session_parameter, init_session,
  create_job, set_job_programs, set_job_parameter,
}
use qdmi.Device.World.Reach.{reached-IsSafe}
use qdmi.Device.World.Invariant.{IsSafe}
use qdmi.Driver.{ClientSession, ClientJob, readwrite, new_session}
use qdmi.Driver.Jobs.{retrieve_job_by_id}
use qdmi.Driver.Jobs.Reference.{reference_functions, Completes, submit_wait_results}
use qdmi.Driver.Jobs.Retrieval.{Retrieval, retrieve_job_by_id-Retrieval}

abbrev job : Job
job = record {
  session = 1;
  id = 42;
  format = ProgramFormat.qasm2;
  programs = (text "x" ++ 0 ∷ []) ∷ [];
  status = created;
  num_shots = 2;
  results = [];
}

-- What the device did before: the job is in a session of its own.
abbrev history : List Call
history =
    initialize
    ∷ alloc_session true
    ∷ set_session_parameter 1 DeviceSessionParameter.token 1 (some (text "t"))
    ∷ init_session 1
    ∷ create_job 1 true
    ∷ set_job_programs (λ _. true) 2 ProgramFormat.qasm2 1 (some (2 ∷ []))
        (some (some (text "x" ++ 0 ∷ []) ∷ []))
    ∷ set_job_parameter 2 DeviceJobParameter.shotsnum 8 (some (encode 8 2))
    ∷ []

abbrev world : World
world = record {
  dev = record { status = idle; gen = 7 };
  sessions =
      update
        (update (update (λ _. none) 1 (some (record { token = []; status = allocated }))) 1
          (some (record { token = text "t"; status = allocated })))
        1 (some session);
  jobs =
      update
        (update
          (update (λ _. none) 2
            (some (record job { format = ProgramFormat.max_value; programs = []; num_shots = 0 })))
          2 (some (record job { num_shots = 0 })))
        2 (some job);
  next = 3;
}

world-IsSafe : IsSafe world
unfolding calls call device_initialize session_set_parameter session_init create_device_job
    is_invalid_enum_value set_programs valid_format supported_format load_all load_programs
    valid_program copy_program job_set_parameter encode decode
world-IsSafe = reached-IsSafe platform history 6 world refl

abbrev client_job : ClientJob
client_job = record {
  device = record { library = 0; session = 5; device_session = 1; id = text "a" };
  device_job = 2;
}

abbrev size_query : Request
size_query = record { size = 0; value = none; size_ret = true }

submit_wait_results_example :
    Completes (λ _. reference_functions platform (λ _. true)) client_job world 2 0 0 size_query
submit_wait_results_example =
    submit_wait_results platform (λ _. true) (λ _. reference_functions platform (λ _. true)) world
      client_job job session 1 0 0 size_query refl world-IsSafe (omega arith) refl refl refl
      (λ e. cc) refl (omega arith) (λ _. refl) (omega arith) tt

abbrev writing : ClientSession
writing = record new_session { mode = readwrite }

retrieve_job_by_id-Retrieval_example :
    Retrieval
      (reference_functions platform (λ _. true))
      client_job.device
      readwrite
      world
      (text "42")
      (retrieve_job_by_id
        (λ _. reference_functions platform (λ _. true))
        (some (client_job.device, writing))
        (some (text "42"))
        true
        true
        world)
retrieve_job_by_id-Retrieval_example =
    retrieve_job_by_id-Retrieval (λ _. reference_functions platform (λ _. true)) client_job.device
      writing (text "42") true true world
