-- ===== src/Device/Contracts/Tests.antt =====
-- The documented codes at concrete inputs: a session with the token "t", and a job that has just been
-- created.
use mathlib.Core.Option
use qdmi.Base.{false, suc, refl, true, some, [], replicate, lookup}
use qdmi.Base.Bytes.{text}
use qdmi.Constants.{created}
use qdmi.Constants.DeviceSessionParameter
use qdmi.Constants.DeviceJobParameter
use qdmi.Constants.DeviceProperty
use qdmi.Constants.DeviceJobProperty
use qdmi.Constants.SiteProperty
use qdmi.Constants.ProgramFormat
use qdmi.Output.{Request}
use qdmi.Device.State.{Job, Random, Session, allocated}
use qdmi.Device.Sample.{build, dev, session}
use qdmi.Device.Session.{
  device_initialize, device_finalize, session_init, session_set_parameter, create_device_job,
}
use qdmi.Device.Jobs.{job_set_parameter, job_query_property, cancel, check, wait}
use qdmi.Device.Programs.{get_program, get_program_status}
use qdmi.Device.Query.{query_device_property, query_site_property}
use qdmi.Device.Query.Tables.{device_table}
use qdmi.Device.Contracts.Properties.{data_of_job}
use qdmi.Device.Contracts.Sites.{data_of_site}
use qdmi.Device.Contracts.Reply.{OfReply}
use qdmi.Device.Contracts.Jobs.{expected_size, program_at, jobs-Documented}
use qdmi.Device.Contracts.Sessions.{sessions-Documented}
use qdmi.Interface.{OfCode}
use qdmi.Interface

abbrev rnd : Random
rnd = record {
  draw_id = λ g. (42, suc g);
  draw_bit = λ g. (true, suc g);
  draw_real = λ g. (1, suc g);
}

abbrev job : Job
job = record {
  session = 1;
  id = 42;
  format = ProgramFormat.max_value;
  programs = [];
  status = created;
  num_shots = 2;
  results = [];
}

-- The session before it was initialized.
abbrev new_session : Session
new_session = record { token = text "t"; status = allocated }

abbrev buffer : Request
buffer = record { size = 4; value = some (replicate 4 255); size_ret = true }

-- The size of the number of shots, and the buffer for the number of qubits, are too small.
sessions-Documented_example :
    Interface.DeviceInitialize (device_initialize dev).0
    × Interface.DeviceFinalize (device_finalize dev).0
    × Interface.SessionInit (some new_session) false (session_init dev (some new_session)).0
    × Interface.CreateDeviceJob
        (some session)
        true
        (create_device_job rnd dev 1 (some session) true).code
    × OfCode
        (Interface.SessionSetParameter
          (some session)
          DeviceSessionParameter.token
          1
          (some (text "u")))
        (session_set_parameter (some session) DeviceSessionParameter.token 1 (some (text "u")))
    × OfReply
        (Interface.QuerySiteProperty
          (some session)
          16
          SiteProperty.t1
          (data_of_site build 16 SiteProperty.t1)
          buffer)
        (query_site_property build (some session) 16 SiteProperty.t1 buffer)
    × OfReply
        (Interface.QueryDeviceProperty
          (some session)
          DeviceProperty.qubitsnum
          (lookup DeviceProperty.qubitsnum (device_table build dev.status))
          buffer)
        (query_device_property build dev (some session) DeviceProperty.qubitsnum buffer)
sessions-Documented_example =
    sessions-Documented build rnd dev 1 (some session) (some new_session)
      DeviceSessionParameter.token 1 16 SiteProperty.t1 DeviceProperty.qubitsnum (some (text "u"))
      true buffer refl refl

jobs-Documented_example :
    OfCode
      (Interface.JobSetParameter
        (some job)
        DeviceJobParameter.shotsnum
        (expected_size DeviceJobParameter.shotsnum)
        4
        (some (replicate 4 1)))
      (job_set_parameter (some job) DeviceJobParameter.shotsnum 4 (some (replicate 4 1)))
    × OfReply
        (Interface.JobQueryProperty
          (some job)
          DeviceJobProperty.programsnum
          (data_of_job (some job) DeviceJobProperty.programsnum)
          buffer)
        (job_query_property (some job) DeviceJobProperty.programsnum buffer)
    × Interface.JobCancel
        (Option.map (λ (j : Job). j.status) (some job))
        (cancel dev (some job)).code
    × Interface.JobCheck (some job) true (check rnd dev (some job) true).0.code
    × Interface.JobWait (some job) (wait dev (some job) 0).code
    × Interface.JobGetProgramStatus (some job) (get_program_status (some job) 0)
    × OfReply
        (Interface.JobGetProgram (some job) (program_at (some job) 0) buffer)
        (get_program (some job) 0 buffer)
jobs-Documented_example =
    jobs-Documented rnd dev (some job) DeviceJobParameter.shotsnum 4 DeviceJobProperty.programsnum 0
      0 (some (replicate 4 1)) true buffer refl
