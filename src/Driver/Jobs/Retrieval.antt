-- ===== src/Driver/Jobs/Retrieval.antt =====
-- When QDMI_session_retrieve_job_by_id of examples/driver/qdmi_example_driver.cpp gives a job.
use qdmi.Base.{ℕ, ◌≡◌, ◌≢◌, refl, Bool, true, false, Option, none, some, [], ◌∷◌}
use qdmi.Base.Bytes.{Bytes}
use qdmi.Constants.{Code, success}
use qdmi.Driver.{ClientDevice, ClientSession, ClientJob, Mode, readonly, readwrite}
use qdmi.Driver.Jobs.{
  DeviceFunctions, Retrieved, returned, out_of_memory, stuck, finish_retrieval, retrieve_with,
  retrieve_in, retrieve_job_by_id,
}

-- A job came back: its device and the handle are the ones that the library was asked for.
pub record Granted {S : Type 0} (f : DeviceFunctions S) (d : ClientDevice) (m : Mode) (s : S)
    (job_id : Bytes) (job : ClientJob) (s' : S) : Type 0 where
  pub writable : m ≡ readwrite
  pub same_device : job.device ≡ d
  pub retrieve : ℕ → Bytes → S → Option (Code × ℕ × S)
  pub offered : f.retrieve_device_job_by_id ≡ some retrieve
  pub found : retrieve d.device_session job_id s ≡ some (success, job.device_job, s')

-- The results: a job with SUCCESS, or no job and an error. Without write access nothing is asked of
-- the library, whose state stays.
pub data Retrieval {S : Type 0} (f : DeviceFunctions S) (d : ClientDevice) (m : Mode) (s : S)
    (job_id : Bytes) : Retrieved S → Type 0 where
  granted :
      (job : ClientJob) (s' : S)
      → Granted f d m s job_id job s'
      → Retrieval f d m s job_id (returned success (some job) s')
  refused :
      (c : Code) (s' : S)
      → c ≢ success
      → (m ≡ readonly → s' ≡ s)
      → Retrieval f d m s job_id (returned c none s')
  exhausted : m ≡ readwrite → Retrieval f d m s job_id out_of_memory
  broken : m ≡ readwrite → Retrieval f d m s job_id stuck

module _ {S : Type 0} (libs : ℕ → DeviceFunctions S) (d : ClientDevice) (s : S)
    (job_id : Bytes) where
  finish-Retrieval :
      (retrieve : ℕ → Bytes → S → Option (Code × ℕ × S)) (r : Option (Code × ℕ × S))
      → (libs d.library).retrieve_device_job_by_id ≡ some retrieve
      → retrieve d.device_session job_id s ≡ r
      → Retrieval (libs d.library) d readwrite s job_id (finish_retrieval libs d s r)
  finish-Retrieval retrieve none offered e = broken refl
  finish-Retrieval retrieve (some (success, h, s')) offered e = granted _ _ (record {
    writable = refl;
    same_device = refl;
    retrieve = retrieve;
    offered = offered;
    found = e;
  })
  finish-Retrieval retrieve (some (c, h, s')) offered e = refused _ _ (λ n. cc) (λ n. cc)

  with-Retrieval :
      (memory : Bool) (f : Option (ℕ → Bytes → S → Option (Code × ℕ × S)))
      → (libs d.library).retrieve_device_job_by_id ≡ f
      → Retrieval (libs d.library) d readwrite s job_id (retrieve_with libs d memory job_id s f)
  with-Retrieval memory none e = refused _ _ (λ n. cc) (λ _. refl)
  with-Retrieval false (some retrieve) e = exhausted refl
  with-Retrieval true (some retrieve) e =
      finish-Retrieval retrieve (retrieve d.device_session job_id s) e refl

  in-Retrieval :
      (memory : Bool) (m : Mode)
      → Retrieval (libs d.library) d m s job_id (retrieve_in libs m d memory job_id s)
  in-Retrieval memory readonly = refused _ _ (λ n. cc) (λ _. refl)
  in-Retrieval memory readwrite = with-Retrieval memory _ refl

-- For a device and an identifier that are not null: a job comes back exactly with SUCCESS, only in
-- a session with write access, and it is the one that the library's function returned for this
-- device session and identifier. Every other result has no job and an error code, but where the
-- memory does not suffice or the library's function is undefined. Without write access the
-- library's state stays as it is.
pub retrieve_job_by_id-Retrieval :
    {S : Type 0} (libs : ℕ → DeviceFunctions S) (d : ClientDevice) (session : ClientSession)
    (job_id : Bytes) (out memory : Bool) (s : S)
    → Retrieval
        (libs d.library)
        d
        session.mode
        s
        job_id
        (retrieve_job_by_id libs (some (d, session)) (some job_id) out memory s)
unfolding retrieve_job_by_id
retrieve_job_by_id-Retrieval libs d session [] out memory s = refused _ _ (λ n. cc) (λ _. refl)
retrieve_job_by_id-Retrieval libs d session (c ∷ job_id) false memory s =
    refused _ _ (λ n. cc) (λ _. refl)
retrieve_job_by_id-Retrieval libs d session (c ∷ job_id) true memory s =
    in-Retrieval libs d s (c ∷ job_id) memory session.mode
