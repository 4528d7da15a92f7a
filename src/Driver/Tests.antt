-- ===== src/Driver/Tests.antt =====
-- The theorems on the sessions of the example driver at concrete inputs: two configured devices of
-- one library, which starts the first device session and not the second; and a driver that loads
-- one library for two sessions.
use qdmi.Base.{
  ℕ, suc, ◌≡◌, ◌↔◌, refl, true, some, none, List, [], ◌∷◌, replicate, map, if◌then◌else◌, ◌==◌,
  arith,
}
use qdmi.Base.Bytes.{text, encode_all}
use qdmi.Constants.{success, error_fatal, error_permission_denied}
use qdmi.Constants.SessionParameter
use qdmi.Constants.SessionProperty
use qdmi.Output.{Request}
use qdmi.Output.Serves.{Serves}
use qdmi.Driver.{
  Library, Run, ConfiguredDevice, ClientDevice, ClientSession, initialized, readwrite, new_session,
  session_init, session_delete,
}
use qdmi.Driver.Client.{session_set_parameter, create_job, query_session_property}
use qdmi.Driver.Balance.{IsBalanced}
use qdmi.Driver.Sessions.{Started, session_init-Started, session_delete-IsBalanced}
use qdmi.Driver.Libraries.{
  Loader, library_opened, library_closed, device_initialized, device_finalized, load_library,
  destroy_library, destroy_libraries, read_lines, find_library, is_same_text, words_from,
}
use qdmi.Driver.Libraries.Balance.{opens, closes, starts, ends}
use qdmi.Driver.Life.{
  DriverState, DriverCall, alloc_session, free_session, driver_calls,
  session_alloc as driver_session_alloc, session_free, driver_calls-closed,
}
use qdmi.Driver.Paths.{FileSystem, config_lines, IsConfig, config_lines-IsConfig}
use qdmi.Driver.Access.{empty_token-readonly, query_session_property-Serves}

-- The state counts the handles that were given out.
abbrev library : Library ℕ
library = record {
  create_device_job = λ h n. (success, 9, n);
  session_alloc = λ n. (success, suc n, suc n);
  session_set_parameter = λ h param token n. (success, n);
  session_init = λ h n. (if h == 2 then error_fatal else success, n);
  session_free = λ h n. n;
}

abbrev configs : List ConfiguredDevice
configs = record { library = 0; id = text "a" } ∷ record { library = 0; id = text "b" } ∷ []

abbrev with_token : ClientSession
with_token = record new_session { token = some (text "t") }

abbrev idle_run : Run ℕ
idle_run = record { state = 0; events = [] }

abbrev device : ClientDevice
device = record { library = 0; session = 5; device_session = 1; id = text "a" }

abbrev open_session : ClientSession
open_session = record with_token {
  status = initialized;
  device_list = device ∷ [];
  mode = readwrite;
}

abbrev pointer_buffer : Request
pointer_buffer = record { size = 8; value = some (replicate 8 255); size_ret = true }

session_init-Started_example :
    Started
      (λ _. library)
      (λ _ _. 0)
      configs
      (session_init (λ _. library) (λ _. true) 5 configs with_token idle_run)
session_init-Started_example =
    session_init-Started (λ _. library) (λ _ _. 0) (λ _. true) 5 configs with_token idle_run refl
      refl (λ l h. refl)

session_delete-IsBalanced_example :
    IsBalanced
      (λ _ _. 0)
      []
      (session_delete
        (λ _. library)
        (session_init (λ _. library) (λ _. true) 5 configs with_token idle_run).1
        (session_init (λ _. library) (λ _. true) 5 configs with_token idle_run).2).events
session_delete-IsBalanced_example =
    session_delete-IsBalanced (λ _. library) (λ _ _. 0) (λ _. true) 5 configs with_token idle_run
      refl refl (λ l h. refl)

empty_token-readonly_example :
    (s1 : ClientSession) × (session_set_parameter
        (some new_session)
        SessionParameter.token
        1
        (some (0 ∷ []))
      ≡ some (success, some s1))
    × (create_job
          (λ _. library)
          (some (device, (session_init (λ _. library) (λ _. true) 5 configs s1 idle_run).1))
          true
          true
          3
        ≡ (error_permission_denied, none, 3))
empty_token-readonly_example =
    empty_token-readonly (λ _. library) (λ _. true) 5 configs new_session idle_run device true 3
      refl

query_session_property-Serves_example :
    Serves (encode_all 8 (map (λ _. 4096) (device ∷ []))) pointer_buffer (
      query_session_property (λ _. 4096) (some open_session) SessionProperty.devices pointer_buffer)
query_session_property-Serves_example =
    query_session_property-Serves (λ _. 4096) open_session pointer_buffer refl (omega arith) refl

abbrev loader : Loader ℕ
loader = record {
  open_library = λ name. 7;
  has_symbols = λ h prefix. true;
  device_initialize = λ h prefix n. (success, suc n);
  device_finalize = λ h prefix n. n;
}

abbrev two_sessions : List DriverCall
two_sessions =
    alloc_session true true (λ _. true) (some (text "lib A a" ∷ text "#" ∷ []))
    ∷ alloc_session true true (λ _. true) none
    ∷ free_session
    ∷ free_session
    ∷ []

abbrev released : DriverState ℕ
released = record {
  libraries = [];
  configured_devices = [];
  sessions = 0;
  run = record {
    state = 1;
    events =
        library_closed 7
        ∷ device_finalized 7 (text "A")
        ∷ device_initialized 7 (text "A")
        ∷ library_opened 7
        ∷ [];
  };
}

driver_calls-closed_example :
    ((h : ℕ) → opens h released.run.events ≡ closes h released.run.events)
    × ((h : ℕ) (p : List ℕ) → starts h p released.run.events ≡ ends h p released.run.events)
unfolding driver_calls driver_session_alloc session_free load_library destroy_library
    destroy_libraries read_lines find_library is_same_text words_from
driver_calls-closed_example = driver_calls-closed loader two_sessions 0 released refl refl

-- The configuration lies in a directory of the user's.
abbrev file_system : FileSystem
file_system = record {
  current_path = some (text "/" ∷ text "tmp" ∷ []);
  canonical = λ name.
      if is_same_text name (text "/home/me")
      then some (text "/" ∷ text "home" ∷ text "me" ∷ [])
      else some (text "/" ∷ text "home" ∷ text "me" ∷ text "qdmi.conf" ∷ []);
  lines = λ path. some (text "# nothing" ∷ []);
}

config_lines-IsConfig_example :
    (config_lines file_system none (some (text "/home/me")) ≡ some (text "# nothing" ∷ []))
    ↔ IsConfig file_system none (some (text "/home/me")) (text "# nothing" ∷ [])
config_lines-IsConfig_example =
    config_lines-IsConfig file_system none (some (text "/home/me")) (text "# nothing" ∷ [])
