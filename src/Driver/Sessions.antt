-- ===== src/Driver/Sessions.antt =====
-- What QDMI_session_init and QDMI_session_free of examples/driver/qdmi_example_driver.cpp do with
-- the device sessions of the libraries.
use qdmi.Base.{ℕ, ◌≡◌, ◌≢◌, refl, Bool, Option, none, some, List, []}
use qdmi.Base.Bytes.{Bytes}
use qdmi.Constants.{Code, success, error_permission_denied}
use qdmi.Driver.{
  Library, Run, ConfiguredDevice, ClientSession, allocated, initialized, Outcome, all_open, gave_up,
  open_devices, finish_init, init_with, mode_of, session_init, session_delete,
}
use qdmi.Driver.Balance.{
  IsBalanced, AreOf, OutcomeBalanced, open_devices-Balanced, free_devices-IsBalanced,
}

-- What QDMI_session_init may have done to a session that is not initialized.
pub data Started {S : Type 0} (libs : ℕ → Library S) (others : ℕ → ℕ → ℕ)
    (configs : List ConfiguredDevice) : Code × ClientSession × Run S → Type 0 where
  -- it is initialized, and holds a device for each configured one, in their order, each with a
  -- device session that its library handed out
  started :
      (s : ClientSession) (run : Run S)
      → s.status ≡ initialized
      → AreOf libs configs s.device_list
      → IsBalanced others s.device_list run.events
      → Started libs others configs (success, s, run)
  -- an error: the session is as new, and no device is open for it
  not_started :
      (c : Code) (s : ClientSession) (run : Run S)
      → c ≢ success
      → s.status ≡ allocated
      → s.device_list ≡ []
      → IsBalanced others [] run.events
      → Started libs others configs (c, s, run)

module _ {S : Type 0} (libs : ℕ → Library S) (others : ℕ → ℕ → ℕ) where
  finish_init-Started :
      (configs : List ConfiguredDevice) (s : ClientSession) (o : Outcome S)
      → s.status ≡ allocated
      → s.device_list ≡ []
      → OutcomeBalanced libs others configs [] o
      → Started libs others configs (finish_init libs s o)
  finish_init-Started configs s (all_open ds run) a e (later, same, are, b) =
      started (record s { device_list = ds; status = initialized }) run refl (rw same are) b
  finish_init-Started configs s (gave_up c run) a e (n, b) = not_started c s run n a e b

  init_with-Started :
      (memory : ℕ → Bool) (address : ℕ) (configs : List ConfiguredDevice) (s : ClientSession)
      (token : Option Bytes) (run : Run S)
      → s.status ≡ allocated
      → s.device_list ≡ []
      → IsBalanced others [] run.events
      → Started libs others configs (init_with libs memory address configs s token run)
  init_with-Started memory address configs s none run a e b =
      not_started error_permission_denied s run (λ x. cc) a e b
  init_with-Started memory address configs s (some token) run a e b =
      finish_init-Started configs (record s { mode = mode_of token })
        (open_devices libs memory 0 address token configs [] run) a e
        (open_devices-Balanced libs others memory 0 address token configs [] run b)

  -- If the account of opened and freed device sessions is even for a session that is not
  -- initialized and has no devices, then QDMI_session_init either succeeds, and the session holds
  -- one device for each configured one, in their order and with their ids, each with a device
  -- session that session_alloc of its library handed out with success, and each handle that is not
  -- null is open once for each device that holds it; or it returns an error, and every device
  -- session that was opened on the way is freed, exactly once.
  pub session_init-Started :
      (memory : ℕ → Bool) (address : ℕ) (configs : List ConfiguredDevice) (s : ClientSession)
      (run : Run S)
      → s.status ≡ allocated
      → s.device_list ≡ []
      → IsBalanced others [] run.events
      → Started libs others configs (session_init libs memory address configs s run)
  unfolding session_init
  session_init-Started memory address configs s run a e b = rw a (
      init_with-Started memory address configs (record s { status = allocated }) s.token run refl e
        b)

  Started-freed :
      (configs : List ConfiguredDevice) {r : Code × ClientSession × Run S}
      → Started libs others configs r
      → IsBalanced others [] (session_delete libs r.1 r.2).events
  unfolding session_delete
  Started-freed configs (started s run i are b) =
      free_devices-IsBalanced libs others s.device_list run b
  Started-freed configs (not_started c s run n a e b) =
      free_devices-IsBalanced libs others s.device_list run (rw e b)

  -- Whatever QDMI_session_init returns for a new session, after QDMI_session_free every device
  -- session that a library handed out for it has been given back, exactly once.
  pub session_delete-IsBalanced :
      (memory : ℕ → Bool) (address : ℕ) (configs : List ConfiguredDevice) (s : ClientSession)
      (run : Run S)
      → s.status ≡ allocated
      → s.device_list ≡ []
      → IsBalanced others [] run.events
      → let r = session_init libs memory address configs s run in
        IsBalanced others [] (session_delete libs r.1 r.2).events
  session_delete-IsBalanced memory address configs s run a e b =
      Started-freed configs (session_init-Started memory address configs s run a e b)
