-- ===== src/Driver.antt =====
-- examples/driver/qdmi_example_driver.cpp: the sessions of the example driver, each of which owns
-- one device session for every configured device. The device libraries are loaded when the program
-- runs, so their functions are parameters, on a state that all of them share. A session handle of
-- a library is a number, 0 for a null pointer. The calls that open and free device sessions are
-- recorded, the latest first.
pub mod Balance
pub mod Client
pub mod Access
pub mod Libraries
pub mod Life
pub mod Sessions
pub mod Jobs
pub mod Paths
mod Tests
use qdmi.Base.{
  ℕ, zero, suc, ◌+◌, ◌-◌, ◌*◌, Bool, true, false, not, ◌&&◌, ◌||◌, Option, none, some, List, [],
  ◌∷◌, ◌++◌, ◌==◌, if◌then◌else◌, is_empty, length, map,
}
use qdmi.Base.Bytes.{Bytes, encode_all}
use qdmi.Constants.{
  Code, success, error_out_of_mem, error_invalid_argument, error_not_supported, error_bad_state,
  error_permission_denied, is_invalid_enum_value,
}
use qdmi.Constants.DeviceSessionParameter
use qdmi.Constants.SessionParameter
use qdmi.Constants.SessionProperty
use qdmi.Output.{Request, Reply, fail, is_empty_buffer, answer, overwrite}
use qdmi.Device.Session.{is_empty_value, read_bytes}

-- The functions of a device library that the driver's sessions and devices call.
pub record Library (S : Type 0) : Type 0 where
  pub create_device_job : ℕ → S → Code × ℕ × S
  pub session_alloc : S → Code × ℕ × S
  pub session_set_parameter : ℕ → ℕ → Bytes → S → Code × S
  pub session_init : ℕ → S → Code × S
  pub session_free : ℕ → S → S

-- A device session that a library handed out, or was given back: the library and the handle.
pub data Event : Type 0 where
  opened freed : ℕ → ℕ → Event

pub record Run (S : Type 0) : Type 0 where
  pub state : S
  pub events : List Event

-- `QDMI_Configured_Device`; a library is its index.
pub record ConfiguredDevice : Type 0 where
  pub library : ℕ
  pub id : Bytes

-- `QDMI_Device_impl_d`; `session` is the address of the driver's session.
pub record ClientDevice : Type 0 where
  pub library : ℕ
  pub session : ℕ
  pub device_session : ℕ
  pub id : Bytes

pub data Mode : Type 0 where
  readonly readwrite : Mode

pub data ClientStatus : Type 0 where
  allocated initialized : ClientStatus

-- `QDMI_Session_impl_d`.
pub record ClientSession : Type 0 where
  pub status : ClientStatus
  pub device_list : List ClientDevice
  pub token : Option Bytes
  pub mode : Mode

-- `new QDMI_Session_impl_d()`
abbrev pub new_session : ClientSession
new_session = record { status = allocated; device_list = []; token = none; mode = readonly }

abbrev pub is_success : Code → Bool
is_success success = true
is_success _ = false

abbrev pub is_accepted : Code → Bool
is_accepted success = true
is_accepted error_not_supported = true
is_accepted _ = false

-- `QDMI_Job_impl_d`.
pub record ClientJob : Type 0 where
  pub device : ClientDevice
  pub device_job : ℕ

-- The access that a token gives.
abbrev pub mode_of : Bytes → Mode
mode_of token = if is_empty token then readonly else readwrite

-- What a handle that was written to an out-parameter adds to the events.
abbrev pub note_opened : ℕ → ℕ → List Event → List Event
note_opened lib h events = if h == 0 then events else opened lib h ∷ events

-- One round of the loop in session_init: the device is there, or the round returned.
pub data Round (S : Type 0) : Type 0 where
  ready : ClientDevice → Run S → Round S
  returned : Code → Run S → Round S

-- The loop: all devices are there, or the function returned and freed those that were.
pub data Outcome (S : Type 0) : Type 0 where
  all_open : List ClientDevice → Run S → Outcome S
  gave_up : Code → Run S → Outcome S

module _ {S : Type 0} (libs : ℕ → Library S) where
  -- `~QDMI_Device_impl_d`.
  unfoldable pub free_device : ClientDevice → Run S → Run S
  free_device d run = if d.device_session == 0 then run else record {
    state = (libs d.library).session_free d.device_session run.state;
    events = freed d.library d.device_session ∷ run.events;
  }

  -- The destructor of the device list, from the front.
  unfoldable pub free_devices : List ClientDevice → Run S → Run S
  free_devices [] run = run
  free_devices (d ∷ ds) run = free_devices ds (free_device d run)

  -- `device_session_init` and what follows it in the round; the flag tells whether the device list
  -- can grow.
  abbrev pub start_device : Bool → ClientDevice → List Event → Code × S → Round S
  start_device room d events (c, s) =
      if not (is_success c)
      then returned c (free_device d (record { state = s; events = events }))
      else if not room
      then returned error_out_of_mem (free_device d (record { state = s; events = events }))
      else ready d (record { state = s; events = events })

  -- The token is passed with its terminator.
  abbrev pub configure_device : Bool → ClientDevice → List Event → Code × S → Round S
  configure_device room d events (c, s) =
      if not (is_accepted c)
      then returned c (free_device d (record { state = s; events = events }))
      else start_device room d events ((libs d.library).session_init d.device_session s)

  abbrev pub set_up_device : Bool → Bytes → ClientDevice → List Event → Code × S → Round S
  set_up_device room token d events (c, s) =
      if not (is_success c)
      then returned c (free_device d (record { state = s; events = events }))
      else configure_device room d events (
          (libs d.library).session_set_parameter d.device_session DeviceSessionParameter.token
            (token ++ zero ∷ []) s)

  -- The round for one configured device. The flags tell whether the device can be allocated, and
  -- whether the device list can grow.
  unfoldable pub open_device : Bool → Bool → ℕ → Bytes → ConfiguredDevice → Run S → Round S
  open_device memory room address token config run =
      if not memory
      then returned error_out_of_mem run
      else let (c, h, s) = (libs config.library).session_alloc run.state in
        let d : ClientDevice = record {
          library = config.library;
          session = address;
          device_session = h;
          id = config.id;
        } in
        set_up_device room token d (note_opened config.library h run.events) (c, s)

  -- The loop, from round i on, with the devices of the rounds before. `memory k` tells whether
  -- allocation k of the call succeeds.
  unfoldable pub open_devices :
      (ℕ → Bool) → ℕ → ℕ → Bytes → List ConfiguredDevice → List ClientDevice → Run S → Outcome S
  open_devices memory i address token [] before run = all_open before run
  open_devices memory i address token (config ∷ configs) before run =
      elim (open_device (memory (2 * i)) (memory (2 * i + 1)) address token config run) [
        | returned c run' ↦ gave_up c (free_devices before run')
        | ready d run' ↦ open_devices memory (suc i) address token configs (before ++ d ∷ []) run'
      ]

  abbrev pub finish_init : ClientSession → Outcome S → Code × ClientSession × Run S
  finish_init s (all_open devices run) =
      (success, record s { device_list = devices; status = initialized }, run)
  finish_init s (gave_up c run) = (c, s, run)

  abbrev pub init_with :
      (ℕ → Bool)
      → ℕ
      → List ConfiguredDevice
      → ClientSession
      → Option Bytes
      → Run S
      → Code × ClientSession × Run S
  init_with memory address configs s none run = (error_permission_denied, s, run)
  init_with memory address configs s (some token) run =
      finish_init (record s { mode = mode_of token })
        (open_devices memory 0 address token configs [] run)

  -- QDMI_session_init, for a session that is not null.
  unfoldable pub session_init :
      (ℕ → Bool) → ℕ → List ConfiguredDevice → ClientSession → Run S → Code × ClientSession × Run S
  session_init memory address configs s run = elim s.status [
    | initialized ↦ (error_bad_state, s, run)
    | allocated ↦ init_with memory address configs s s.token run
  ]

  -- `delete session` in QDMI_session_free.
  unfoldable pub session_delete : ClientSession → Run S → Run S
  session_delete s run = free_devices s.device_list run
