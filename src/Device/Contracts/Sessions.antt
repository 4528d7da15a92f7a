-- ===== src/Device/Contracts/Sessions.antt =====
-- The functions of examples/device/src/cxx_device.cpp on the device and its sessions, and the query
-- of the device, return the codes that include/qdmi/device.h documents.
use qdmi.Base.{
  ℕ, ◌≡◌, ◌⊎◌, inl, inr, refl, Bool, true, false, Option, none, some, Bool-cases, Option-cases,
  lookup,
}
use qdmi.Base.Bytes.{Bytes}
use qdmi.Constants.{error_invalid_argument, error_bad_state, is_invalid_enum_value}
use qdmi.Constants.DeviceProperty
use qdmi.Output.{Request, Reply, fail, is_empty_buffer}
use qdmi.Output.Serves.{IsContract}
use qdmi.Device.State.{Session, SessionStatus, allocated, initialized, DeviceState, Build, Random}
use qdmi.Device.Session.{
  device_initialize, device_finalize, session_init, session_set_parameter, create_device_job,
}
use qdmi.Device.Query.{query_device_property, query_site_property}
use qdmi.Device.Query.Tables.{
  device_table, device_table-IsFull, query_device_property-Serves,
  query_device_property_unsupported,
}
use qdmi.Device.Contracts.{
  was_initialized, no_cause, session_init-Documented, create_device_job-Documented,
  session_set_parameter-Documented,
}
use qdmi.Device.Contracts.Sites.{data_of_site, query_site_property-Documented}
use qdmi.Device.Contracts.Reply.{OfReply, Serves-Documented, empty-IsSmall}
use qdmi.Interface.{Documented, invalid, caused, succeeded, reported, IsSmall, OfCode}
use qdmi.Interface

module _ (b : Build) (dev : DeviceState) (s : Session) (prop : ℕ) (r : Request) (h : IsContract r)
    (valid : is_invalid_enum_value prop DeviceProperty.max_value ≡ false) where
  fine : ¬ ((some s ≡ none) ⊎ (is_invalid_enum_value prop DeviceProperty.max_value ≡ true))
  fine = no_cause (λ n. cc) (λ n. cc)

  abbrev data_of : Option Bytes
  data_of = lookup prop (device_table b dev.status)

  abbrev IsQuery : Option Reply → Type 0
  IsQuery = OfReply (Interface.QueryDeviceProperty (some s) prop data_of r)

  started-Documented :
      s.status ≡ initialized
      → is_empty_buffer r ≡ false
      → IsQuery (query_device_property b dev (some s) prop r)
  started-Documented ready usable = elim (Option-cases data_of) [
    | inl nothing ↦
        rw (query_device_property_unsupported b dev s prop r ready valid nothing usable h)
          (reported _ fine (inl refl))
    | inr (payload, found) ↦ rw found (
        Serves-Documented _ _ payload r _ fine
          (query_device_property-Serves b dev s prop r payload ready valid found h))
  ]

  query_not_started :
      s.status ≡ allocated
      → is_empty_buffer r ≡ false
      → query_device_property b dev (some s) prop r ≡ some (fail r error_bad_state)
  unfolding query_device_property
  query_not_started e usable = rw (query_device_property, usable, valid, e)

  usable-Documented :
      (status : SessionStatus)
      → s.status ≡ status
      → is_empty_buffer r ≡ false
      → IsQuery (query_device_property b dev (some s) prop r)
  usable-Documented allocated e usable =
      rw (query_not_started e usable) (reported _ fine (inr (inl refl)))
  usable-Documented initialized e usable = started-Documented e usable

  query_empty :
      is_empty_buffer r ≡ true
      → query_device_property b dev (some s) prop r ≡ some (fail r error_invalid_argument)
  unfolding query_device_property
  query_empty e = rw (query_device_property, e)

  valid-Documented : IsQuery (query_device_property b dev (some s) prop r)
  valid-Documented = elim (Bool-cases (is_empty_buffer r)) [
    | inl empty ↦
        rw (query_empty empty)
          (caused fine (empty-IsSmall prop _ r (device_table-IsFull b dev.status) empty))
    | inr usable ↦ usable-Documented s.status refl usable
  ]

query_invalid :
    (b : Build) (dev : DeviceState) (s : Session) (prop : ℕ) (r : Request)
    → is_invalid_enum_value prop DeviceProperty.max_value ≡ true
    → query_device_property b dev (some s) prop r ≡ some (fail r error_invalid_argument)
unfolding query_device_property
query_invalid b dev s prop r e = elim (Bool-cases (is_empty_buffer r)) [
  | inl empty ↦ rw (query_device_property, empty)
  | inr usable ↦ rw (query_device_property, usable, e)
]

query_device_property-Documented :
    (b : Build) (dev : DeviceState) (session : Option Session) (prop : ℕ) (r : Request)
    → IsContract r
    → OfReply
        (Interface.QueryDeviceProperty session prop (lookup prop (device_table b dev.status)) r)
        (query_device_property b dev session prop r)
unfolding query_device_property
query_device_property-Documented b dev none prop r h = invalid (inl refl)
query_device_property-Documented b dev (some s) prop r h =
    elim (Bool-cases (is_invalid_enum_value prop DeviceProperty.max_value)) [
      | inl bad ↦ rw (query_invalid b dev s prop r bad) (invalid (inr bad))
      | inr valid ↦ valid-Documented b dev s prop r h valid
    ]

-- For any handle of a session, null or not: initialize, finalize, create_device_job, set_parameter
-- and the queries of the device and of a site return only codes that are documented,
-- INVALIDARGUMENT whenever the arguments are invalid and otherwise only for a documented cause,
-- whatever the arguments, as long as a call reads no memory that is not its client's; and so does
-- session_init for a session that was not initialized before, null or not.
pub sessions-Documented :
    (b : Build) (rnd : Random) (dev : DeviceState) (address : ℕ) (session new : Option Session)
    (param size site site_prop prop : ℕ) (value : Option Bytes) (out : Bool) (r : Request)
    → IsContract r
    → was_initialized new ≡ false
    → Interface.DeviceInitialize (device_initialize dev).0
      × Interface.DeviceFinalize (device_finalize dev).0
      × Interface.SessionInit new (was_initialized new) (session_init dev new).0
      × Interface.CreateDeviceJob session out (create_device_job rnd dev address session out).code
      × OfCode
          (Interface.SessionSetParameter session param size value)
          (session_set_parameter session param size value)
      × OfReply
          (Interface.QuerySiteProperty session site site_prop (data_of_site b site site_prop) r)
          (query_site_property b session site site_prop r)
      × OfReply
          (Interface.QueryDeviceProperty session prop (lookup prop (device_table b dev.status)) r)
          (query_device_property b dev session prop r)
unfolding device_initialize device_finalize
sessions-Documented b rnd dev address session new param size site site_prop prop value out r h n = (
  succeeded (λ n. n),
  succeeded (λ n. n),
  session_init-Documented dev new n,
  create_device_job-Documented rnd dev address session out,
  session_set_parameter-Documented session param size value,
  query_site_property-Documented b session site site_prop r h,
  query_device_property-Documented b dev session prop r h,
)
