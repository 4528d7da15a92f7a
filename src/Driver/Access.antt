-- ===== src/Driver/Access.antt =====
-- What a client of the example driver in examples/driver/qdmi_example_driver.cpp may do with a
-- session, by the token that it sets.
use qdmi.Base.{
  Option, ℕ, suc, ◌-◌, ◌*◌, ◌==◌, ◌<◌, ◌≡◌, refl, sym, Bool, true, false, none, some, List, [], ◌∷◌,
  ◌++◌, arith, length, length-append, length-map, map, take-append, ltb_of_le, Bool-cases, inl, inr,
}
use qdmi.Base.Bytes.{Bytes, encode_all, length-encode_all}
use qdmi.Constants.{success, error_permission_denied, is_invalid_enum_value}
use qdmi.Constants.SessionParameter
use qdmi.Constants.SessionProperty
use qdmi.Constants.DeviceProperty
use qdmi.Output.{Reply, Request, is_empty_buffer}
use qdmi.Output.Serves.{IsContract, Serves, copy-Serves, empty_buffer-Serves}
use qdmi.Device.Session.{read_bytes}
use qdmi.Driver.{
  Library, Run, ConfiguredDevice, ClientDevice, ClientSession, allocated, initialized, readonly,
  Outcome, all_open, gave_up, open_devices, finish_init, mode_of, session_init,
}
use qdmi.Driver.Client.{
  query_device_property, session_set_parameter, store_token, create_job, query_session_property,
}

read_bytes-append : (n : ℕ) (t rest : Bytes) → n ≡ length t → read_bytes n (t ++ rest) ≡ some t
read_bytes-append n t rest e = rw (
  e,
  ltb_of_le (length (t ++ rest)) (length t) (omega (arith, length-append t rest)),
  take-append t rest,
)

store_token-append :
    (s : ClientSession) (t rest : Bytes)
    → store_token s (suc (length t)) (some (t ++ rest))
      ≡ some (success, some (record s { token = some t }))
store_token-append s t rest =
    rw (store_token, read_bytes-append (suc (length t) - 1) t rest (omega arith))

-- A token is stored without the terminator that ends it.
token-set :
    (s : ClientSession) (t : Bytes)
    → s.status ≡ allocated
    → session_set_parameter (some s) SessionParameter.token (suc (length t)) (some (t ++ 0 ∷ []))
      ≡ some (success, some (record s { token = some t }))
unfolding session_set_parameter is_invalid_enum_value
token-set s t a =
    let z : (suc (length t) == 0) ≡ false = ground arith in
    rw (z, a) (store_token-append (record s { status = allocated }) t (0 ∷ []))

module _ {S : Type 0} (libs : ℕ → Library S) where
  finish_init-mode : (s : ClientSession) (o : Outcome S) → (finish_init libs s o).1.mode ≡ s.mode
  finish_init-mode s (all_open ds run) = refl
  finish_init-mode s (gave_up c run) = refl

  session_init-mode :
      (memory : ℕ → Bool) (address : ℕ) (configs : List ConfiguredDevice) (s : ClientSession)
      (t : Bytes) (run : Run S)
      → s.status ≡ allocated
      → s.token ≡ some t
      → (session_init libs memory address configs s run).1.mode ≡ mode_of t
  unfolding session_init
  session_init-mode memory address configs s t run a e =
      rw (a, e)
        (finish_init-mode (record s { status = allocated; token = some t; mode = mode_of t })
          (open_devices libs memory 0 address t configs [] run))

  -- If the client sets a token of length n before it starts a session, then afterwards no job can
  -- be created through any device of that session where n is 0, whatever the libraries do: the
  -- call returns PERMISSIONDENIED and no library is asked.

  create_job-readonly :
      (d : ClientDevice) (s : ClientSession) (memory : Bool) (state : S)
      → s.mode ≡ readonly
      → create_job libs (some (d, s)) true memory state ≡ (error_permission_denied, none, state)
  unfolding create_job
  create_job-readonly d s memory state e = rw e

  -- If the client sets the empty token before it starts a session, then afterwards no job is
  -- created through a device with that session, whatever init returned and whatever the libraries
  -- do: the call returns PERMISSIONDENIED and no library is asked.
  pub empty_token-readonly :
      (memory : ℕ → Bool) (address : ℕ) (configs : List ConfiguredDevice) (s : ClientSession)
      (run : Run S) (d : ClientDevice) (room : Bool) (state : S)
      → s.status ≡ allocated
      → (s1 : ClientSession) × (session_set_parameter
            (some s)
            SessionParameter.token
            1
            (some (0 ∷ []))
          ≡ some (success, some s1))
        × (create_job libs
              (some (d, (session_init libs memory address configs s1 run).1))
              true
              room
              state
            ≡ (error_permission_denied, none, state))
  empty_token-readonly memory address configs s run d room state a =
      let s1 = record s { token = some [] } in
      (
        s1,
        token-set s [] a,
        create_job-readonly d (session_init libs memory address configs s1 run).1 room state
            (session_init-mode memory address configs s1 [] run a refl),
      )

-- The session property DEVICES of an initialized session with at least one device is served as the
-- addresses of its devices, in their order.
pub query_session_property-Serves :
    (address : ClientDevice → ℕ) (s : ClientSession) (r : Request)
    → s.status ≡ initialized
    → 0 < length s.device_list
    → IsContract r
    → Serves
        (encode_all 8 (map address s.device_list))
        r
        (query_session_property address (some s) SessionProperty.devices r)
unfolding query_session_property is_invalid_enum_value
query_session_property-Serves address s r i p c =
    let bytes = encode_all 8 (map address s.device_list) in
    let e : length (map address s.device_list) * 8 ≡ length bytes =
      sym (length-encode_all 8 (map address s.device_list)) in
    elim (Bool-cases (is_empty_buffer r)) [
      | inl empty ↦
          rw empty
            (empty_buffer-Serves bytes r (omega (arith, e, length-map address s.device_list)) empty)
      | inr usable ↦ rw (usable, i) (copy-Serves bytes _ r e c)
    ]

-- The device property ID is served as the id of the configuration with its terminator, whatever
-- the query of the device library would say.
device_id-Serves :
    (forward : ClientDevice → ℕ → Request → Option Reply) (d : ClientDevice) (r : Request)
    → IsContract r
    → Serves (d.id ++ 0 ∷ []) r (query_device_property forward (some d) DeviceProperty.id r)
unfolding query_device_property
device_id-Serves forward d r c =
    copy-Serves (d.id ++ 0 ∷ []) _ r (omega (arith, length-append d.id (0 ∷ []))) c
