-- ===== src/Device/Session/Laws.antt =====
-- The order in which a session of the reference device is configured and started: set_parameter
-- and init of examples/device/src/cxx_device.cpp together.
use qdmi.Base.{
  take-length, ℕ, ◌<◌, ◌≡◌, ◌≢◌, refl, Option, none, some, [], ◌∷◌, Bool, true, false, ◌||◌, ◌==◌,
  if◌then◌else◌, arith, length, ltb_of_le,
}
use qdmi.Base.Bytes.{Bytes}
use qdmi.Constants.{Code, success, error_bad_state, error_invalid_argument, is_invalid_enum_value}
use qdmi.Constants.DeviceSessionParameter
use qdmi.Device.State.{Session, allocated, initialized, DeviceState}
use qdmi.Device.Session.{
  session_init, session_set_parameter, set_token, is_down, is_empty_value, read_bytes,
}

-- A refused call on a session: an error, and the session as it was.
abbrev pub SessionRefuses : Session → Option (Code × Option Session) → Type 0
SessionRefuses s none = ⊥
SessionRefuses s (some (c, s')) = (c ≢ success) × (s' ≡ some s)

one_of_two-SessionRefuses :
    (t : Bool) (s : Session)
    → SessionRefuses s
        (if t then some (error_invalid_argument, some s) else some (error_bad_state, some s))
one_of_two-SessionRefuses true s = (λ e. cc, refl)
one_of_two-SessionRefuses false s = (λ e. cc, refl)

initialized-SessionRefuses :
    (token : Bytes) (param size : ℕ) (value : Option Bytes)
    → let s : Session = record { token = token; status = initialized } in
      SessionRefuses s (session_set_parameter (some s) param size value)
unfolding session_set_parameter
initialized-SessionRefuses token param size value =
    one_of_two-SessionRefuses
      (is_empty_value size value || is_invalid_enum_value param DeviceSessionParameter.max_value)
      (record { token = token; status = initialized })

read_bytes-length : (bs : Bytes) → read_bytes (length bs) bs ≡ some bs
read_bytes-length bs = rw (ltb_of_le (length bs) (length bs) (omega arith), take-length bs)

set_token-length :
    (s : Session) (bs : Bytes)
    → set_token s (length bs) (some bs) ≡ some (success, some (record s { token = bs }))
set_token-length s bs = rw (set_token, read_bytes-length bs)

token-set :
    (s : Session) (bs : Bytes)
    → s.status ≡ allocated
    → 0 < length bs
    → session_set_parameter (some s) DeviceSessionParameter.token (length bs) (some bs)
      ≡ some (success, some (record s { token = bs }))
unfolding session_set_parameter is_invalid_enum_value
token-set s bs a p =
    let e : (length bs == 0) ≡ false = ground arith in
    rw (e, a) (set_token-length (record s { status = allocated }) bs)

-- In a session that is not started, a token that is not empty is stored byte by byte; then init
-- starts the session, unless the device is down; and from then on set_parameter refuses every
-- parameter and leaves the session as it is.
pub token_then_init :
    (dev : DeviceState) (s : Session) (token : Bytes)
    → s.status ≡ allocated
    → 0 < length token
    → is_down dev.status ≡ false
    → (s1 s2 : Session) × (session_set_parameter
          (some s)
          DeviceSessionParameter.token
          (length token)
          (some token)
        ≡ some (success, some s1))
      × (s1.token ≡ token)
      × (session_init dev (some s1) ≡ (success, some s2))
      × (s2 ≡ record s1 { status = initialized })
      × ((param size : ℕ) (value : Option Bytes)
          → SessionRefuses s2 (session_set_parameter (some s2) param size value))
unfolding session_init
token_then_init dev s [] a p up = absurd (omega arith)
token_then_init dev s (b ∷ bs) a p up = (
  record s { token = b ∷ bs },
  record { token = b ∷ bs; status = initialized },
  token-set s (b ∷ bs) a p,
  refl,
  rw up,
  refl,
  initialized-SessionRefuses (b ∷ bs),
)
