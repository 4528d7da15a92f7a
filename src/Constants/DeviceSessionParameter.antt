-- ===== src/Constants/DeviceSessionParameter.antt =====
-- The enumeration `QDMI_DEVICE_SESSION_PARAMETER_T` of include/qdmi/constants.h: the numbers of the
-- parameters of a device session.
use qdmi.Base.{ℕ, List, [], ◌∷◌}

abbrev pub baseurl : ℕ
baseurl = 0

abbrev pub token : ℕ
token = 1

abbrev pub authfile : ℕ
authfile = 2

abbrev pub authurl : ℕ
authurl = 3

abbrev pub username : ℕ
username = 4

abbrev pub password : ℕ
password = 5

abbrev pub childdevice : ℕ
childdevice = 6

abbrev pub max_value : ℕ
max_value = 7

abbrev pub custom1 : ℕ
custom1 = 999999995

abbrev pub custom2 : ℕ
custom2 = 999999996

abbrev pub custom3 : ℕ
custom3 = 999999997

abbrev pub custom4 : ℕ
custom4 = 999999998

abbrev pub custom5 : ℕ
custom5 = 999999999

-- The members in their order.
abbrev pub members : List ℕ
members =
    baseurl ∷ token ∷ authfile ∷ authurl ∷ username ∷ password ∷ childdevice ∷ max_value ∷ custom1
    ∷ custom2 ∷ custom3 ∷ custom4 ∷ custom5 ∷ []
