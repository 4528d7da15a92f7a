-- ===== src/Constants/DeviceJobProperty.antt =====
-- The enumeration `QDMI_DEVICE_JOB_PROPERTY_T` of include/qdmi/constants.h: the numbers of the
-- properties of a device job.
use qdmi.Base.{ℕ, List, [], ◌∷◌}

abbrev pub id : ℕ
id = 0

abbrev pub programformat : ℕ
programformat = 1

abbrev pub shotsnum : ℕ
shotsnum = 3

abbrev pub queueposition : ℕ
queueposition = 4

abbrev pub programsnum : ℕ
programsnum = 5

abbrev pub max_value : ℕ
max_value = 6

abbrev pub custom1 : ℕ
custom1 = 999999995

abbrev pub custom2 : ℕ
custom2 = 999999996

abbrev pub custom3 : ℕ
custom3 = 999999997

abbrev pub custom4 : ℕ
custom4 = 999999998

abbrev pub custom5 : ℕ
custom5 = 999999999

-- The members in their order.
abbrev pub members : List ℕ
members =
    id ∷ programformat ∷ shotsnum ∷ queueposition ∷ programsnum ∷ max_value ∷ custom1 ∷ custom2
    ∷ custom3 ∷ custom4 ∷ custom5 ∷ []
