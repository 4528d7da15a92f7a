-- ===== src/Constants/JobParameter.antt =====
-- The enumeration `QDMI_JOB_PARAMETER_T` of include/qdmi/client.h: the numbers of the
-- parameters of a client job.
use qdmi.Base.{ℕ, List, [], ◌∷◌}

abbrev pub shotsnum : ℕ
shotsnum = 2

abbrev pub max_value : ℕ
max_value = 3

abbrev pub custom1 : ℕ
custom1 = 999999995

abbrev pub custom2 : ℕ
custom2 = 999999996

abbrev pub custom3 : ℕ
custom3 = 999999997

abbrev pub custom4 : ℕ
custom4 = 999999998

abbrev pub custom5 : ℕ
custom5 = 999999999

-- The members in their order.
abbrev pub members : List ℕ
members = shotsnum ∷ max_value ∷ custom1 ∷ custom2 ∷ custom3 ∷ custom4 ∷ custom5 ∷ []
