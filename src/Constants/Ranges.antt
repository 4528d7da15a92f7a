-- ===== src/Constants/Ranges.antt =====
-- The ranges of the enumerations: QDMI_IS_INVALID_ENUM_VALUE of include/qdmi/constants.h.
use qdmi.Base.{ℕ, ◌≡◌, ◌<◌, ◌≤◌, ◌⊎◌, ◌↔◌, false, arith}
use qdmi.Constants.{is_invalid_enum_value}

-- The macro accepts a value exactly when it is below the enumeration's MAX or is one of the five
-- custom values.
pub is_invalid_enum_value_iff :
    (v m : ℕ)
    → (is_invalid_enum_value v m ≡ false) ↔ ((v < m) ⊎ ((999999995 ≤ v) × (v ≤ 999999999)))
unfolding is_invalid_enum_value
is_invalid_enum_value_iff v m = (λ e. ground arith, λ h. ground arith)
