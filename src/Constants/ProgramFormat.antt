-- ===== src/Constants/ProgramFormat.antt =====
-- The enumeration `QDMI_PROGRAM_FORMAT_T` of include/qdmi/constants.h: the numbers of the
-- program formats.
use qdmi.Base.{ℕ, List, [], ◌∷◌}

abbrev pub qasm2 : ℕ
qasm2 = 0

abbrev pub qasm3 : ℕ
qasm3 = 1

abbrev pub qirbasestring : ℕ
qirbasestring = 2

abbrev pub qirbasemodule : ℕ
qirbasemodule = 3

abbrev pub qiradaptivestring : ℕ
qiradaptivestring = 4

abbrev pub qiradaptivemodule : ℕ
qiradaptivemodule = 5

abbrev pub qpy : ℕ
qpy = 7

abbrev pub iqmjson : ℕ
iqmjson = 8

abbrev pub max_value : ℕ
max_value = 10

abbrev pub custom1 : ℕ
custom1 = 999999995

abbrev pub custom2 : ℕ
custom2 = 999999996

abbrev pub custom3 : ℕ
custom3 = 999999997

abbrev pub custom4 : ℕ
custom4 = 999999998

abbrev pub custom5 : ℕ
custom5 = 999999999

-- The members in their order.
abbrev pub members : List ℕ
members =
    qasm2 ∷ qasm3 ∷ qirbasestring ∷ qirbasemodule ∷ qiradaptivestring ∷ qiradaptivemodule ∷ qpy
    ∷ iqmjson ∷ max_value ∷ custom1 ∷ custom2 ∷ custom3 ∷ custom4 ∷ custom5 ∷ []
