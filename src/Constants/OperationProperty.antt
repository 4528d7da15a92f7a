-- ===== src/Constants/OperationProperty.antt =====
-- The enumeration `QDMI_OPERATION_PROPERTY_T` of include/qdmi/constants.h: the numbers of the
-- properties of an operation.
use qdmi.Base.{ℕ, List, [], ◌∷◌}

abbrev pub name : ℕ
name = 0

abbrev pub qubitsnum : ℕ
qubitsnum = 1

abbrev pub parametersnum : ℕ
parametersnum = 2

abbrev pub duration : ℕ
duration = 3

abbrev pub fidelity : ℕ
fidelity = 4

abbrev pub interactionradius : ℕ
interactionradius = 5

abbrev pub blockingradius : ℕ
blockingradius = 6

abbrev pub idlingfidelity : ℕ
idlingfidelity = 7

abbrev pub iszoned : ℕ
iszoned = 8

abbrev pub sites : ℕ
sites = 9

abbrev pub meanshuttlingspeed : ℕ
meanshuttlingspeed = 10

abbrev pub max_value : ℕ
max_value = 11

abbrev pub custom1 : ℕ
custom1 = 999999995

abbrev pub custom2 : ℕ
custom2 = 999999996

abbrev pub custom3 : ℕ
custom3 = 999999997

abbrev pub custom4 : ℕ
custom4 = 999999998

abbrev pub custom5 : ℕ
custom5 = 999999999

-- The members in their order.
abbrev pub members : List ℕ
members =
    name ∷ qubitsnum ∷ parametersnum ∷ duration ∷ fidelity ∷ interactionradius ∷ blockingradius
    ∷ idlingfidelity ∷ iszoned ∷ sites ∷ meanshuttlingspeed ∷ max_value ∷ custom1 ∷ custom2
    ∷ custom3 ∷ custom4 ∷ custom5 ∷ []
