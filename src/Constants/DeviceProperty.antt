-- ===== src/Constants/DeviceProperty.antt =====
-- The enumeration `QDMI_DEVICE_PROPERTY_T` of include/qdmi/constants.h: the numbers of the
-- properties of a device.
use qdmi.Base.{ℕ, List, [], ◌∷◌}

abbrev pub name : ℕ
name = 0

abbrev pub version : ℕ
version = 1

abbrev pub status : ℕ
status = 2

abbrev pub libraryversion : ℕ
libraryversion = 3

abbrev pub qubitsnum : ℕ
qubitsnum = 4

abbrev pub sites : ℕ
sites = 5

abbrev pub operations : ℕ
operations = 6

abbrev pub couplingmap : ℕ
couplingmap = 7

abbrev pub lengthunit : ℕ
lengthunit = 10

abbrev pub lengthscalefactor : ℕ
lengthscalefactor = 11

abbrev pub durationunit : ℕ
durationunit = 12

abbrev pub durationscalefactor : ℕ
durationscalefactor = 13

abbrev pub minatomdistance : ℕ
minatomdistance = 14

abbrev pub supportedprogramformats : ℕ
supportedprogramformats = 15

abbrev pub childdevices : ℕ
childdevices = 16

abbrev pub queuelength : ℕ
queuelength = 17

abbrev pub id : ℕ
id = 18

abbrev pub max_value : ℕ
max_value = 19

abbrev pub custom1 : ℕ
custom1 = 999999995

abbrev pub custom2 : ℕ
custom2 = 999999996

abbrev pub custom3 : ℕ
custom3 = 999999997

abbrev pub custom4 : ℕ
custom4 = 999999998

abbrev pub custom5 : ℕ
custom5 = 999999999

-- The members in their order.
abbrev pub members : List ℕ
members =
    name ∷ version ∷ status ∷ libraryversion ∷ qubitsnum ∷ sites ∷ operations ∷ couplingmap
    ∷ lengthunit ∷ lengthscalefactor ∷ durationunit ∷ durationscalefactor ∷ minatomdistance
    ∷ supportedprogramformats ∷ childdevices ∷ queuelength ∷ id ∷ max_value ∷ custom1 ∷ custom2
    ∷ custom3 ∷ custom4 ∷ custom5 ∷ []
