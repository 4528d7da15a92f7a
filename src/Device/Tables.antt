-- ===== src/Device/Tables.antt =====
-- The constant tables of examples/device/src/cxx_device.cpp.
use qdmi.Base.{ℕ, List, [], ◌∷◌, map, Option, none, some, ◌==◌, ◌&&◌, if◌then◌else◌}
use qdmi.Base.Bytes.{Bytes, text}
use qdmi.Constants.ProgramFormat
use qdmi.Device.State.{Build}

-- `CXX_DEVICE_SITES`: the indices of the sites.
abbrev pub device_sites : List ℕ
device_sites = 0 ∷ 1 ∷ 2 ∷ 3 ∷ 4 ∷ []

-- `DEVICE_COUPLING_MAP`: pairs of indices, one after the other.
abbrev pub device_coupling_map : List ℕ
device_coupling_map =
    0 ∷ 1 ∷ 1 ∷ 0 ∷ 1 ∷ 2 ∷ 2 ∷ 1 ∷ 2 ∷ 3 ∷ 3 ∷ 2 ∷ 3 ∷ 4 ∷ 4 ∷ 3 ∷ 4 ∷ 0 ∷ 0 ∷ 4 ∷ []

-- A table of sites as the list of pointers that it is.
abbrev pub site_pointers : Build → List ℕ → List ℕ
site_pointers b = map b.site_address

-- `CXX_DEVICE_OPERATIONS`.
abbrev pub device_operations : Build → List ℕ
device_operations b = b.rx ∷ b.ry ∷ b.rz ∷ b.cx ∷ []

-- `site->id`, for a pointer to one of the sites.
abbrev find_site : Build → ℕ → List ℕ → Option ℕ
find_site b p [] = none
find_site b p (i ∷ is) = if p == b.site_address i then some i else find_site b p is

abbrev pub site_id : Build → ℕ → Option ℕ
site_id b p = find_site b p device_sites

-- `OPERATION_PROPERTIES`: name and duration.
abbrev pub operation_properties : Build → List (ℕ × (Bytes × ℕ))
operation_properties b =
    (b.rx, (text "rx", 10))
    ∷ (b.ry, (text "ry", 10))
    ∷ (b.rz, (text "rz", 10))
    ∷ (b.cx, (text "cx", 100))
    ∷ []

-- The entries of `OPERATION_FIDELITIES` for CX, by the indices of the sites: 0.99 to 0.95.
abbrev pub cx_fidelities : List ((ℕ × ℕ) × ℕ)
cx_fidelities =
    ((0, 1), 0x3fefae147ae147ae)
    ∷ ((1, 0), 0x3fefae147ae147ae)
    ∷ ((1, 2), 0x3fef5c28f5c28f5c)
    ∷ ((2, 1), 0x3fef5c28f5c28f5c)
    ∷ ((2, 3), 0x3fef0a3d70a3d70a)
    ∷ ((3, 2), 0x3fef0a3d70a3d70a)
    ∷ ((3, 4), 0x3feeb851eb851eb8)
    ∷ ((4, 3), 0x3feeb851eb851eb8)
    ∷ ((4, 0), 0x3fee666666666666)
    ∷ ((0, 4), 0x3fee666666666666)
    ∷ []

-- `find` in the map of one operation, whose keys are pairs of pointers.
abbrev pub find_fidelity : Build → ℕ → ℕ → List ((ℕ × ℕ) × ℕ) → Option ℕ
find_fidelity b p q [] = none
find_fidelity b p q (((i, j), f) ∷ m) =
    if (p == b.site_address i) && (q == b.site_address j) then some f else find_fidelity b p q m

-- `SUPPORTED_PROGRAM_FORMATS`.
abbrev pub supported_program_formats : List ℕ
supported_program_formats =
    ProgramFormat.qasm2 ∷ ProgramFormat.qirbasestring ∷ ProgramFormat.qirbasemodule ∷ []
