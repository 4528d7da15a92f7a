-- ===== src/Device/Query.antt =====
-- The query functions of examples/device/src/cxx_device.cpp: properties of the device, of a site
-- and of an operation. A null handle is `none`.
pub mod Tables
pub mod Operations
use qdmi.Base.{
  ℕ, ◌+◌, List, [], ◌∷◌, Option, none, some, Bool, true, false, not, ◌&&◌, ◌||◌, ◌==◌, ltb,
  if◌then◌else◌, lookup,
}
use qdmi.Base.Bytes.{Bytes, text, encode}
use qdmi.Constants.{
  DeviceStatus, device_status_value, is_invalid_enum_value, error_bad_state, error_invalid_argument,
  error_not_supported,
}
use qdmi.Constants.DeviceProperty
use qdmi.Constants.SiteProperty
use qdmi.Constants.OperationProperty
use qdmi.Output.{
  Request, Reply, fail, is_empty_buffer, add_single_value_property, add_string_property,
  add_list_property,
}
use qdmi.Device.State.{Session, SessionStatus, allocated, initialized, DeviceState, Build}
use qdmi.Device.Tables.{
  device_sites, device_coupling_map, site_pointers, device_operations, site_id,
  operation_properties, cx_fidelities, find_fidelity, supported_program_formats,
}

-- The macros of CXX_QDMI_device_session_query_device_property, for an initialized session.
unfoldable pub device_properties : Build → DeviceStatus → ℕ → Request → Option Reply
device_properties b status prop r = add_string_property DeviceProperty.id b.device_id prop r (
    add_string_property DeviceProperty.name (text "C++ Device with 5 qubits") prop r (
      add_string_property DeviceProperty.version b.device_version prop r (
        add_string_property DeviceProperty.libraryversion b.qdmi_version prop r (
          add_single_value_property DeviceProperty.status (encode 4 (device_status_value status))
            prop r
            (add_single_value_property DeviceProperty.qubitsnum (encode 8 5) prop r (
              add_list_property DeviceProperty.sites 8 (site_pointers b device_sites) prop r (
                add_list_property DeviceProperty.operations 8 (device_operations b) prop r (
                  add_list_property DeviceProperty.couplingmap 8
                    (site_pointers b device_coupling_map) prop r
                    (add_string_property DeviceProperty.lengthunit (text "um") prop r (
                      add_single_value_property DeviceProperty.lengthscalefactor
                        (encode 8 0x3ff0000000000000) prop r
                        (add_string_property DeviceProperty.durationunit (text "us") prop r (
                          add_single_value_property DeviceProperty.durationscalefactor
                            (encode 8 0x3f50624dd2f1a9fc) prop r
                            (add_list_property DeviceProperty.supportedprogramformats 4
                              supported_program_formats prop r
                              (some (fail r error_not_supported)))))))))))))))

-- CXX_QDMI_device_session_query_device_property.
unfoldable pub query_device_property :
    Build → DeviceState → Option Session → ℕ → Request → Option Reply
query_device_property b dev none prop r = some (fail r error_invalid_argument)
query_device_property b dev (some session) prop r =
    if is_empty_buffer r || is_invalid_enum_value prop DeviceProperty.max_value
    then some (fail r error_invalid_argument)
    else elim session.status [
      | allocated ↦ some (fail r error_bad_state)
      | initialized ↦ device_properties b dev.status prop r
    ]

-- The macros of CXX_QDMI_device_session_query_site_property, for the site of an index.
unfoldable pub site_properties : ℕ → ℕ → Request → Option Reply
site_properties id prop r = add_single_value_property SiteProperty.index (encode 8 id) prop r (
    add_single_value_property SiteProperty.moduleindex (encode 8 0) prop r (
      add_single_value_property SiteProperty.t1 (encode 8 1000000) prop r (
        add_single_value_property SiteProperty.t2 (encode 8 100000000) prop r
          (some (fail r error_not_supported)))))

-- CXX_QDMI_device_session_query_site_property. The site is a pointer; only its `id` is read
-- through it, so a pointer to no site is undefined behaviour where the index is asked for.
unfoldable pub query_site_property : Build → Option Session → ℕ → ℕ → Request → Option Reply
query_site_property b none site prop r = some (fail r error_invalid_argument)
query_site_property b (some session) site prop r =
    if site == 0 || is_empty_buffer r || is_invalid_enum_value prop SiteProperty.max_value
    then some (fail r error_invalid_argument)
    else elim (site_id b site) [
      | some id ↦ site_properties id prop r
      | none ↦ if prop == SiteProperty.index then none else site_properties 0 prop r
    ]

-- The arguments of an operation query beside the operation: `sites` is the array or a null
-- pointer, and `params` tells whether the pointer is not null.
pub record Operands : Type 0 where
  pub num_sites : ℕ
  pub sites : Option (List ℕ)
  pub num_params : ℕ
  pub params : Bool

abbrev pub is_given : Option (List ℕ) → Bool
is_given none = false
is_given (some xs) = true

-- The branch for CX, after the sites have been read.
unfoldable pub cx_pair_properties : Build → ℕ → ℕ → ℕ → Request → Option Reply
cx_pair_properties b p q prop r =
    if p == q
    then some (fail r error_invalid_argument)
    else elim (find_fidelity b p q cx_fidelities) [
      | none ↦ some (fail r error_invalid_argument)
      | some fidelity ↦
          add_single_value_property OperationProperty.fidelity (encode 8 fidelity) prop r
            (some (fail r error_not_supported))
    ]

-- The rest of the branch: without sites, or with the two that it reads from the array.
unfoldable pub cx_site_properties : Build → Option (List ℕ) → ℕ → Request → Option Reply
unfolding cx_pair_properties
cx_site_properties b none prop r =
    add_single_value_property OperationProperty.qubitsnum (encode 8 2) prop r
      (some (fail r error_not_supported))
cx_site_properties b (some (p ∷ q ∷ _)) prop r = cx_pair_properties b p q prop r
cx_site_properties b (some _) prop r = none

-- The macro for the duration of CX, which reads `OPERATION_PROPERTIES.at(operation).second`.
unfoldable pub operation_duration_property : Build → ℕ → ℕ → Request → Option Reply → Option Reply
operation_duration_property b operation prop r rest =
    elim (lookup operation (operation_properties b)) [
      | some (_, duration) ↦
          add_single_value_property OperationProperty.duration (encode 8 duration) prop r rest
      | none ↦ if prop == OperationProperty.duration then none else rest
    ]

-- The branch for CX.
unfoldable pub cx_properties : Build → Operands → ℕ → Request → Option Reply
unfolding cx_site_properties
cx_properties b a prop r =
    if is_given a.sites && not (a.num_sites == 2)
    then some (fail r error_invalid_argument)
    else add_single_value_property OperationProperty.parametersnum (encode 8 0) prop r (
        operation_duration_property b b.cx prop r (
          add_list_property OperationProperty.sites 8 (site_pointers b device_coupling_map) prop r
            (cx_site_properties b a.sites prop r)))

-- The branch for RX, RY and RZ.
unfoldable pub rotation_properties : Build → Operands → ℕ → Request → Option Reply
rotation_properties b a prop r =
    if (is_given a.sites && not (a.num_sites == 1)) || (a.params && not (a.num_params == 1))
    then some (fail r error_invalid_argument)
    else add_single_value_property OperationProperty.duration (encode 8 0x3f847ae147ae147b) prop r (
        add_single_value_property OperationProperty.qubitsnum (encode 8 1) prop r (
          add_single_value_property OperationProperty.parametersnum (encode 8 1) prop r (
            add_single_value_property OperationProperty.fidelity (encode 8 0x3feff7ced916872b) prop
              r
              (add_list_property OperationProperty.sites 8 (site_pointers b device_sites) prop r
                (some (fail r error_not_supported))))))

-- The choice of the branch, by the operation's address.
unfoldable pub operation_properties_of : Build → ℕ → Operands → ℕ → Request → Option Reply
operation_properties_of b operation a prop r =
    if operation == b.cx
    then cx_properties b a prop r
    else if operation == b.rx || operation == b.ry || operation == b.rz
    then rotation_properties b a prop r
    else some (fail r error_not_supported)

-- `OPERATION_PROPERTIES.at(operation).first`, which throws on an unknown key; an exception that
-- leaves the C interface is undefined behaviour.
unfoldable pub operation_name_property : Build → ℕ → ℕ → Request → Option Reply → Option Reply
operation_name_property b operation prop r rest = elim (lookup operation (operation_properties b)) [
  | some (name, _) ↦ add_string_property OperationProperty.name name prop r rest
  | none ↦ if prop == OperationProperty.name then none else rest
]

-- CXX_QDMI_device_session_query_operation_property.
unfoldable pub query_operation_property :
    Build → Option Session → ℕ → Operands → ℕ → Request → Option Reply
query_operation_property b none operation a prop r = some (fail r error_invalid_argument)
query_operation_property b (some session) operation a prop r =
    if operation == 0
      || (is_given a.sites && a.num_sites == 0)
      || (a.params && a.num_params == 0)
      || is_empty_buffer r
      || is_invalid_enum_value prop OperationProperty.max_value
    then some (fail r error_invalid_argument)
    else operation_name_property b operation prop r (
        add_single_value_property OperationProperty.iszoned (encode 1 0) prop r
          (operation_properties_of b operation a prop r))
