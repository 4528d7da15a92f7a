-- ===== src/Fomac/Reference.antt =====
-- The class FoMaC of examples/fomac/example_fomac.cpp as a client of the reference device of
-- examples/device/src/cxx_device.cpp: what its getters return for a session that is initialized.
use qdmi.Base.{
  false, zero, suc, ℕ, ◌<◌, ◌^◌, ◌≡◌, ◌≢◌, refl, List, [], ◌∷◌, some, arith, length, All, lookup,
}
use qdmi.Base.Bytes.{Bytes, text, encode, encode_all, length-encode_all}
use qdmi.Constants.{is_invalid_enum_value}
use qdmi.Constants.DeviceProperty
use qdmi.Constants.SiteProperty
use qdmi.Constants.OperationProperty
use qdmi.Device.State.{Session, initialized, DeviceState, Build}
use qdmi.Device.Tables.{
  device_sites, device_coupling_map, site_pointers, device_operations, site_id,
  supported_program_formats,
}
use qdmi.Device.Query.{query_device_property, query_site_property, query_operation_property}
use qdmi.Device.Query.Tables.{site_table, query_device_property-Serves, query_site_property-Serves}
use qdmi.Device.Query.Operations.{
  IsLinked, IsRotation, is_rx, is_ry, is_rz, query_rotation_property-Serves,
  query_cx_property-Serves,
}
use qdmi.Device.Results.Histogram.{compare_text}
use qdmi.Fomac.{Queries, ok, read_number}
use qdmi.Fomac.Reading.{
  IsServing, read_number-IsServing, read_string-IsServing, read_list-IsServing, read_size-IsServing,
  read_vector-IsServing,
}
use qdmi.Fomac.Getters.{
  get_site_t1, get_site_t2, no_operands, get_name, emplace, pairs, get_qubits_num, add_names,
  get_operation_map, get_coupling_map, get_sites, get_site_id, get_operands_num, get_parameters_num,
  get_supported_program_formats, Double, get_us_scale_factor,
}

-- The queries of the reference device for one session.
abbrev pub reference : Build → DeviceState → Session → Queries
reference b dev s = record {
  device = query_device_property b dev (some s);
  site = query_site_property b (some s);
  operation = query_operation_property b (some s);
}

-- The addresses of the sites and the operations fit 64 bits, and the sites have their own.
pub record IsPlaced (b : Build) : Type 0 where
  pub operations_fit : All (λ (n : ℕ). n < 256 ^ 8) (device_operations b)
  pub site_fits : (i : ℕ) → i < 5 → b.site_address i < 256 ^ 8
  pub site_real : (i : ℕ) → i < 5 → b.site_address i ≢ 0
  pub sites_differ : (i j : ℕ) → i < j → j < 5 → b.site_address i ≢ b.site_address j

pointers_fit :
    (b : Build)
    → IsPlaced b
    → (is : List ℕ) → All (λ (i : ℕ). i < 5) is
    → All (λ (n : ℕ). n < 256 ^ 8) (site_pointers b is)
pointers_fit b h [] small = tt
pointers_fit b h (i ∷ is) small = (h.site_fits i small.0, pointers_fit b h is small.1)

module _ (b : Build) (dev : DeviceState) (s : Session) (ready : s.status ≡ initialized) where
  -- FoMaC counts five qubits.
  get_qubits_num-reference : get_qubits_num (reference b dev s) ≡ ok 5
  unfolding get_qubits_num is_invalid_enum_value lookup
  get_qubits_num-reference =
      read_number-IsServing 5 _ _ (omega arith)
        (λ r c. query_device_property-Serves b dev s DeviceProperty.qubitsnum r _ ready refl refl c)

  module _ (placed : IsPlaced b) where
    get_sites-reference : get_sites (reference b dev s) ≡ ok (site_pointers b device_sites)
    unfolding get_sites is_invalid_enum_value lookup
    get_sites-reference =
        read_list-IsServing 8 (site_pointers b device_sites) _ _ _ (omega arith)
          (pointers_fit b placed device_sites (omega arith))
          (λ r c. query_device_property-Serves b dev s DeviceProperty.sites r _ ready refl refl c)

    get_coupling_map-reference :
        get_coupling_map (reference b dev s) ≡ ok (pairs (site_pointers b device_coupling_map))
    unfolding get_coupling_map is_invalid_enum_value lookup
    get_coupling_map-reference =
        let sites = site_pointers b device_coupling_map in
        let serving : IsServing (encode_all 8 sites)
            (query_device_property b dev (some s) DeviceProperty.couplingmap) =
          λ r c.
            query_device_property-Serves b dev s DeviceProperty.couplingmap r _ ready refl refl c in
        let size : length (encode_all 8 sites) ≡ 160 = length-encode_all 8 sites in
        rw
          (
            read_size-IsServing (encode_all 8 sites) _ _ serving,
            size,
            read_vector-IsServing 8 sites _ _
                (pointers_fit b placed device_coupling_map (omega arith)) serving,
          )
          refl

    site_id-address : (i : ℕ) → i < 5 → site_id b (b.site_address i) ≡ some i
    site_id-address zero h = ground arith
    site_id-address (suc zero) h = ground (arith, placed.sites_differ 0 1)
    site_id-address (suc (suc zero)) h =
        ground (arith, placed.sites_differ 0 2, placed.sites_differ 1 2)
    site_id-address (suc (suc (suc zero))) h =
        ground (arith, placed.sites_differ 0 3, placed.sites_differ 1 3, placed.sites_differ 2 3)
    site_id-address (suc (suc (suc (suc zero)))) h = ground (
      arith,
      placed.sites_differ 0 4,
      placed.sites_differ 1 4,
      placed.sites_differ 2 4,
      placed.sites_differ 3 4,
    )
    site_id-address (suc (suc (suc (suc (suc i))))) h = absurd (omega arith)

    get_site_id-reference :
        (i : ℕ) → i < 5 → get_site_id (reference b dev s) (b.site_address i) ≡ ok i
    unfolding get_site_id is_invalid_enum_value lookup
    get_site_id-reference i h = read_number-IsServing i _ _ (omega arith) (λ r c.
        query_site_property-Serves b s (b.site_address i) i SiteProperty.index r _
          (placed.site_real i h) (site_id-address i h) refl refl c)

    get_supported_program_formats-reference :
        get_supported_program_formats (reference b dev s) ≡ ok supported_program_formats
    unfolding get_supported_program_formats is_invalid_enum_value lookup
    get_supported_program_formats-reference =
        read_list-IsServing 4 supported_program_formats _ _ _ (omega arith) (omega arith) (λ r c.
          query_device_property-Serves b dev s DeviceProperty.supportedprogramformats r _ ready refl
            refl c)

  get_us_scale_factor-reference :
      (d : Double) → get_us_scale_factor (reference b dev s) d ≡ ok 0x3f50624dd2f1a9fc
  unfolding get_us_scale_factor is_invalid_enum_value lookup compare_text
  get_us_scale_factor-reference d =
      rw
        (
          read_string-IsServing (text "us")
              (query_device_property b dev (some s) DeviceProperty.durationunit) _ _
              (λ r c.
                query_device_property-Serves b dev s DeviceProperty.durationunit r _ ready refl refl
                  c),
          read_number-IsServing 0x3f50624dd2f1a9fc
              (query_device_property b dev (some s) DeviceProperty.durationscalefactor) _
              (omega arith)
              (λ r c.
                query_device_property-Serves b dev s DeviceProperty.durationscalefactor r _ ready
                  refl refl c),
        )
        refl

  module _ (placed : IsPlaced b) (d : Double) where
    site_times-reference :
        (i : ℕ)
        → i < 5
        → (get_site_t1 (reference b dev s) d (b.site_address i)
            ≡ ok (d.multiply (d.of_uint 1000000) 0x3f50624dd2f1a9fc))
          × (get_site_t2 (reference b dev s) d (b.site_address i)
              ≡ ok (d.multiply (d.of_uint 100000000) 0x3f50624dd2f1a9fc))
    unfolding get_site_t1 get_site_t2 is_invalid_enum_value lookup
    site_times-reference i h =
        let time : (prop n : ℕ)
            → is_invalid_enum_value prop SiteProperty.max_value ≡ false
            → n < 2 ^ 64
            → lookup prop (site_table i) ≡ some (encode 8 n)
            → (message : Bytes)
            → read_number (query_site_property b (some s) (b.site_address i) prop) message ≡ ok n =
          (λ prop n v small e message. read_number-IsServing n _ message small (λ r c.
            query_site_property-Serves b s (b.site_address i) i prop r _ (placed.site_real i h)
              (site_id-address placed i h) v e c)) in
        (
          rw
              (
                time SiteProperty.t1 1000000 refl (omega arith) refl _,
                get_us_scale_factor-reference d,
              )
              refl,
          rw
              (
                time SiteProperty.t2 100000000 refl (omega arith) refl _,
                get_us_scale_factor-reference d,
              )
              refl,
        )

  module _ (linked : IsLinked b) where
    rotation-name :
        (op : ℕ) (name : Bytes) → IsRotation b op name → get_name (reference b dev s) op ≡ ok name
    unfolding is_invalid_enum_value lookup
    rotation-name op name i = read_string-IsServing name _ _ _ (λ r c.
        query_rotation_property-Serves b linked s op name no_operands OperationProperty.name r _ i
          (refl, refl) refl refl c)

    cx-name : get_name (reference b dev s) b.cx ≡ ok (text "cx")
    unfolding is_invalid_enum_value lookup
    cx-name = read_string-IsServing (text "cx") _ _ _ (λ r c.
        query_cx_property-Serves b linked s no_operands OperationProperty.name r _ refl refl refl
          refl c)

    get_operation_map-reference :
        All (λ (n : ℕ). n < 256 ^ 8) (device_operations b)
        → get_operation_map (reference b dev s)
          ≡ ok ((text "cx", b.cx) ∷ (text "rx", b.rx) ∷ (text "ry", b.ry) ∷ (text "rz", b.rz) ∷ [])
    unfolding get_operation_map add_names emplace compare_text is_invalid_enum_value lookup
    get_operation_map-reference fit =
        rw
          (
            read_list-IsServing 8 (device_operations b)
                (query_device_property b dev (some s) DeviceProperty.operations) _ _ (omega arith)
                fit
                (λ r c.
                  query_device_property-Serves b dev s DeviceProperty.operations r _ ready refl refl
                    c),
            rotation-name b.rx (text "rx") is_rx,
            rotation-name b.ry (text "ry") is_ry,
            rotation-name b.rz (text "rz") is_rz,
            cx-name,
          )
          refl

    rotation-counts :
        (op : ℕ) (name : Bytes)
        → IsRotation b op name
        → (get_operands_num (reference b dev s) op ≡ ok 1)
          × (get_parameters_num (reference b dev s) op ≡ ok 1)
    unfolding get_operands_num get_parameters_num is_invalid_enum_value lookup
    rotation-counts op name i = (
      read_number-IsServing 1 _ _ (omega arith) (λ r c.
          query_rotation_property-Serves b linked s op name no_operands OperationProperty.qubitsnum
            r _ i (refl, refl) refl refl c),
      read_number-IsServing 1 _ _ (omega arith) (λ r c.
          query_rotation_property-Serves b linked s op name no_operands
            OperationProperty.parametersnum r _ i (refl, refl) refl refl c),
    )

    cx-counts :
        (get_operands_num (reference b dev s) b.cx ≡ ok 2)
        × (get_parameters_num (reference b dev s) b.cx ≡ ok 0)
    unfolding get_operands_num get_parameters_num is_invalid_enum_value lookup
    cx-counts = (
      read_number-IsServing 2 _ _ (omega arith) (λ r c.
          query_cx_property-Serves b linked s no_operands OperationProperty.qubitsnum r _ refl refl
            refl refl c),
      read_number-IsServing 0 _ _ (omega arith) (λ r c.
          query_cx_property-Serves b linked s no_operands OperationProperty.parametersnum r _ refl
            refl refl refl c),
    )

-- The operands and parameters that the class counts for an operation.
abbrev pub Counts : Queries → ℕ → ℕ → ℕ → Type 0
Counts q op operands parameters =
    (get_operands_num q op ≡ ok operands) × (get_parameters_num q op ≡ ok parameters)

-- What the class reads of the reference device.
pub record Reads (b : Build) (q : Queries) : Type 0 where
  pub qubits : get_qubits_num q ≡ ok 5
  pub sites : get_sites q ≡ ok (site_pointers b device_sites)
  pub site_ids : (i : ℕ) → i < 5 → get_site_id q (b.site_address i) ≡ ok i
  pub coupling_map : get_coupling_map q ≡ ok (pairs (site_pointers b device_coupling_map))
  pub formats : get_supported_program_formats q ≡ ok supported_program_formats
  pub operations :
      get_operation_map q
      ≡ ok ((text "cx", b.cx) ∷ (text "rx", b.rx) ∷ (text "ry", b.ry) ∷ (text "rz", b.rz) ∷ [])
  pub rotations : (op : ℕ) (name : Bytes) → IsRotation b op name → Counts q op 1 1
  pub cx : Counts q b.cx 2 0
  -- the floating-point operations are what they may be; the factor is the double 0.001
  pub scale_factor : (d : Double) → get_us_scale_factor q d ≡ ok 0x3f50624dd2f1a9fc
  pub times :
      (d : Double) (i : ℕ)
      → i < 5
      → (get_site_t1 q d (b.site_address i)
          ≡ ok (d.multiply (d.of_uint 1000000) 0x3f50624dd2f1a9fc))
        × (get_site_t2 q d (b.site_address i)
            ≡ ok (d.multiply (d.of_uint 100000000) 0x3f50624dd2f1a9fc))

-- For an initialized session of the reference device, if the addresses of its constant objects
-- differ, are not null and fit 64 bits, the class reads what is in the device's tables: five qubits,
-- the sites and their indices, the coupling map in pairs, the program formats, the operations under
-- their names in order, the numbers of operands and parameters of each, the scale factor, and the
-- raw T1 and T2 times of each site, multiplied by it. No exception is thrown.
pub getters-Reads :
    (b : Build) (dev : DeviceState) (s : Session)
    → s.status ≡ initialized
    → IsLinked b
    → IsPlaced b
    → Reads b (reference b dev s)
getters-Reads b dev s ready linked placed = record {
  qubits = get_qubits_num-reference b dev s ready;
  sites = get_sites-reference b dev s ready placed;
  site_ids = get_site_id-reference b dev s ready placed;
  coupling_map = get_coupling_map-reference b dev s ready placed;
  formats = get_supported_program_formats-reference b dev s ready placed;
  operations = get_operation_map-reference b dev s ready linked placed.operations_fit;
  rotations = rotation-counts b dev s ready linked;
  cx = cx-counts b dev s ready linked;
  scale_factor = get_us_scale_factor-reference b dev s ready;
  times = site_times-reference b dev s ready placed;
}
