-- ===== src/Device/Query/Tables.antt =====
-- The device's and the sites' properties as tables of payloads, and the queries as look-ups.
use qdmi.Base.{
  ◌≢◌, inl, inr, Bool-cases, All-lookup, ◌<◌, All, length-append, ℕ, zero, ◌≡◌, refl, List, [], ◌∷◌,
  ◌++◌, none, some, false, ◌==◌, arith, length, lookup, lookup-nil,
}
use qdmi.Base.Bytes.{Bytes, text, encode, encode_all}
use qdmi.Constants.{DeviceStatus, device_status_value, is_invalid_enum_value, error_not_supported}
use qdmi.Constants.DeviceProperty
use qdmi.Constants.SiteProperty
use qdmi.Output.{Request, fail, is_empty_buffer}
use qdmi.Output.Serves.{
  IsContract, Answers-some, Answers-none, empty_buffer-Serves, Serves, Answers, refused,
  single-Answers, list-Answers,
}
use qdmi.Output.Strings.{string-Answers}
use qdmi.Device.State.{Session, initialized, DeviceState, Build}
use qdmi.Device.Tables.{
  device_sites, device_coupling_map, site_pointers, device_operations, site_id,
  supported_program_formats,
}
use qdmi.Device.Query.{
  device_properties, query_device_property, site_properties, query_site_property,
}

ruleset macros = (string-Answers, refused, single-Answers, list-Answers)

-- What the device says of itself, by property.
abbrev pub device_table : Build → DeviceStatus → List (ℕ × Bytes)
device_table b status =
    (DeviceProperty.id, b.device_id ++ zero ∷ [])
    ∷ (DeviceProperty.name, text "C++ Device with 5 qubits" ++ zero ∷ [])
    ∷ (DeviceProperty.version, b.device_version ++ zero ∷ [])
    ∷ (DeviceProperty.libraryversion, b.qdmi_version ++ zero ∷ [])
    ∷ (DeviceProperty.status, encode 4 (device_status_value status))
    ∷ (DeviceProperty.qubitsnum, encode 8 5)
    ∷ (DeviceProperty.sites, encode_all 8 (site_pointers b device_sites))
    ∷ (DeviceProperty.operations, encode_all 8 (device_operations b))
    ∷ (DeviceProperty.couplingmap, encode_all 8 (site_pointers b device_coupling_map))
    ∷ (DeviceProperty.lengthunit, text "um" ++ zero ∷ [])
    ∷ (DeviceProperty.lengthscalefactor, encode 8 0x3ff0000000000000)
    ∷ (DeviceProperty.durationunit, text "us" ++ zero ∷ [])
    ∷ (DeviceProperty.durationscalefactor, encode 8 0x3f50624dd2f1a9fc)
    ∷ (DeviceProperty.supportedprogramformats, encode_all 4 supported_program_formats)
    ∷ []

device_properties-Answers :
    (b : Build) (status : DeviceStatus) (prop : ℕ) (r : Request)
    → IsContract r
    → Answers (lookup prop (device_table b status)) r (device_properties b status prop r)
unfolding device_properties
device_properties-Answers b status prop r h = string-Answers _ _ r _ _ _ h (
    string-Answers _ _ r _ _ _ h (
      string-Answers _ _ r _ _ _ h (
        string-Answers _ _ r _ _ _ h (
          single-Answers _ _ r _ _ _ h (
            single-Answers _ _ r _ _ _ h (
              list-Answers _ _ r _ _ _ _ h (
                list-Answers _ _ r _ _ _ _ h (
                  list-Answers _ _ r _ _ _ _ h (
                    string-Answers _ _ r _ _ _ h (
                      single-Answers _ _ r _ _ _ h (
                        string-Answers _ _ r _ _ _ h (
                          single-Answers _ _ r _ _ _ h (
                            list-Answers _ _ r _ _ _ _ h
                              (refused (lookup-nil {A = Bytes} prop) refl))))))))))))))

abbrev pub IsFull : Bytes → Type 0
IsFull bs = 0 < length bs

pub device_table-IsFull :
    (b : Build) (status : DeviceStatus)
    → All (λ (e : ℕ × Bytes). IsFull e.1) (device_table b status)
unfolding encode encode_all
device_table-IsFull b status = omega (
  arith,
  length-append b.device_id (zero ∷ []),
  length-append b.device_version (zero ∷ []),
  length-append b.qdmi_version (zero ∷ []),
)

-- An initialized session serves every property of the table: whatever the size and the pointers,
-- the query reports the length of the value, or fills the buffer with it, or refuses a buffer
-- that is too small.
pub query_device_property-Serves :
    (b : Build) (dev : DeviceState) (s : Session) (prop : ℕ) (r : Request) (payload : Bytes)
    → s.status ≡ initialized
    → is_invalid_enum_value prop DeviceProperty.max_value ≡ false
    → lookup prop (device_table b dev.status) ≡ some payload
    → IsContract r
    → Serves payload r (query_device_property b dev (some s) prop r)
unfolding query_device_property
query_device_property-Serves b dev s prop r payload i v e h =
    elim (Bool-cases (is_empty_buffer r)) [
      | inl empty ↦ rw empty (
          empty_buffer-Serves payload r
            (All-lookup IsFull prop (device_table b dev.status) (device_table-IsFull b dev.status)
              e)
            empty)
      | inr usable ↦
          rw (usable, v, i) (Answers-some (device_properties-Answers b dev.status prop r h) e)
    ]

-- A property in the range of the enumeration that is not in the table is not supported, in an
-- initialized session and whatever the buffer, unless it has size 0.
pub query_device_property_unsupported :
    (b : Build) (dev : DeviceState) (s : Session) (prop : ℕ) (r : Request)
    → s.status ≡ initialized
    → is_invalid_enum_value prop DeviceProperty.max_value ≡ false
    → lookup prop (device_table b dev.status) ≡ none
    → is_empty_buffer r ≡ false
    → IsContract r
    → query_device_property b dev (some s) prop r ≡ some (fail r error_not_supported)
unfolding query_device_property
query_device_property_unsupported b dev s prop r i v e usable h =
    rw (usable, v, i) (Answers-none (device_properties-Answers b dev.status prop r h) e)

-- The properties of the site with an index.
abbrev pub site_table : ℕ → List (ℕ × Bytes)
site_table id =
    (SiteProperty.index, encode 8 id)
    ∷ (SiteProperty.moduleindex, encode 8 0)
    ∷ (SiteProperty.t1, encode 8 1000000)
    ∷ (SiteProperty.t2, encode 8 100000000)
    ∷ []

site_properties-Answers :
    (id prop : ℕ) (r : Request)
    → IsContract r
    → Answers (lookup prop (site_table id)) r (site_properties id prop r)
unfolding site_properties
site_properties-Answers id prop r h = single-Answers _ _ r _ _ _ h (
    single-Answers _ _ r _ _ _ h (
      single-Answers _ _ r _ _ _ h
        (single-Answers _ _ r _ _ _ h (refused (lookup-nil {A = Bytes} prop) refl))))

pub site_table-IsFull : (id : ℕ) → All (λ (e : ℕ × Bytes). IsFull e.1) (site_table id)
unfolding encode
site_table-IsFull id = omega arith

-- A pointer to a site serves that site's properties, in any session that is not null.
pub query_site_property-Serves :
    (b : Build) (s : Session) (site id prop : ℕ) (r : Request) (payload : Bytes)
    → site ≢ 0
    → site_id b site ≡ some id
    → is_invalid_enum_value prop SiteProperty.max_value ≡ false
    → lookup prop (site_table id) ≡ some payload
    → IsContract r
    → Serves payload r (query_site_property b (some s) site prop r)
unfolding query_site_property
query_site_property-Serves b s site id prop r payload nonnull i v e h =
    let n : (site == 0) ≡ false = ground arith in
    elim (Bool-cases (is_empty_buffer r)) [
      | inl empty ↦
          rw (n, empty)
            (empty_buffer-Serves payload r
              (All-lookup IsFull prop (site_table id) (site_table-IsFull id) e) empty)
      | inr usable ↦ rw (n, usable, v, i) (Answers-some (site_properties-Answers id prop r h) e)
    ]
