-- ===== src/Tool/Stack.antt =====
-- The example programs together: the tool of examples/tool/example_tool.cpp reads a device through
-- the class of examples/fomac/example_fomac.cpp, whose queries are those of the driver in
-- examples/driver/qdmi_example_driver.cpp for a session of the reference device of
-- examples/device/src/cxx_device.cpp.
use qdmi.Base.{
  drop, if◌then◌else◌, ℕ, ◌+◌, ◌==◌, ◌≤◌, ◌≡◌, ◌≢◌, refl, ap, ◌∙◌, Bool, false, Option, some, List,
  [], ◌∷◌, arith, not, ◌%◌, ◌/◌,
}
use qdmi.Base.Bytes.{Bytes, text}
use qdmi.Constants.DeviceProperty
use qdmi.Constants.SiteProperty
use qdmi.Output.{Request, Reply}
use qdmi.Device.State.{Session, initialized}
use qdmi.Device.Tables.{device_coupling_map, site_pointers}
use qdmi.Device.Query
use qdmi.Device.Query.Operations.{IsLinked}
use qdmi.Device.Jobs.{to_string}
use qdmi.Device.World.{World, Platform, resolve}
use qdmi.Driver.{ClientDevice}
use qdmi.Driver.Client.{query_device_property}
use qdmi.Driver.Jobs.{query_site_property, query_operation_property}
use qdmi.Driver.Jobs.Reference.{reading, reference_functions}
use qdmi.Fomac.{ok, threw, runtime_error, Queries, read_number, read_size, ◌>>=◌}
use qdmi.Fomac.Getters.{read_pairs, get_qubits_num, get_coupling_map, get_site_id, pairs}
use qdmi.Fomac.Reference.{reference, IsPlaced, getters-Reads}
use qdmi.Tool.{compile}
use qdmi.Tool.Passes.{Item, render, IsCircuit}
use qdmi.Tool.Compile.{compile-render}

-- The query of the device in the reference device's library, for one of its sessions.
abbrev pub forward : Platform → World → ClientDevice → ℕ → Request → Option Reply
forward pl w d prop r =
    reading (resolve w.sessions d.device_session)
      (λ s. Query.query_device_property pl.build w.dev s prop r)

-- The driver's queries for one of its devices.
abbrev pub client_queries : Platform → (ℕ → Bool) → World → ClientDevice → Queries
client_queries pl memory w d = record {
  device = query_device_property (forward pl w) (some d);
  site = λ site prop r.
      query_site_property (λ _. reference_functions pl memory) (some d) site prop r w;
  operation = λ op a prop r.
      query_operation_property (λ _. reference_functions pl memory) (some d) op a prop r w;
}

module _ (pl : Platform) (memory : ℕ → Bool) (w : World) (d : ClientDevice) (s : Session)
    (real : d.device_session ≢ 0) (there : w.sessions d.device_session ≡ some s) where
  abbrev client : Queries
  client = client_queries pl memory w d

  abbrev direct : Queries
  direct = reference pl.build w.dev s

  real_session : (d.device_session == 0) ≡ false
  real_session = ground arith

  device-eq :
      (prop : ℕ) (r : Request)
      → (prop == DeviceProperty.id) ≡ false
      → client.device prop r ≡ direct.device prop r
  unfolding query_device_property
  device-eq prop r other = rw (query_device_property, other, real_session, there)

  site-eq : (site prop : ℕ) (r : Request) → client.site site prop r ≡ direct.site site prop r
  unfolding query_site_property
  site-eq site prop r = rw (query_site_property, real_session, there)

  device-path :
      (prop : ℕ) → (prop == DeviceProperty.id) ≡ false → client.device prop ≡ direct.device prop
  device-path prop other = λ i r. device-eq prop r other i

  site-path : (site prop : ℕ) → client.site site prop ≡ direct.site site prop
  site-path site prop = λ i r. site-eq site prop r i

  get_qubits_num-eq : get_qubits_num client ≡ get_qubits_num direct
  unfolding get_qubits_num
  get_qubits_num-eq =
      ap (λ f. read_number f (text "Failed to query the number of qubits."))
        (device-path DeviceProperty.qubitsnum refl)

  get_coupling_map-eq : get_coupling_map client ≡ get_coupling_map direct
  unfolding get_coupling_map
  get_coupling_map-eq =
      ap
        (λ f. read_size f (text "Failed to query the coupling map size.") >>= λ size.
          if not ((size / 8) % 2 == 0)
          then threw
              (runtime_error (text "The coupling map needs to have an even number of elements."))
          else read_pairs f size (text "Failed to query the coupling map."))
        (device-path DeviceProperty.couplingmap refl)

  get_site_id-eq : (site : ℕ) → get_site_id client site ≡ get_site_id direct site
  unfolding get_site_id
  get_site_id-eq site =
      ap (λ f. read_number f (text "Failed to query the site ID"))
        (site-path site SiteProperty.index)

-- For a device of the driver whose session is an initialized session of the reference device, if
-- the addresses of its constant objects differ, are not null and fit 64 bits, the tool compiles a
-- circuit of at most two qubits: the output is the circuit over a register of five qubits with the
-- indices 0 and 1 of the first coupling. The pattern is taken to find the declared size.
pub compile-client :
    (pl : Platform) (memory : ℕ → Bool) (w : World) (d : ClientDevice) (s : Session)
    → (matches : Bytes → List ℕ) (items : List Item) (n : ℕ) → d.device_session ≢ 0
    → w.sessions d.device_session ≡ some s
    → s.status ≡ initialized
    → IsLinked pl.build
    → IsPlaced pl.build
    → matches (render (to_string n) (text "0") (text "1") items) ≡ (n + 48) ∷ []
    → n ≤ 2
    → IsCircuit items
    → compile matches
        (client_queries pl memory w d)
        (render (to_string n) (text "0") (text "1") items)
      ≡ ok (render (text "5") (text "0") (text "1") items)
unfolding pairs to_string
compile-client pl memory w d s matches items n real there ready linked placed found two h =
    let reads = getters-Reads pl.build w.dev s ready linked placed in
    compile-render matches (client_queries pl memory w d) items n 5 (pl.build.site_address 0)
      (pl.build.site_address 1) (pairs (site_pointers pl.build (drop 2 device_coupling_map))) 0 1
      found two (omega arith) (omega arith)
      (get_qubits_num-eq pl memory w d s real there ∙ reads.qubits)
      (get_coupling_map-eq pl memory w d s real there ∙ reads.coupling_map)
      (get_site_id-eq pl memory w d s real there _ ∙ reads.site_ids 0 (omega arith))
      (get_site_id-eq pl memory w d s real there _ ∙ reads.site_ids 1 (omega arith)) h
