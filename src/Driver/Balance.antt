-- ===== src/Driver/Balance.antt =====
-- The account of device sessions that are opened and freed by the loop of QDMI_session_init in
-- examples/driver/qdmi_example_driver.cpp.
use qdmi.Base.{
  ℕ, suc, ◌+◌, ◌*◌, ◌≡◌, ◌≢◌, refl, sym, ◌∙◌, Bool, true, false, ◌&&◌, List, [], ◌∷◌, ◌++◌, ◌==◌,
  if◌then◌else◌, arith, Bool-cases, inl, inr,
}
use mathlib.Core.List.{append-nil, append_assoc}
use qdmi.Base.Bytes.{Bytes}
use qdmi.Constants.{Code, success, error_out_of_mem}
use qdmi.Driver.{
  Library, Event, opened, freed, Run, ConfiguredDevice, ClientDevice, is_success, is_accepted,
  note_opened, Round, ready, returned, Outcome, all_open, gave_up, free_device, free_devices,
  start_device, configure_device, set_up_device, open_device, open_devices,
}

abbrev same : ℕ → ℕ → ℕ → ℕ → ℕ
same l h l' h' = if (l == l') && (h == h') then 1 else 0

-- How often a handle of a library was opened, and freed.
abbrev pub opens : ℕ → ℕ → List Event → ℕ
opens l h [] = 0
opens l h (opened l' h' ∷ es) = same l h l' h' + opens l h es
opens l h (freed l' h' ∷ es) = opens l h es

abbrev pub frees : ℕ → ℕ → List Event → ℕ
frees l h [] = 0
frees l h (opened l' h' ∷ es) = frees l h es
frees l h (freed l' h' ∷ es) = same l h l' h' + frees l h es

-- How often the devices of a list hold a handle; a null pointer is not one.
abbrev pub holds : ℕ → ℕ → ClientDevice → ℕ
holds l h d = if d.device_session == 0 then 0 else same l h d.library d.device_session

abbrev pub held : ℕ → ℕ → List ClientDevice → ℕ
held l h [] = 0
held l h (d ∷ ds) = holds l h d + held l h ds

-- Every handle is as often open as the devices of a list hold it and others do.
abbrev pub IsBalanced : (ℕ → ℕ → ℕ) → List ClientDevice → List Event → Type 0
IsBalanced others ds es = (l h : ℕ) → opens l h es ≡ frees l h es + others l h + held l h ds

not_success : (c : Code) → is_success c ≡ false → c ≢ success
not_success c e f = cc

is_success_eq : (c : Code) → is_success c ≡ true → c ≡ success
is_success_eq c e = ground arith

not_accepted : (c : Code) → is_accepted c ≡ false → c ≢ success
not_accepted c e f = cc

-- The library of a device handed out its device session, with success.
abbrev pub IsHanded : {S : Type 0} → (ℕ → Library S) → ClientDevice → Type 0
IsHanded {S} libs d =
    (s : S) × (((libs d.library).session_alloc s).0 ≡ success)
    × (((libs d.library).session_alloc s).1 ≡ d.device_session)

-- The devices are those of a configuration, in its order, each with a device session.
abbrev pub AreOf :
    {S : Type 0} → (ℕ → Library S) → List ConfiguredDevice → List ClientDevice → Type 0
AreOf libs [] [] = Unit
AreOf libs (c ∷ cs) (d ∷ ds) =
    (d.library ≡ c.library) × (d.id ≡ c.id) × IsHanded libs d × AreOf libs cs ds
AreOf libs _ _ = ⊥

module _ {S : Type 0} (libs : ℕ → Library S) (others : ℕ → ℕ → ℕ) where
  free_device-IsBalanced :
      (d : ClientDevice) (ds : List ClientDevice) (run : Run S)
      → IsBalanced others (d ∷ ds) run.events
      → IsBalanced others ds (free_device libs d run).events
  unfolding free_device
  free_device-IsBalanced d ds run b l h = ground (arith, b l h)

  pub free_devices-IsBalanced :
      (ds : List ClientDevice) (run : Run S)
      → IsBalanced others ds run.events
      → IsBalanced others [] (free_devices libs ds run).events
  unfolding free_devices
  free_devices-IsBalanced [] run b = b
  free_devices-IsBalanced (d ∷ ds) run b =
      free_devices-IsBalanced ds (free_device libs d run) (free_device-IsBalanced d ds run b)

  -- A round leaves its device open, for the configured device, or nothing.
  abbrev RoundBalanced : List ClientDevice → ConfiguredDevice → Round S → Type 0
  RoundBalanced before config (ready d run) =
      IsBalanced others (d ∷ before) run.events
      × (d.library ≡ config.library)
      × (d.id ≡ config.id)
      × IsHanded libs d
  RoundBalanced before config (returned c run) = (c ≢ success) × IsBalanced others before run.events

  module _ (room : Bool) (d : ClientDevice) (config : ConfiguredDevice) (before : List ClientDevice)
      (es : List Event) (b : IsBalanced others (d ∷ before) es) (l : d.library ≡ config.library)
      (i : d.id ≡ config.id) where
    returned-Balanced :
        (c : Code) (s : S)
        → c ≢ success
        → RoundBalanced before config
            (returned c (free_device libs d (record { state = s; events = es })))
    returned-Balanced c s n =
        (n, free_device-IsBalanced d before (record { state = s; events = es }) b)

    start_device-Balanced :
        (r : Code × S)
        → IsHanded libs d
        → RoundBalanced before config (start_device libs room d es r)
    start_device-Balanced (c, s) o = elim (Bool-cases (is_success c)) [
      | inr bad ↦ rw bad (returned-Balanced c s (not_success c bad))
      | inl good ↦ elim (Bool-cases room) [
        | inr full ↦ rw (good, full) (returned-Balanced error_out_of_mem s (λ e. cc))
        | inl fits ↦ rw (good, fits) (b, l, i, o)
      ]
    ]

    configure_device-Balanced :
        (r : Code × S)
        → IsHanded libs d
        → RoundBalanced before config (configure_device libs room d es r)
    configure_device-Balanced (c, s) o = elim (Bool-cases (is_accepted c)) [
      | inr bad ↦ rw bad (returned-Balanced c s (not_accepted c bad))
      | inl good ↦
          rw good (start_device-Balanced ((libs d.library).session_init d.device_session s) o)
    ]

    set_up_device-Balanced :
        (token : Bytes) (r : Code × S)
        → (r.0 ≡ success → IsHanded libs d)
        → RoundBalanced before config (set_up_device libs room token d es r)
    set_up_device-Balanced token (c, s) o = elim (Bool-cases (is_success c)) [
      | inr bad ↦ rw bad (returned-Balanced c s (not_success c bad))
      | inl good ↦ rw good (configure_device-Balanced _ (o (is_success_eq c good)))
    ]

  opened-IsBalanced :
      (d : ClientDevice) (ds : List ClientDevice) (es : List Event)
      → IsBalanced others ds es
      → IsBalanced others (d ∷ ds) (note_opened d.library d.device_session es)
  opened-IsBalanced d ds es b l h = ground (arith, b l h)

  open_device-Balanced :
      (memory room : Bool) (address : ℕ) (token : Bytes) (config : ConfiguredDevice)
      (before : List ClientDevice) (run : Run S)
      → IsBalanced others before run.events
      → RoundBalanced before config (open_device libs memory room address token config run)
  unfolding open_device
  open_device-Balanced false room address token config before run b = (λ e. cc, b)
  open_device-Balanced true room address token config before run b =
      let (c, h, s) = (libs config.library).session_alloc run.state in
      let d : ClientDevice = record {
        library = config.library;
        session = address;
        device_session = h;
        id = config.id;
      } in
      set_up_device-Balanced room d config before (note_opened config.library h run.events)
        (opened-IsBalanced d before run.events b) refl refl token (c, s) (λ e. (run.state, e, refl))

  held-append :
      (l h : ℕ) (xs ys : List ClientDevice) → held l h (xs ++ ys) ≡ held l h xs + held l h ys
  held-append l h [] ys = omega arith
  held-append l h (x ∷ xs) ys = omega (arith, held-append l h xs ys)

  append-IsBalanced :
      (d : ClientDevice) (ds : List ClientDevice) (es : List Event)
      → IsBalanced others (d ∷ ds) es
      → IsBalanced others (ds ++ d ∷ []) es
  append-IsBalanced d ds es b l h = omega (arith, b l h, held-append l h ds (d ∷ []))

  -- The loop leaves a device open for each configuration that was left, or none at all.
  abbrev pub OutcomeBalanced : List ConfiguredDevice → List ClientDevice → Outcome S → Type 0
  OutcomeBalanced configs before (all_open ds run) =
      (later : List ClientDevice) × (ds ≡ before ++ later)
      × AreOf libs configs later
      × IsBalanced others ds run.events
  OutcomeBalanced configs before (gave_up c run) = (c ≢ success) × IsBalanced others [] run.events

  later-Balanced :
      (config : ConfiguredDevice) (configs : List ConfiguredDevice) (before : List ClientDevice)
      (d : ClientDevice) (o : Outcome S)
      → d.library ≡ config.library
      → d.id ≡ config.id
      → IsHanded libs d
      → OutcomeBalanced configs (before ++ d ∷ []) o
      → OutcomeBalanced (config ∷ configs) before o
  later-Balanced config configs before d (all_open ds run) l i o (later, e, are, b) =
      (d ∷ later, e ∙ append_assoc before (d ∷ []) later, (l, i, o, are), b)
  later-Balanced config configs before d (gave_up c run) l i o h = h

  round-Balanced :
      (config : ConfiguredDevice) (configs : List ConfiguredDevice) (before : List ClientDevice)
      (r : Round S) (next : ClientDevice → Run S → Outcome S)
      → RoundBalanced before config r
      → ((d : ClientDevice) (run : Run S)
          → IsBalanced others (before ++ d ∷ []) run.events
          → OutcomeBalanced configs (before ++ d ∷ []) (next d run))
      → OutcomeBalanced (config ∷ configs) before (elim r [
        | returned c run ↦ gave_up c (free_devices libs before run)
        | ready d run ↦ next d run
      ])
  round-Balanced config configs before (returned c run) next (n, b) k =
      (n, free_devices-IsBalanced before run b)
  round-Balanced config configs before (ready d run) next (b, l, i, o) k =
      later-Balanced config configs before d (next d run) l i o
        (k d run (append-IsBalanced d before run.events b))

  pub open_devices-Balanced :
      (memory : ℕ → Bool) (n address : ℕ) (token : Bytes) (configs : List ConfiguredDevice)
      (before : List ClientDevice) (run : Run S)
      → IsBalanced others before run.events
      → OutcomeBalanced configs before (open_devices libs memory n address token configs before run)
  unfolding open_devices
  open_devices-Balanced memory n address token [] before run b =
      ([], sym (append-nil before), tt, b)
  open_devices-Balanced memory n address token (config ∷ configs) before run b =
      round-Balanced config configs before
        (open_device libs (memory (2 * n)) (memory (2 * n + 1)) address token config run)
        (λ d run'. open_devices libs memory (suc n) address token configs (before ++ d ∷ []) run')
        (open_device-Balanced (memory (2 * n)) (memory (2 * n + 1)) address token config before run
          b)
        (λ d run' h.
          open_devices-Balanced memory (suc n) address token configs (before ++ d ∷ []) run' h)
