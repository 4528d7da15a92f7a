-- ===== src/Driver/Libraries.antt =====
-- The device libraries of examples/driver/qdmi_example_driver.cpp: QDMI_library_load, the part of
-- QDMI_initialize_driver that reads the lines of the configuration, and the driver's count of
-- sessions. The dynamic loader, the file system and the libraries' functions are parameters. A
-- library is identified by the handle of the loader, 0 for null, and the prefix of its symbols.
-- The calls of the loader and of device_initialize and device_finalize are recorded, the latest
-- first. A handle that is opened twice is the same, and is closed as often as it was opened.
pub mod Balance
use qdmi.Base.{
  ℕ, zero, suc, ◌+◌, ◌-◌, ◌*◌, leb, length, Bool, true, false, not, ◌&&◌, ◌||◌, Option, none, some,
  List, [], ◌∷◌, ◌++◌, ◌==◌, if◌then◌else◌, is_empty,
}
use qdmi.Base.Bytes.{Bytes}
use qdmi.Constants.{Code, success, error_fatal, error_out_of_mem, error_invalid_argument}
use qdmi.Driver.{is_success, ConfiguredDevice}

-- The dynamic loader and the device libraries. The state S is what the libraries keep; a prefix
-- is a text. `has_symbols` tells whether all symbols that are not optional resolve.
pub record Loader (S : Type 0) : Type 0 where
  pub open_library : Bytes → ℕ
  pub has_symbols : ℕ → Bytes → Bool
  pub device_initialize : ℕ → Bytes → S → Code × S
  pub device_finalize : ℕ → Bytes → S → S

pub data Event : Type 0 where
  library_opened library_closed : ℕ → Event
  device_initialized device_finalized : ℕ → Bytes → Event

pub record Run (S : Type 0) : Type 0 where
  pub state : S
  pub events : List Event

-- `QDMI_Library`, as far as it tells libraries apart; those in the driver's list are initialized.
pub record LoadedLibrary : Type 0 where
  pub lib_handle : ℕ
  pub prefix : Bytes

-- `==` of two strings.
unfoldable pub is_same_text : Bytes → Bytes → Bool
is_same_text [] [] = true
is_same_text (a ∷ x) (b ∷ y) = a == b && is_same_text x y
is_same_text _ _ = false

-- `find_if` over the libraries: the index of one with this handle and prefix.
unfoldable pub find_library : ℕ → Bytes → List LoadedLibrary → Option ℕ
find_library h prefix [] = none
find_library h prefix (l ∷ ls) =
    let rest = find_library h prefix ls in
    if l.lib_handle == h && is_same_text l.prefix prefix
    then some 0
    else elim rest [ none ↦ none | some i ↦ some (suc i) ]

abbrev pub note : {S : Type 0} → Event → Run S → Run S
note e run = record run { events = e ∷ run.events }

-- How QDMI_library_load ends: with the index of the library, the list, or an exception.
pub data Load (S : Type 0) : Type 0 where
  loaded : ℕ → List LoadedLibrary → Run S → Load S
  threw : Code → Run S → Load S

module _ {S : Type 0} (loader : Loader S) where
  -- The destructor of a library: it is finalized if it was initialized, then closed.
  unfoldable pub destroy_library : LoadedLibrary → Run S → Run S
  destroy_library l run = record {
    state = loader.device_finalize l.lib_handle l.prefix run.state;
    events = library_closed l.lib_handle ∷ device_finalized l.lib_handle l.prefix ∷ run.events;
  }

  -- The end of QDMI_library_load, after device_initialize; the flag tells whether the list can grow.
  abbrev pub add_library :
      Bool → LoadedLibrary → ℕ → List LoadedLibrary → List Event → Code × S → Load S
  add_library room l n ls events (c, s) =
      if not (is_success c)
      then threw error_fatal (record { state = s; events = library_closed l.lib_handle ∷ events })
      else let run : Run S = record {
        state = s;
        events = device_initialized l.lib_handle l.prefix ∷ events;
      } in
        if not room
        then threw error_out_of_mem (destroy_library l run)
        else loaded n (ls ++ l ∷ []) run

  -- QDMI_library_load after the library is open and was not found: its symbols, and the call of
  -- device_initialize.
  abbrev pub start_library : Bool → LoadedLibrary → ℕ → List LoadedLibrary → Run S → Load S
  start_library room l n ls run =
      if not (loader.has_symbols l.lib_handle l.prefix)
      then threw error_fatal (note (library_closed l.lib_handle) run)
      else add_library room l n ls run.events
          (loader.device_initialize l.lib_handle l.prefix run.state)

  -- QDMI_library_load. The flags tell whether the library can be allocated and the list can grow; the
  -- strings in between are assumed to fit the memory, and the loader finds by name.
  unfoldable pub load_library : Bool → Bool → List LoadedLibrary → Bytes → Bytes → Run S → Load S
  load_library false room ls lib_name prefix run = threw error_out_of_mem run
  load_library true room ls lib_name prefix run =
      let h = loader.open_library lib_name in
      let run' = note (library_opened h) run in
      if h == 0 then threw error_fatal run else elim (find_library h prefix ls) [
        | some i ↦ loaded i ls (note (library_closed h) run')
        | none ↦ start_library room (record { lib_handle = h; prefix = prefix }) (length ls) ls run'
      ]

  -- The destructor of the list of libraries, from the front.
  unfoldable pub destroy_libraries : List LoadedLibrary → Run S → Run S
  destroy_libraries [] run = run
  destroy_libraries (l ∷ ls) run = destroy_libraries ls (destroy_library l run)

-- `std::isspace` of the characters that `>>` skips.
abbrev is_space : ℕ → Bool
is_space b = b == 32 || (leb 9 b && leb b 13)

-- The words of a line, after the characters of a word that has begun.
abbrev flush : Bytes → List Bytes → List Bytes
flush [] later = later
flush (b ∷ word) later = (b ∷ word) ∷ later

unfoldable pub words_from : Bytes → Bytes → List Bytes
words_from word [] = flush word []
words_from word (b ∷ bs) =
    let next = words_from [] bs in
    let more = words_from (word ++ b ∷ []) bs in if is_space b then flush word next else more

abbrev is_comment : Bytes → Bool
is_comment [] = true
is_comment (b ∷ line) = b == 35

-- A line of the configuration: nothing, the name, prefix and id of a device, or an error.
pub data Line : Type 0 where
  skipped invalid : Line
  device_line : Bytes → Bytes → Bytes → Line

abbrev line_of : List Bytes → Line
line_of (lib_name ∷ prefix ∷ device_id ∷ []) = device_line lib_name prefix device_id
line_of _ = invalid

abbrev pub parse_line : Bytes → Line
parse_line line = if is_comment line then skipped else line_of (words_from [] line)

abbrev pub is_among : Bytes → List Bytes → Bool
is_among x [] = false
is_among x (y ∷ ys) = is_same_text x y || is_among x ys

-- How QDMI_initialize_driver ends: with what it stores in the driver, or with an error.
pub data Init (S : Type 0) : Type 0 where
  configured : List LoadedLibrary → List ConfiguredDevice → Run S → Init S
  failed : Code → Run S → Init S

module _ {S : Type 0} (loader : Loader S) where
  abbrev pub fail_init : Code → List LoadedLibrary → Run S → Init S
  fail_init c ls run = failed c (destroy_libraries loader ls run)

  -- The loop over the lines. Each round allocates for the line, for the library, for the list of
  -- libraries and for the list of devices; `memory k` tells whether allocation k succeeds.
  unfoldable pub read_lines :
      (ℕ → Bool)
      → ℕ
      → List Bytes
      → List Bytes
      → List LoadedLibrary
      → List ConfiguredDevice
      → Run S
      → Init S
  read_lines memory n [] ids ls devices run = configured ls devices run
  read_lines memory n (line ∷ lines) ids ls devices run =
      if not (memory (4 * n)) then fail_init error_out_of_mem ls run else elim (parse_line line) [
        | skipped ↦ read_lines memory (suc n) lines ids ls devices run
        | invalid ↦ fail_init error_fatal ls run
        | device_line lib_name prefix id ↦
            if is_among id ids
            then fail_init error_fatal ls run
            else elim (load_library loader (memory (4 * n + 1)) (memory (4 * n + 2)) ls lib_name
                prefix run) [
                  | threw c run' ↦ fail_init c ls run'
                  | loaded i ls' run' ↦
                      if not (memory (4 * n + 3))
                      then fail_init error_out_of_mem ls' run'
                      else read_lines memory (suc n) lines (id ∷ ids) ls'
                          (devices ++ record { library = i; id = id } ∷ []) run'
                ]
      ]

  -- QDMI_initialize_driver: the lines of the configuration file, if it is found, lies in an
  -- allowed directory and can be opened.
  abbrev pub initialize_driver : (ℕ → Bool) → Option (List Bytes) → Run S → Init S
  initialize_driver memory none run = failed error_fatal run
  initialize_driver memory (some lines) run = read_lines memory 0 lines [] [] [] run
