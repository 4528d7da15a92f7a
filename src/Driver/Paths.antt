-- ===== src/Driver/Paths.antt =====
-- Where examples/driver/qdmi_example_driver.cpp looks for its configuration: Is_path_allowed and
-- the beginning of QDMI_initialize_driver. The file system and the environment are parameters.
use mathlib.Core.Option.{some-injective}
use qdmi.Base.{
  ◌≡◌, refl, inl, inr, Bool, true, false, ◌&&◌, ◌||◌, Option, none, some, List, [], ◌∷◌, ◌++◌,
  arith, Bool-cases, Option-cases, ◌⊎◌, ◌↔◌,
}
use qdmi.Base.Bytes.{Bytes, text}
use qdmi.Driver.Libraries.{is_same_text}

-- `std::filesystem::path`, as its components; `canonical` is `none` where it throws, and `lines`
-- where the file cannot be opened.
pub record FileSystem : Type 0 where
  pub current_path : Option (List Bytes)
  pub canonical : Bytes → Option (List Bytes)
  pub lines : List Bytes → Option (List Bytes)

-- `std::mismatch` of two paths ends at the end of the first.
unfoldable pub is_inside : List Bytes → List Bytes → Bool
is_inside [] path = true
is_inside (d ∷ dirs) [] = false
is_inside (d ∷ dirs) (p ∷ path) = is_same_text d p && is_inside dirs path

-- What HOME adds to the list of directories.
abbrev pub home_directory : FileSystem → Option Bytes → List (List Bytes)
home_directory fs none = []
home_directory fs (some home) = elim (fs.canonical home) [ none ↦ [] | some dir ↦ dir ∷ [] ]

unfoldable pub is_inside_any : List (List Bytes) → List Bytes → Bool
is_inside_any [] path = false
is_inside_any (dir ∷ dirs) path = is_inside dir path || is_inside_any dirs path

-- Is_path_allowed, with the value of HOME; `none` is an exception.
unfoldable pub is_path_allowed : FileSystem → Option Bytes → List Bytes → Option Bool
is_path_allowed fs home path = elim fs.current_path [
  | none ↦ none
  | some dir ↦ some (is_inside_any (dir ∷ home_directory fs home) path)
]

-- QDMI_CONF, or its default.
abbrev pub config_file : Option Bytes → Bytes
config_file none = text "qdmi.conf"
config_file (some file) = file

abbrev pub allowed_lines : FileSystem → List Bytes → Option Bool → Option (List Bytes)
allowed_lines fs path (some true) = fs.lines path
allowed_lines fs path _ = none

-- QDMI_initialize_driver up to its loop: the lines of the configuration, `none` for an error.
unfoldable pub config_lines : FileSystem → Option Bytes → Option Bytes → Option (List Bytes)
config_lines fs conf home = elim (fs.canonical (config_file conf)) [
  | none ↦ none
  | some path ↦ allowed_lines fs path (is_path_allowed fs home path)
]

is_same_text-eq : (x y : Bytes) → is_same_text x y ≡ true → x ≡ y
unfolding is_same_text
is_same_text-eq [] [] h = refl
is_same_text-eq [] (b ∷ y) h = cc
is_same_text-eq (a ∷ x) [] h = cc
is_same_text-eq (a ∷ x) (b ∷ y) h = ground (arith, is_same_text-eq x y)

is_same_text_refl : (x : Bytes) → is_same_text x x ≡ true
unfolding is_same_text
is_same_text_refl [] = refl
is_same_text_refl (a ∷ x) = ground (arith, is_same_text_refl x)

-- A path that is the directory itself or lies below it.
abbrev pub IsBelow : List Bytes → List Bytes → Type 0
IsBelow dir path = (rest : List Bytes) × (path ≡ dir ++ rest)

is_inside-IsBelow : (dir path : List Bytes) → is_inside dir path ≡ true → IsBelow dir path
unfolding is_inside
is_inside-IsBelow [] path h = (path, refl)
is_inside-IsBelow (d ∷ dir) [] h = cc
is_inside-IsBelow (d ∷ dir) (p ∷ path) h =
    let (rest, e) = is_inside-IsBelow dir path (ground arith) in
    let same : d ≡ p = is_same_text-eq d p (ground arith) in (rest, rw (same, e))

is_inside-append : (dir rest : List Bytes) → is_inside dir (dir ++ rest) ≡ true
unfolding is_inside
is_inside-append [] rest = refl
is_inside-append (d ∷ dir) rest = rw (is_same_text_refl d) (is_inside-append dir rest)

-- The directories that a path must lie in: the current one, or the one that HOME names.
abbrev pub IsAllowed : FileSystem → Option Bytes → List Bytes → Type 0
IsAllowed fs home path =
    (dir : List Bytes) × (fs.current_path ≡ some dir)
    × (IsBelow dir path
        ⊎ ((name : Bytes) × (place : List Bytes) × (home ≡ some name)
            × (fs.canonical name ≡ some place)
            × IsBelow place path))

home-IsAllowed :
    (fs : FileSystem) (home : Option Bytes) (dir path : List Bytes)
    → fs.current_path ≡ some dir
    → is_inside_any (home_directory fs home) path ≡ true
    → IsAllowed fs home path
unfolding is_inside_any
home-IsAllowed fs none dir path here h = cc
home-IsAllowed fs (some name) dir path here h = elim (Option-cases (fs.canonical name)) [
  | inl nowhere ↦ (let no : false ≡ true = rw (is_inside_any, nowhere) at h in cc)
  | inr (place, e) ↦
      let inside : (is_inside place path || false) ≡ true = rw (is_inside_any, e) at h in
      (dir, here, inr (name, place, refl, e, is_inside-IsBelow place path (ground arith)))
]

is_path_allowed-IsAllowed :
    (fs : FileSystem) (home : Option Bytes) (path : List Bytes)
    → is_path_allowed fs home path ≡ some true
    → IsAllowed fs home path
unfolding is_path_allowed is_inside_any
is_path_allowed-IsAllowed fs home path h = elim (Option-cases fs.current_path) [
  | inl nowhere ↦ (let no : none ≡ some true = rw nowhere at h in cc)
  | inr (dir, e) ↦
      let any : (is_inside dir path || is_inside_any (home_directory fs home) path) ≡ true =
        some-injective _ _ (rw e at h) in
      elim (Bool-cases (is_inside dir path)) [
        | inl inside ↦ (dir, e, inl (is_inside-IsBelow dir path inside))
        | inr outside ↦ home-IsAllowed fs home dir path e (rw outside at any)
      ]
]

IsAllowed-is_path_allowed :
    (fs : FileSystem) (home : Option Bytes) (path : List Bytes)
    → IsAllowed fs home path
    → is_path_allowed fs home path ≡ some true
unfolding is_path_allowed is_inside_any
IsAllowed-is_path_allowed fs home path (dir, here, inl (rest, e)) =
    rw (here, e, is_inside-append dir rest)
IsAllowed-is_path_allowed fs home path (dir, here, inr (name, place, named, there, (rest, e))) =
    rw (here, named, there, e, is_inside-append place rest) (ground arith)

allowed_lines-IsAllowed :
    (fs : FileSystem) (home : Option Bytes) (lines path : List Bytes) (t : Option Bool)
    → is_path_allowed fs home path ≡ t
    → allowed_lines fs path t ≡ some lines
    → (fs.lines path ≡ some lines) × IsAllowed fs home path
allowed_lines-IsAllowed fs home lines path none a h = cc
allowed_lines-IsAllowed fs home lines path (some false) a h = cc
allowed_lines-IsAllowed fs home lines path (some true) a h =
    (h, is_path_allowed-IsAllowed fs home path a)

-- The file that the driver reads its lines from.
abbrev pub IsConfig : FileSystem → Option Bytes → Option Bytes → List Bytes → Type 0
IsConfig fs conf home lines =
    (path : List Bytes) × (fs.canonical (config_file conf) ≡ some path)
    × ((fs.lines path ≡ some lines) × IsAllowed fs home path)

read_from :
    (fs : FileSystem) (conf home : Option Bytes) (lines : List Bytes)
    → config_lines fs conf home ≡ some lines
    → IsConfig fs conf home lines
unfolding config_lines
read_from fs conf home lines h = elim (Option-cases (fs.canonical (config_file conf))) [
  | inl nowhere ↦ (let no : none ≡ some lines = rw (config_lines, nowhere) at h in cc)
  | inr (path, e) ↦ (
    path,
    e,
    allowed_lines-IsAllowed fs home lines path (is_path_allowed fs home path) refl
        (rw (config_lines, e) at h),
  )
]

-- The driver reads lines exactly from a file whose path resolves and that can be opened, if it lies
-- in the current directory or below it, or in or below the directory that HOME names, component by
-- component.
pub config_lines-IsConfig :
    (fs : FileSystem) (conf home : Option Bytes) (lines : List Bytes)
    → (config_lines fs conf home ≡ some lines) ↔ IsConfig fs conf home lines
unfolding config_lines
config_lines-IsConfig fs conf home lines = (
  read_from fs conf home lines,
  λ (path, found, (opened, h)).
      rw (config_lines, found, IsAllowed-is_path_allowed fs home path h, opened),
)
