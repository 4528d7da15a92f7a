-- ===== src/Driver/Libraries/Balance.antt =====
-- The account of the libraries that the example driver in
-- examples/driver/qdmi_example_driver.cpp opens and closes, initializes and finalizes.
use qdmi.Base.{
  ℕ, suc, ◌+◌, ◌*◌, ◌≡◌, ◌≢◌, ◌⊎◌, refl, Bool, true, false, not, ◌&&◌, List, [], ◌∷◌, ◌++◌, ◌==◌,
  if◌then◌else◌, arith, Bool-cases, Option-cases, inl, inr, length,
}
use qdmi.Base.Bytes.{Bytes}
use qdmi.Constants.{Code, success, error_out_of_mem, error_fatal}
use qdmi.Driver.{is_success, ConfiguredDevice}
use qdmi.Driver.Libraries.{
  Loader, Event, library_opened, library_closed, device_initialized, device_finalized, Run,
  LoadedLibrary, is_same_text, find_library, note, Load, loaded, threw, destroy_library,
  add_library, start_library, load_library, destroy_libraries, parse_line, skipped, invalid,
  device_line, Line, is_among, Init, configured, failed, fail_init, read_lines,
}

-- How often a handle was opened and closed, and a library initialized and finalized.
abbrev pub opens : ℕ → List Event → ℕ
opens h [] = 0
opens h (library_opened h' ∷ es) = (if h == h' then 1 else 0) + opens h es
opens h (_ ∷ es) = opens h es

abbrev pub closes : ℕ → List Event → ℕ
closes h [] = 0
closes h (library_closed h' ∷ es) = (if h == h' then 1 else 0) + closes h es
closes h (_ ∷ es) = closes h es

abbrev one_if : ℕ → Bytes → ℕ → Bytes → ℕ
one_if h p h' p' = if (h == h') && is_same_text p p' then 1 else 0

abbrev pub starts : ℕ → Bytes → List Event → ℕ
starts h p [] = 0
starts h p (device_initialized h' p' ∷ es) = one_if h p h' p' + starts h p es
starts h p (_ ∷ es) = starts h p es

abbrev pub ends : ℕ → Bytes → List Event → ℕ
ends h p [] = 0
ends h p (device_finalized h' p' ∷ es) = one_if h p h' p' + ends h p es
ends h p (_ ∷ es) = ends h p es

-- How often the libraries of a list hold a handle, and how often one of them has it and a prefix.
abbrev pub holds : ℕ → List LoadedLibrary → ℕ
holds h [] = 0
holds h (l ∷ ls) = (if h == l.lib_handle then 1 else 0) + holds h ls

abbrev pub runs : ℕ → Bytes → List LoadedLibrary → ℕ
runs h p [] = 0
runs h p (l ∷ ls) = one_if h p l.lib_handle l.prefix + runs h p ls

-- The libraries of the list are open and initialized, and no other.
pub record IsBalanced (ls : List LoadedLibrary) (es : List Event) : Type 0 where
  pub open_once : (h : ℕ) → opens h es ≡ closes h es + holds h ls
  pub started_once : (h : ℕ) (p : Bytes) → starts h p es ≡ ends h p es + runs h p ls

holds-append : (h : ℕ) (xs ys : List LoadedLibrary) → holds h (xs ++ ys) ≡ holds h xs + holds h ys
holds-append h [] ys = omega arith
holds-append h (x ∷ xs) ys = omega (arith, holds-append h xs ys)

runs-append :
    (h : ℕ) (p : Bytes) (xs ys : List LoadedLibrary)
    → runs h p (xs ++ ys) ≡ runs h p xs + runs h p ys
runs-append h p [] ys = omega arith
runs-append h p (x ∷ xs) ys = omega (arith, runs-append h p xs ys)

not_success : (c : Code) → is_success c ≡ false → c ≢ success
not_success c e f = cc

module _ {S : Type 0} (loader : Loader S) where
  destroy_library-IsBalanced :
      (l : LoadedLibrary) (ls : List LoadedLibrary) (run : Run S)
      → IsBalanced (l ∷ ls) run.events
      → IsBalanced ls (destroy_library loader l run).events
  unfolding destroy_library
  destroy_library-IsBalanced l ls run b = record {
    open_once = λ h. omega (arith, b.open_once h);
    started_once = λ h p. omega (arith, b.started_once h p);
  }

  pub destroy_libraries-IsBalanced :
      (ls : List LoadedLibrary) (run : Run S)
      → IsBalanced ls run.events
      → IsBalanced [] (destroy_libraries loader ls run).events
  unfolding destroy_libraries
  destroy_libraries-IsBalanced [] run b = b
  destroy_libraries-IsBalanced (l ∷ ls) run b =
      destroy_libraries-IsBalanced ls (destroy_library loader l run)
        (destroy_library-IsBalanced l ls run b)

  abbrev LoadBalanced : List LoadedLibrary → Load S → Type 0
  LoadBalanced ls (loaded i ls' run) = IsBalanced ls' run.events
  LoadBalanced ls (threw c run) = (c ≢ success) × IsBalanced ls run.events

  -- A library that is open, but not yet in the list.
  module _ (l : LoadedLibrary) (ls : List LoadedLibrary) (es : List Event)
      (open_one : (h : ℕ)
        → opens h es ≡ closes h es + (holds h ls + (if h == l.lib_handle then 1 else 0)))
      (b : (h : ℕ) (p : Bytes) → starts h p es ≡ ends h p es + runs h p ls) where
    closed-IsBalanced : IsBalanced ls (library_closed l.lib_handle ∷ es)
    closed-IsBalanced = record { open_once = λ h. omega (arith, open_one h); started_once = b }

    appended-IsBalanced : IsBalanced (ls ++ l ∷ []) (device_initialized l.lib_handle l.prefix ∷ es)
    appended-IsBalanced = record {
      open_once = λ h. omega (arith, open_one h, holds-append h ls (l ∷ []));
      started_once = λ h p. omega (arith, b h p, runs-append h p ls (l ∷ []));
    }

    destroyed-IsBalanced :
        (s : S)
        → IsBalanced ls
            (destroy_library loader l
              (record { state = s; events = device_initialized l.lib_handle l.prefix ∷ es })).events
    unfolding destroy_library
    destroyed-IsBalanced s = record {
      open_once = λ h. omega (arith, open_one h);
      started_once = λ h p. omega (arith, b h p);
    }

    add_library-Balanced :
        (room : Bool) (n : ℕ) (r : Code × S) → LoadBalanced ls (add_library loader room l n ls es r)
    add_library-Balanced room n (c, s) = elim (Bool-cases (is_success c)) [
      | inr bad ↦ rw bad ((λ e. cc), closed-IsBalanced)
      | inl good ↦ elim (Bool-cases room) [
        | inr full ↦ rw (good, full) ((λ e. cc), destroyed-IsBalanced s)
        | inl fits ↦ rw (good, fits) appended-IsBalanced
      ]
    ]

    start_library-Balanced :
        (room : Bool) (n : ℕ) (s : S)
        → LoadBalanced ls (start_library loader room l n ls (record { state = s; events = es }))
    start_library-Balanced room n s = elim (Bool-cases (loader.has_symbols l.lib_handle l.prefix)) [
      | inr bad ↦ rw bad ((λ e. cc), closed-IsBalanced)
      | inl good ↦
          rw good (add_library-Balanced room n (loader.device_initialize l.lib_handle l.prefix s))
    ]

  opened_one-Balanced :
      (l : LoadedLibrary) (ls : List LoadedLibrary) (room : Bool) (n : ℕ) (run : Run S)
      → IsBalanced ls run.events
      → LoadBalanced ls (start_library loader room l n ls (note (library_opened l.lib_handle) run))
  opened_one-Balanced l ls room n run b =
      start_library-Balanced l ls (library_opened l.lib_handle ∷ run.events)
        (λ h. omega (arith, b.open_once h)) b.started_once room n run.state

  closed_again-IsBalanced :
      (h : ℕ) (ls : List LoadedLibrary) (es : List Event)
      → IsBalanced ls es
      → IsBalanced ls (library_closed h ∷ library_opened h ∷ es)
  closed_again-IsBalanced h ls es b = record {
    open_once = λ k. omega (arith, b.open_once k);
    started_once = b.started_once;
  }

  load_library-Balanced :
      (memory room : Bool) (ls : List LoadedLibrary) (lib_name prefix : Bytes) (run : Run S)
      → IsBalanced ls run.events
      → LoadBalanced ls (load_library loader memory room ls lib_name prefix run)
  unfolding load_library
  load_library-Balanced false room ls lib_name prefix run b = ((λ e. cc), b)
  load_library-Balanced true room ls lib_name prefix run b =
      let h = loader.open_library lib_name in
      elim (Bool-cases (h == 0)) [
        | inl null ↦ rw null ((λ e. cc), b)
        | inr there ↦ elim (Option-cases (find_library h prefix ls)) [
          | inr (i, e) ↦ rw (there, e) (closed_again-IsBalanced h ls run.events b)
          | inl new ↦
              rw (there, new)
                (opened_one-Balanced (record { lib_handle = h; prefix = prefix }) ls room
                  (length ls) run b)
        ]
      ]

  abbrev pub InitBalanced : Init S → Type 0
  InitBalanced (configured ls devices run) = IsBalanced ls run.events
  InitBalanced (failed c run) = (c ≢ success) × IsBalanced [] run.events

  fail_init-Balanced :
      (c : Code) (ls : List LoadedLibrary) (run : Run S)
      → c ≢ success
      → IsBalanced ls run.events
      → InitBalanced (fail_init loader c ls run)
  fail_init-Balanced c ls run n b = (n, destroy_libraries-IsBalanced ls run b)

  -- What follows the load of a library in a round.
  loaded-Balanced :
      (ls : List LoadedLibrary) (room : Bool) (r : Load S)
      (next : ℕ → List LoadedLibrary → Run S → Init S)
      → LoadBalanced ls r
      → ((i : ℕ) (ls' : List LoadedLibrary) (run : Run S)
          → IsBalanced ls' run.events
          → InitBalanced (next i ls' run))
      → InitBalanced (elim r [
        | threw c run ↦ fail_init loader c ls run
        | loaded i ls' run ↦
            if not room then fail_init loader error_out_of_mem ls' run else next i ls' run
      ])
  loaded-Balanced ls room (threw c run) next (n, b) k = fail_init-Balanced c ls run n b
  loaded-Balanced ls false (loaded i ls' run) next b k =
      fail_init-Balanced error_out_of_mem ls' run (λ e. cc) b
  loaded-Balanced ls true (loaded i ls' run) next b k = k i ls' run b

  Line-cases :
      (l : Line) → (l ≡ skipped) ⊎ ((l ≡ invalid) ⊎ ((x y z : Bytes) × (l ≡ device_line x y z)))
  Line-cases skipped = inl refl
  Line-cases invalid = inr (inl refl)
  Line-cases (device_line x y z) = inr (inr (x, y, z, refl))

  pub read_lines-Balanced :
      (memory : ℕ → Bool) (n : ℕ) (lines ids : List Bytes) (ls : List LoadedLibrary)
      (devices : List ConfiguredDevice) (run : Run S)
      → IsBalanced ls run.events
      → InitBalanced (read_lines loader memory n lines ids ls devices run)
  unfolding read_lines
  read_lines-Balanced memory n [] ids ls devices run b = b
  read_lines-Balanced memory n (line ∷ lines) ids ls devices run b =
      elim (Bool-cases (memory (4 * n))) [
        | inr full ↦ rw full (fail_init-Balanced error_out_of_mem ls run (λ e. cc) b)
        | inl fits ↦ elim (Line-cases (parse_line line)) [
          | inl skip ↦
              rw (fits, skip) (read_lines-Balanced memory (suc n) lines ids ls devices run b)
          | inr (inl bad) ↦ rw (fits, bad) (fail_init-Balanced error_fatal ls run (λ e. cc) b)
          | inr (inr (lib_name, prefix, id, e)) ↦ elim (Bool-cases (is_among id ids)) [
            | inl twice ↦ rw (fits, e, twice) (fail_init-Balanced error_fatal ls run (λ x. cc) b)
            | inr once ↦
                rw (fits, e, once)
                  (loaded-Balanced ls (memory (4 * n + 3))
                    (load_library loader (memory (4 * n + 1)) (memory (4 * n + 2)) ls lib_name
                      prefix run)
                    (λ i ls' run'.
                      read_lines loader memory (suc n) lines (id ∷ ids) ls'
                        (devices ++ record { library = i; id = id } ∷ []) run')
                    (load_library-Balanced (memory (4 * n + 1)) (memory (4 * n + 2)) ls lib_name
                      prefix run b)
                    (λ i ls' run'.
                      read_lines-Balanced memory (suc n) lines (id ∷ ids) ls'
                        (devices ++ record { library = i; id = id } ∷ []) run'))
          ]
        ]
      ]
