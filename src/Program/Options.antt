-- ===== src/Program/Options.antt =====
-- src/judo_main.c: `main`, which reads the options. `strtoul` belongs to the C library.
use judo.Base.{
  ℕ, zero, suc, ◌≤◌, ◌<◌, arith, Bool, true, false, Bool-cases, inl, inr, not, ◌&&◌, ◌||◌, List, [],
  ◌∷◌, String, codes, leb, ◌==◌, if◌then◌else◌, get_or,
}
use judo.Program.{ProgramOptions}

-- What `strtoul` gives: the value, if a number was found, and if it is out of range.
pub record Strtoul : Type 0 where
  pub value : ℕ
  pub found : Bool
  pub out_of_range : Bool

pub data Command : Type 0 where
  runs : ProgramOptions → Command
  shows_help : Command
  shows_version : Command
  rejects : String → Command

-- The options, and if the next argument is the width, or the end.
pub data Next : Type 0 where
  goes_on : Bool → ProgramOptions → Next
  ends : Command → Next

unfoldable pub strcmp : List ℕ → List ℕ → Bool
strcmp [] [] = true
strcmp [] (b ∷ bs) = false
strcmp (a ∷ as') [] = false
strcmp (a ∷ as') (b ∷ bs) = a == b && strcmp as' bs

-- The first bytes of an argument.
unfoldable pub strncmp : List ℕ → List ℕ → Bool
strncmp bytes [] = true
strncmp [] (b ∷ bs) = false
strncmp (a ∷ as') (b ∷ bs) = a == b && strncmp as' bs

unfoldable pub skip_bytes : ℕ → List ℕ → List ℕ
skip_bytes zero bytes = bytes
skip_bytes (suc n) [] = []
skip_bytes (suc n) (b ∷ bs) = skip_bytes n bs

abbrev pub is_option : List ℕ → String → String → Bool
is_option arg short long = strcmp arg (codes short) || strcmp arg (codes long)

-- The width, behind `-i` or behind `--indent=`.
unfoldable pub read_width : Strtoul → ProgramOptions → Next
read_width n options =
    if not n.found || n.out_of_range
    then ends (rejects "error: invalid or missing indention width")
    else if leb 65535 n.value || n.value == 0
    then ends (rejects "error: indention width is too large or small")
    else goes_on false (record options { indention_width = n.value })

unfoldable pub read_indent : (List ℕ → Strtoul) → List ℕ → ProgramOptions → Next
read_indent strtoul arg options =
    if get_or arg 1 0 == 105
    then goes_on true options
    else if get_or arg 8 0 == 61
    then read_width (strtoul (skip_bytes 9 arg)) options
    else ends (rejects "error: expected indention width")

-- One argument.
unfoldable pub read_argument : (List ℕ → Strtoul) → List ℕ → ProgramOptions → Next
read_argument strtoul arg options =
    if is_option arg "-h" "--help"
    then ends shows_help
    else if is_option arg "-v" "--version"
    then ends shows_version
    else if is_option arg "-q" "--quite"
    then goes_on false (record options { suppress_output = true })
    else if is_option arg "-p" "--pretty"
    then goes_on false (record options { pretty_print = true })
    else if is_option arg "-t" "--tabs"
    then goes_on false (record options { use_tabs = true })
    else if is_option arg "-e" "--escape"
    then goes_on false (record options { escape_unicode = true })
    else if strcmp arg (codes "-i") || strncmp arg (codes "--indent")
    then read_indent strtoul arg options
    else ends (rejects "error: unknown option")

-- The arguments behind the program's name; the first of them is the width if that is awaited.
unfoldable pub read_arguments : (List ℕ → Strtoul) → Bool → List (List ℕ) → ProgramOptions → Command
read_arguments strtoul true [] options = rejects "error: expected indention width"
read_arguments strtoul false [] options = runs options
read_arguments strtoul true (arg ∷ args) options = elim (read_width (strtoul arg) options) [
  | goes_on awaits options' ↦ read_arguments strtoul awaits args options'
  | ends command ↦ command
]
read_arguments strtoul false (arg ∷ args) options = elim (read_argument strtoul arg options) [
  | goes_on awaits options' ↦ read_arguments strtoul awaits args options'
  | ends command ↦ command
]

abbrev pub default_options : ProgramOptions
default_options = record {
  suppress_output = false;
  pretty_print = false;
  use_tabs = false;
  escape_unicode = false;
  indention_width = 4;
}

unfoldable pub main : (List ℕ → Strtoul) → List (List ℕ) → Command
main strtoul args = read_arguments strtoul false args default_options

abbrev pub HasWidth : ProgramOptions → Type 0
HasWidth options = (1 ≤ options.indention_width) × (options.indention_width < 65535)

-- The program runs with a width of at least 1 and less than 65535 only.
abbrev pub RunsWithWidth : Command → Type 0
RunsWithWidth (runs options) = HasWidth options
RunsWithWidth _ = Unit

abbrev NextHasWidth : Next → Type 0
NextHasWidth (goes_on awaits options) = HasWidth options
NextHasWidth (ends (runs options)) = ⊥
NextHasWidth (ends _) = Unit

read_width-HasWidth :
    (n : Strtoul) (options : ProgramOptions)
    → HasWidth options
    → NextHasWidth (read_width n options)
unfolding read_width
read_width-HasWidth n options h = elim (Bool-cases (not n.found || n.out_of_range)) [
  | inl bad ↦ rw bad tt
  | inr good ↦ elim (Bool-cases (leb 65535 n.value || n.value == 0)) [
    | inl extreme ↦ rw (good, extreme) tt
    | inr fine ↦ rw (good, fine) (ground arith, ground arith)
  ]
]

-- A test, one way or the other.
branch-NextHasWidth :
    (b : Bool) (x y : Next) → NextHasWidth x → NextHasWidth y → NextHasWidth (if b then x else y)
branch-NextHasWidth true x y h k = h
branch-NextHasWidth false x y h k = k

module _ (strtoul : List ℕ → Strtoul) where
  read_indent-HasWidth :
      (arg : List ℕ) (options : ProgramOptions)
      → HasWidth options
      → NextHasWidth (read_indent strtoul arg options)
  unfolding read_indent
  read_indent-HasWidth arg options h = branch-NextHasWidth (get_or arg 1 0 == 105) _ _ h (
      branch-NextHasWidth (get_or arg 8 0 == 61) _ _
        (read_width-HasWidth (strtoul (skip_bytes 9 arg)) options h) tt)

  read_argument-HasWidth :
      (arg : List ℕ) (options : ProgramOptions)
      → HasWidth options
      → NextHasWidth (read_argument strtoul arg options)
  unfolding read_argument
  read_argument-HasWidth arg options h = branch-NextHasWidth (is_option arg "-h" "--help") _ _ tt (
      branch-NextHasWidth (is_option arg "-v" "--version") _ _ tt (
        branch-NextHasWidth (is_option arg "-q" "--quite") _ _ h (
          branch-NextHasWidth (is_option arg "-p" "--pretty") _ _ h (
            branch-NextHasWidth (is_option arg "-t" "--tabs") _ _ h (
              branch-NextHasWidth (is_option arg "-e" "--escape") _ _ h (
                branch-NextHasWidth (strcmp arg (codes "-i") || strncmp arg (codes "--indent")) _ _
                  (read_indent-HasWidth arg options h) tt))))))

  next-RunsWithWidth :
      (next : Next) (args : List (List ℕ))
      → NextHasWidth next
      → ((awaits : Bool) (options : ProgramOptions)
          → HasWidth options
          → RunsWithWidth (read_arguments strtoul awaits args options))
      → RunsWithWidth (elim next [
        | goes_on awaits options ↦ read_arguments strtoul awaits args options
        | ends command ↦ command
      ])
  next-RunsWithWidth (goes_on awaits options) args h ih = ih awaits options h
  next-RunsWithWidth (ends (runs options)) args h ih = absurd h
  next-RunsWithWidth (ends shows_help) args h ih = tt
  next-RunsWithWidth (ends shows_version) args h ih = tt
  next-RunsWithWidth (ends (rejects message)) args h ih = tt

  read_arguments-RunsWithWidth :
      (args : List (List ℕ)) (awaits : Bool) (options : ProgramOptions)
      → HasWidth options
      → RunsWithWidth (read_arguments strtoul awaits args options)
  unfolding read_arguments
  read_arguments-RunsWithWidth [] true options h = tt
  read_arguments-RunsWithWidth [] false options h = h
  read_arguments-RunsWithWidth (arg ∷ args) true options h =
      next-RunsWithWidth (read_width (strtoul arg) options) args
        (read_width-HasWidth (strtoul arg) options h) (read_arguments-RunsWithWidth args)
  read_arguments-RunsWithWidth (arg ∷ args) false options h =
      next-RunsWithWidth (read_argument strtoul arg options) args
        (read_argument-HasWidth arg options h) (read_arguments-RunsWithWidth args)

  -- Whatever the arguments are and `strtoul` makes of them, the program runs with a width of at least 1
  -- and less than 65535, or does not run.
  pub main-RunsWithWidth : (args : List (List ℕ)) → RunsWithWidth (main strtoul args)
  unfolding main
  main-RunsWithWidth args =
      read_arguments-RunsWithWidth args false default_options (omega arith, omega arith)
