-- ===== src/Program.antt =====
-- src/judo_main.c: what the command-line program prints. The output is a list of bytes.
pub mod Location
pub mod Main
pub mod Options
pub mod Pretty
pub mod Printed
pub mod Stdin
pub mod Steps
use judo.Api.{Span}
use judo.Base.{
  ℕ, zero, suc, ◌+◌, ◌*◌, max, Bool, true, false, Option, none, some, List, [], ◌∷◌, ◌++◌, length,
  replicate, codes, ◌==◌, if◌then◌else◌,
}
use judo.Parser.{
  JudoType, Heap, ◌>>=◌, judo_gettype, judo_first, judo_next, judo_membfirst, judo_membnext,
  judo_membvalue, judo_name2span, judo_value2span, judo_len,
}

-- `struct program_options`
pub record ProgramOptions : Type 0 where
  pub suppress_output : Bool
  pub pretty_print : Bool
  pub use_tabs : Bool
  pub escape_unicode : Bool
  pub indention_width : ℕ

-- printf("%.*s", length, &source[offset]): so many bytes, or those before a null byte.
unfoldable pub print_bytes : (ℕ → ℕ) → ℕ → ℕ → List ℕ
print_bytes source offset zero = []
print_bytes source offset (suc n) =
    let rest = print_bytes source (offset + 1) n in
    if source offset == 0 then [] else source offset ∷ rest

abbrev pub print_span : (ℕ → ℕ) → Span → List ℕ
print_span source span = print_bytes source span.offset span.length

abbrev pub comma : Option ℕ → List ℕ
comma none = []
comma (some next) = codes ","

-- The loops over the elements and the members, with the function that prints a value.
unfoldable pub print_elements : ℕ → (Option ℕ → Option (List ℕ)) → Heap → Option ℕ → Option (List ℕ)
print_elements fuel print heap none = some []
print_elements zero print heap (some elem) = none
print_elements (suc fuel) print heap (some elem) = do
  out ← print (some elem)
  next ← judo_next heap (some elem)
  rest ← print_elements fuel print heap next
  some (out ++ (comma next ++ rest))

unfoldable pub print_members :
    ℕ → (Option ℕ → Option (List ℕ)) → Heap → (ℕ → ℕ) → Option ℕ → Option (List ℕ)
print_members fuel print heap source none = some []
print_members zero print heap source (some m) = none
print_members (suc fuel) print heap source (some m) = do
  name ← judo_name2span heap (some m)
  val ← judo_membvalue heap (some m)
  out ← print val
  next ← judo_membnext heap (some m)
  rest ← print_members fuel print heap source next
  some (print_span source name ++ (codes ":" ++ (out ++ (comma next ++ rest))))

-- The switch on the type.
unfoldable pub print_typed :
    (Option ℕ → Option (List ℕ)) → Heap → (ℕ → ℕ) → Option ℕ → JudoType → Option (List ℕ)
print_typed print heap source val JudoType.array = do
  first ← judo_first heap val
  out ← print_elements (length heap) print heap first
  some (codes "[" ++ (out ++ codes "]"))
print_typed print heap source val JudoType.object = do
  first ← judo_membfirst heap val
  out ← print_members (length heap) print heap source first
  some (codes "{" ++ (out ++ codes "}"))
print_typed print heap source val JudoType.invalid = some []
print_typed print heap source val _ = do
  span ← judo_value2span heap val
  some (print_span source span)

-- With so many levels at most.
unfoldable pub print_tree : ℕ → Heap → (ℕ → ℕ) → Option ℕ → Option (List ℕ)
print_tree zero heap source val = none
print_tree (suc levels) heap source val = do
  type ← judo_gettype heap val
  print_typed (print_tree levels heap source) heap source val type
