-- ===== src/Program/Pretty.antt =====
-- src/judo_main.c: `pretty_print_tree`.
use judo.Base.{
  ℕ, zero, suc, ◌+◌, ◌*◌, max, Option, none, some, List, [], ◌++◌, length, replicate, codes, ◌==◌,
  if◌then◌else◌,
}
use judo.Parser.{
  JudoType, Heap, ◌>>=◌, judo_gettype, judo_first, judo_next, judo_membfirst, judo_membnext,
  judo_membvalue, judo_name2span, judo_value2span, judo_len,
}
use judo.Program.{ProgramOptions, print_span, comma}

-- printf("%*c", ...) pads one space to the width.
unfoldable pub pretty_print_indent : ProgramOptions → ℕ → List ℕ
pretty_print_indent options zero = []
pretty_print_indent options (suc depth) =
    if options.use_tabs
    then replicate (suc depth) 9
    else replicate (max 1 (suc depth * options.indention_width)) 32

unfoldable pub pretty_print_elements :
    ℕ → ProgramOptions → (Option ℕ → Option (List ℕ)) → Heap → ℕ → Option ℕ → Option (List ℕ)
pretty_print_elements fuel options print heap depth none = some []
pretty_print_elements zero options print heap depth (some elem) = none
pretty_print_elements (suc fuel) options print heap depth (some elem) = do
  out ← print (some elem)
  next ← judo_next heap (some elem)
  rest ← pretty_print_elements fuel options print heap depth next
  some (pretty_print_indent options (depth + 1) ++ (out ++ (comma next ++ (codes "\n" ++ rest))))

unfoldable pub pretty_print_members :
    ℕ
    → ProgramOptions
    → (Option ℕ → Option (List ℕ))
    → Heap
    → (ℕ → ℕ)
    → ℕ
    → Option ℕ
    → Option (List ℕ)
pretty_print_members fuel options print heap source depth none = some []
pretty_print_members zero options print heap source depth (some m) = none
pretty_print_members (suc fuel) options print heap source depth (some m) = do
  name ← judo_name2span heap (some m)
  val ← judo_membvalue heap (some m)
  out ← print val
  next ← judo_membnext heap (some m)
  rest ← pretty_print_members fuel options print heap source depth next
  some (
      pretty_print_indent options (depth + 1)
      ++ (print_span source name ++ (codes ": " ++ (out ++ (comma next ++ (codes "\n" ++ rest))))))

-- The switch on the type, with the function that prints a value one level deeper.
unfoldable pub pretty_print_typed :
    ProgramOptions
    → (Option ℕ → Option (List ℕ))
    → Heap
    → (ℕ → ℕ)
    → ℕ
    → Option ℕ
    → JudoType
    → Option (List ℕ)
pretty_print_typed options print heap source depth val JudoType.array = do
  n ← judo_len heap val
  if n == 0 then some (codes "[]") else (do
    first ← judo_first heap val
    out ← pretty_print_elements (length heap) options print heap depth first
    some (codes "[\n" ++ (out ++ (pretty_print_indent options depth ++ codes "]"))))
pretty_print_typed options print heap source depth val JudoType.object = do
  n ← judo_len heap val
  if n == 0 then some (codes "{}") else (do
    first ← judo_membfirst heap val
    out ← pretty_print_members (length heap) options print heap source depth first
    some (codes "{\n" ++ (out ++ (pretty_print_indent options depth ++ codes "}"))))
pretty_print_typed options print heap source depth val JudoType.invalid = some []
pretty_print_typed options print heap source depth val _ = do
  span ← judo_value2span heap val
  some (print_span source span)

-- With so many levels at most.
unfoldable pub pretty_print_tree :
    ℕ → ProgramOptions → Heap → (ℕ → ℕ) → ℕ → Option ℕ → Option (List ℕ)
pretty_print_tree zero options heap source depth val = none
pretty_print_tree (suc levels) options heap source depth val = do
  type ← judo_gettype heap val
  pretty_print_typed options (pretty_print_tree levels options heap source (depth + 1)) heap source
      depth val type
