-- ===== src/Program/Main.antt =====
-- src/judo_main.c: `judo_main`.
use judo.Api.{Config, JudoResult, success, out_of_memory, zero_stream}
use judo.Base.Int.{pos}
use judo.Base.{
  ℕ, suc, ◌*◌, ◌<◌, ◌≤◌, ◌≡◌, ◌≢◌, refl, sym, ap, ◌∙◌, arith, Bool, true, false, Option, none, some,
  List, [], append-nil, String, length, replicate, get_or, if◌then◌else◌,
}
use judo.Parser.{Heap, ◌>>=◌, zero_span, released}
use judo.Parser.Free.{judo_free}
use judo.Parser.Free.Whole.{judo_free-layout}
use judo.Parser.Parse.{JudoError, Parsed, judo_parse}
use judo.Parser.Parse.Calls.{read_events}
use judo.Parser.Parse.Loop.{refused, scanned}
use judo.Parser.Parse.Outcome.{Parses, built, failed, judo_parse-Parses}
use judo.Parser.Tree.{Node, events, height, layout, size}
use judo.Parser.Tree.Layout.{length-layout}
use judo.Program.{ProgramOptions, print_tree}
use judo.Program.Location.{Location, compulate_source_location}
use judo.Program.Pretty.{pretty_print_tree}
use judo.Program.Printed.{compact, print_tree-compact}
use judo.Scanner.Grammar.{Part}
use judo.Scanner.Reader.{read_tokens}
use judo.Scanner.Scan.{is_too_long}
use judo.Utf8.{Source}
use judo.Utf8.Sound.{IsBytes}

-- What is written to the standard error.
pub data Message : Type 0 where
  silent : Message
  plain : String → Message
  located : Location → String → Message

-- The exit status, the outputs, and the memory of the parser.
pub record Ran : Type 0 where
  pub status : ℕ
  pub out : List ℕ
  pub message : Message
  pub heap : Heap

-- The buffer that was read, and its length.
abbrev pub byte_at : List ℕ → ℕ → ℕ
byte_at bytes i = get_or bytes i 0

abbrev pub text_of : List ℕ → Source
text_of bytes = record { string = byte_at bytes; length = pos (length bytes) }

abbrev zero_error : JudoError
zero_error = record { where_at = zero_span; description = "" }

abbrev error_of : Option JudoError → JudoError
error_of none = zero_error
error_of (some e) = e

unfoldable pub print_output : ℕ → ProgramOptions → Heap → (ℕ → ℕ) → Option ℕ → Option (List ℕ)
print_output levels options heap source root =
    if options.suppress_output
    then some []
    else if options.pretty_print
    then pretty_print_tree levels options heap source 0 root
    else print_tree levels heap source root

-- Behind the call of `judo_parse`.
unfoldable pub after_parse : Config → ProgramOptions → List ℕ → JudoResult → Parsed → Option Ran
after_parse cfg options bytes success p = do
  out ← print_output (suc cfg.maxdepth) options p.heap (byte_at bytes) p.root
  r ← judo_free cfg.maxdepth (2 * length p.heap) true p.root p.heap
  some (record { status = 0; out = out; message = silent; heap = r.1 })
after_parse cfg options bytes out_of_memory p = some (record {
  status = 2;
  out = [];
  message = plain "error: memory allocation failed";
  heap = p.heap;
})
after_parse cfg options bytes _ p = do
  l ← compulate_source_location (byte_at bytes) (length bytes) (error_of p.error).where_at.offset
  some (record {
    status = 1;
    out = [];
    message = located l (error_of p.error).description;
    heap = p.heap;
  })

-- On what `judo_readstdin` returned, `none` being null.
unfoldable pub judo_main : Config → (ℕ → Bool) → ℕ → ProgramOptions → Option (List ℕ) → Option Ran
judo_main cfg available calls options none =
    some (record { status = 2; out = []; message = plain "error: failed to read stdin"; heap = [] })
judo_main cfg available calls options (some bytes) = do
  p ← judo_parse cfg (text_of bytes) available calls (some zero_error)
  after_parse cfg options bytes p.result p

abbrev pub Printing : Config → (ℕ → Bool) → ℕ → ProgramOptions → List ℕ → Type 0
Printing cfg available calls options bytes =
    (t : Node Part.value) × (events t
      ≡ read_events cfg (text_of bytes) calls (zero_stream cfg.maxdepth))
    × (judo_main cfg available calls options (some bytes)
        ≡ some (record {
          status = 0;
          out = compact (byte_at bytes) t;
          message = silent;
          heap = replicate (size t) released;
        }))

module _ (cfg : Config) (available : ℕ → Bool) (options : ProgramOptions) (bytes : List ℕ) where
  main_finishes :
      (calls : ℕ) (p : Parsed) (r : Option Ran)
      → judo_parse cfg (text_of bytes) available calls (some zero_error) ≡ some p
      → after_parse cfg options bytes p.result p ≡ r
      → judo_main cfg available calls options (some bytes) ≡ r
  unfolding judo_main
  main_finishes calls p r e h = rw (e, ◌>>=◌) h

  printed_and_released :
      (t : Node Part.value) (error : Option JudoError)
      → height t ≤ cfg.maxdepth
      → options.suppress_output ≡ false
      → options.pretty_print ≡ false
      → after_parse cfg options bytes success
          (record { result = success; root = some 0; error = error; heap = layout 0 none t })
        ≡ some (record {
          status = 0;
          out = compact (byte_at bytes) t;
          message = silent;
          heap = replicate (size t) released;
        })
  unfolding after_parse print_output
  printed_and_released t error le loud flat =
      let shown : print_tree (suc cfg.maxdepth) (layout 0 none t) (byte_at bytes) (some 0)
          ≡ some (compact (byte_at bytes) t) =
        ap (λ h. print_tree (suc cfg.maxdepth) h (byte_at bytes) (some 0))
          (sym (append-nil (layout 0 none t)))
        ∙ print_tree-compact (byte_at bytes) t cfg.maxdepth [] le in
      let freed = judo_free-layout cfg.maxdepth t (2 * size t) le (omega arith) in
      rw (loud, flat) (rw (shown, ◌>>=◌) (rw (length-layout 0 none t) (rw (freed, ◌>>=◌) refl)))

  success_only : {r : JudoResult} → some success ≡ some r → r ≡ success
  success_only e = cc

  outcome-Printing :
      (calls : ℕ)
      → ((k : ℕ) → available k ≡ true)
      → (read_tokens cfg (text_of bytes) calls (zero_stream cfg.maxdepth)).result ≡ some success
      → options.suppress_output ≡ false
      → options.pretty_print ≡ false
      → Parses cfg
          (text_of bytes)
          available
          calls
          (some zero_error)
          (judo_parse cfg (text_of bytes) available calls (some zero_error))
      → Printing cfg available calls options bytes
  outcome-Printing calls given ok loud flat (built t le ev h e) =
      (t, ev, main_finishes calls _ _ e (printed_and_released t _ le loud flat))
  outcome-Printing calls given ok loud flat (failed r s n ne (refused k lacking is) e) =
      absurd (differ (sym (given k) ∙ lacking))
    where
      differ : true ≢ false
      differ e = cc
  outcome-Printing calls given ok loud flat (failed r s n ne (scanned h) e) =
      absurd (ne (success_only (sym ok ∙ h)))

  -- Where the buffer is of bytes and shorter than the maximum, the scanner reads it up to its end, every
  -- block of memory is handed out, and the options ask for the compact output, `judo_main` exits with
  -- 0, prints the compact text of the tree whose tokens the scanner reports, and releases the tree.
  pub judo_main-compact :
      (calls : ℕ)
      → IsBytes (byte_at bytes)
      → is_too_long cfg (pos (length bytes)) ≡ false
      → 0 < cfg.maxdepth
      → length bytes < calls
      → ((k : ℕ) → available k ≡ true)
      → (read_tokens cfg (text_of bytes) calls (zero_stream cfg.maxdepth)).result ≡ some success
      → options.suppress_output ≡ false
      → options.pretty_print ≡ false
      → Printing cfg available calls options bytes
  judo_main-compact calls is_bytes short depth enough given ok loud flat =
      outcome-Printing calls given ok loud flat (
        judo_parse-Parses cfg (text_of bytes) available is_bytes short (length bytes) calls
          (some zero_error) depth (λ h. omega (arith, h)) enough)
