-- ===== src/Parser/Parse/Outcome.antt =====
-- What a call of `judo_parse` in src/judo_parse.c gives.
use mathlib.Core.Path.{subst}
use judo.Api.{Config, JudoResult, Stream, success, zero_stream}
use judo.Base.{
  ℕ, ◌*◌, ◌≤◌, ◌<◌, ◌≡◌, ◌≢◌, refl, sym, ◌∙◌, arith, Bool, true, false, Option, none, some, length,
  replicate,
}
use judo.Parser.{Heap, released, ◌>>=◌, zero_span}
use judo.Parser.Build.{Context}
use judo.Parser.Build.Heights.{Fits, judo_free-context_of}
use judo.Parser.Build.Matches.{Matches, start, site_events}
use judo.Parser.Free.{judo_free}
use judo.Parser.Parse.{
  Ended, JudoError, Parsed, map_error, description_of, finish, empty_context, judo_parse,
  parse_loop,
}
use judo.Parser.Parse.Calls.{read_events}
use judo.Parser.Parse.Loop.{Reason, refused, scanned, Loops, completes, stops, parse_loop-Loops}
use judo.Parser.Tree.{Node, events, height, layout}
use judo.Parser.Tree.Zipper.{nothing, context_of}
use judo.Scanner.Grammar.{Part}
use judo.Scanner.Reader.{read_tokens, zero_frames, zero_stream-Readable}
use judo.Scanner.Scan.{is_too_long}
use judo.Utf8.{Source}
use judo.Utf8.Sound.{IsBytes}
use judo.Utf8.Text.{IsText}

-- A call succeeds with the tree of the tokens in memory, or fails with all memory released.
pub data Parses (cfg : Config) (src : Source) (available : ℕ → Bool) (calls : ℕ)
    (error : Option JudoError) (o : Option Parsed) : Type 0 where
  built :
      (t : Node Part.value)
      → height t ≤ cfg.maxdepth
      → events t ≡ read_events cfg src calls (zero_stream cfg.maxdepth)
      → (read_tokens cfg src calls (zero_stream cfg.maxdepth)).result ≡ some success
      → o
        ≡ some (record {
          result = success;
          root = some 0;
          error = map_error (λ _. record { where_at = zero_span; description = "" }) error;
          heap = layout 0 none t;
        })
      → Parses cfg src available calls error o
  failed :
      (r : JudoResult) (s : Stream) (n : ℕ)
      → r ≢ success
      → Reason cfg src available calls (zero_stream cfg.maxdepth) r
      → o
        ≡ some (record {
          result = r;
          root = none;
          error =
              map_error
                (λ _. record { where_at = s.where_at; description = description_of r s.error })
                error;
          heap = replicate n released;
        })
      → Parses cfg src available calls error o

finish_failure :
    (maxdepth : ℕ) (r : JudoResult) (s : Stream) (ctx : Context) (error : Option JudoError)
    (h : Heap)
    → r ≢ success
    → judo_free maxdepth (2 * length ctx.heap) true ctx.root ctx.heap ≡ some (success, h)
    → finish maxdepth r s ctx error
      ≡ some (record {
        result = r;
        root = none;
        error =
            map_error
              (λ _. record { where_at = s.where_at; description = description_of r s.error })
              error;
        heap = h;
      })
unfolding finish
finish_failure maxdepth success s ctx error h n e = absurd (n refl)
finish_failure maxdepth r s ctx error h n e = rw (e, ◌>>=◌) refl

module _ (cfg : Config) (src : Source) (available : ℕ → Bool) where
  judo_parse-finish :
      (calls : ℕ) (error : Option JudoError) (e : Ended)
      → parse_loop cfg src available calls (zero_stream cfg.maxdepth) empty_context ≡ some e
      → judo_parse cfg src available calls error
        ≡ finish cfg.maxdepth e.result e.stream e.context error
  unfolding judo_parse
  judo_parse-finish calls error e h = rw (h, ◌>>=◌) refl

  Loops-Parses :
      (calls : ℕ) (error : Option JudoError)
      → Loops cfg src available nothing
          (zero_stream cfg.maxdepth)
          calls
          (parse_loop cfg src available calls (zero_stream cfg.maxdepth) empty_context)
      → Parses cfg src available calls error (judo_parse cfg src available calls error)
  unfolding site_events
  Loops-Parses calls error (completes t s le ev ok p) =
      built t le ev ok (judo_parse-finish calls error _ p ∙ unfold finish context_of in refl)
  Loops-Parses calls error (stops r s xs site n m f why p) =
      failed r s (length (context_of site).heap) n why (
        judo_parse-finish calls error _ p
        ∙ finish_failure cfg.maxdepth r s (context_of site) error _ n
            (judo_free-context_of cfg.maxdepth site m f))

module _ (cfg : Config) (src : Source) (available : ℕ → Bool) (bytes : IsBytes src.string)
    (short : is_too_long cfg src.length ≡ false) where
  -- Where the text is of bytes and shorter than the maximum, the stack has an entry at least, and more
  -- calls of the scanner are allowed than the first position `n` behind the text, a call of
  -- `judo_parse` comes to an end, uses no block that was released or is another structure, and fails
  -- no assertion. It succeeds, with the root at the first block, if the scanner reads the text up to
  -- its end; then the memory holds the blocks of one tree and nothing else, and the tokens of the tree
  -- with their spans are those that the scanner reports. Or it fails with a null root and the code of
  -- the scanner, or of a block that the caller's function refused; then every block that was allocated
  -- has been released, once.
  pub judo_parse-Parses :
      (n calls : ℕ) (error : Option JudoError)
      → 0 < cfg.maxdepth
      → ¬ IsText src.length src.string n
      → n < calls
      → Parses cfg src available calls error (judo_parse cfg src available calls error)
  unfolding context_of Fits zero_stream
  judo_parse-Parses n calls error depth end enough = Loops-Parses cfg src available calls error (
      parse_loop-Loops cfg src available bytes short n calls (zero_stream cfg.maxdepth) nothing end
        (omega arith) (omega (arith, enough)) (zero_stream-Readable cfg depth)
        (subst (λ xs. Matches xs nothing) (sym (zero_frames cfg.maxdepth)) start) tt)

  -- Under the same conditions, and where the caller's function never refuses a block, the call returns
  -- the code that reading all tokens with the scanner ends with.
  pub judo_parse-read_tokens :
      (n calls : ℕ) (error : Option JudoError)
      → 0 < cfg.maxdepth
      → ¬ IsText src.length src.string n
      → n < calls
      → ((k : ℕ) → available k ≡ true)
      → (p : Parsed) × (judo_parse cfg src available calls error ≡ some p)
        × ((read_tokens cfg src calls (zero_stream cfg.maxdepth)).result ≡ some p.result)
  judo_parse-read_tokens n calls error depth end enough given =
      by_outcome (judo_parse-Parses n calls error depth end enough)
    where
      by_outcome :
          Parses cfg src available calls error (judo_parse cfg src available calls error)
          → (p : Parsed) × (judo_parse cfg src available calls error ≡ some p)
            × ((read_tokens cfg src calls (zero_stream cfg.maxdepth)).result ≡ some p.result)
      by_outcome (built t le ev ok e) = (_, e, ok)
      by_outcome (failed r s m ne (refused k lacking is) e) =
          absurd (differ (sym (given k) ∙ lacking))
        where
          differ : true ≢ false
          differ e = cc
      by_outcome (failed r s m ne (scanned h) e) = (_, e, h)
