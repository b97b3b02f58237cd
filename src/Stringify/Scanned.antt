-- ===== src/Stringify/Scanned.antt =====
-- The calls of `judo_stringify` on the string tokens of `scan_string`, both of src/judo_scan.c, in a
-- build for the JSON standards.
use judo.Api.{Config, success}
use judo.Base.{
  ℕ, ◌+◌, ◌-◌, ◌≤◌, ◌≡◌, refl, sym, ap, ◌∙◌, arith, false, none, some, List, [], ◌∷◌, ◌++◌, length,
  append-nil,
}
use judo.Lexer.Failure.{ok, Lexeme}
use judo.Lexer.Quoted.{scan_string}
use judo.Stringify.{judo_stringify}
use judo.Stringify.Content.{Content, done, plain, named, unicode, surrogates, FourDigits}
use judo.Stringify.Protocol.{judo_stringify_measures, judo_stringify_copies}
use judo.Stringify.Sound.{scan_string-Content}
use judo.Stringify.Strings.{given}
use judo.Stringify.Writes.{drop}
use judo.Utf8.{Source}
use judo.Utf8.Scalar.{Holds, rfc3629}
use judo.Utf8.Sound.{IsBytes}
use judo.Utf8.Text.{IsShort}

-- &string[start]
abbrev pub from : (ℕ → ℕ) → ℕ → ℕ → ℕ
from string start i = string (start + i)

module _ (string : ℕ → ℕ) (start : ℕ) where
  same_byte : (k i b : ℕ) → k ≡ start + i → string k ≡ b → from string start i ≡ b
  same_byte k i b e h = ap string (sym e) ∙ h

  Holds-from :
      (k i : ℕ) (bs : List ℕ) → k ≡ start + i → Holds string k bs → Holds (from string start) i bs
  Holds-from k i [] e h = tt
  Holds-from k i (b ∷ bs) e h =
      (same_byte k i b e h.0, Holds-from (k + 1) (i + 1) bs (omega (arith, e)) h.1)

  FourDigits-from :
      (k i v : ℕ) → k ≡ start + i → FourDigits string k v → FourDigits (from string start) i v
  FourDigits-from k i v e f =
      let one : k + 1 ≡ start + (i + 1) = omega (arith, e) in
      let two : k + 2 ≡ start + (i + 2) = omega (arith, e) in
      let three : k + 3 ≡ start + (i + 3) = omega (arith, e) in
      record {
        first = f.first;
        second = f.second;
        third = f.third;
        fourth = f.fourth;
        is_first = rw e at f.is_first;
        is_second = rw one at f.is_second;
        is_third = rw two at f.is_third;
        is_fourth = rw three at f.is_fourth;
        value = f.value;
      }

  Content-from :
      {stop k : ℕ} {bs : List ℕ} (i m : ℕ)
      → k ≡ start + i
      → stop ≡ start + m
      → Content string stop k bs
      → Content (from string start) m i bs
  Content-from i m e f done = let same : m ≡ i = omega (arith, e, f) in rw same done
  Content-from {k = k} i m e f (plain c s n h t) =
      plain c s n (Holds-from k i (rfc3629 c) e h)
        (Content-from (i + length (rfc3629 c)) m (omega (arith, e)) f t)
  Content-from {k = k} i m e f (named letter c b l n t) =
      named letter c (same_byte k i _ e b) (same_byte (k + 1) (i + 1) _ (omega (arith, e)) l) n
        (Content-from (i + 2) m (omega (arith, e)) f t)
  Content-from {k = k} i m e f (unicode c b u d s t) =
      unicode c (same_byte k i _ e b) (same_byte (k + 1) (i + 1) _ (omega (arith, e)) u)
        (FourDigits-from (k + 2) (i + 2) c (omega (arith, e)) d) s
        (Content-from (i + 6) m (omega (arith, e)) f t)
  Content-from {k = k} i m e f (surrogates high low b u d b' u' d' h l t) =
      surrogates high low (same_byte k i _ e b) (same_byte (k + 1) (i + 1) _ (omega (arith, e)) u)
        (FourDigits-from (k + 2) (i + 2) (0xD800 + high) (omega (arith, e)) d)
        (same_byte (k + 6) (i + 6) _ (omega (arith, e)) b')
        (same_byte (k + 7) (i + 7) _ (omega (arith, e)) u')
        (FourDigits-from (k + 8) (i + 8) (0xDC00 + low) (omega (arith, e)) d') h l
        (Content-from (i + 12) m (omega (arith, e)) f t)

drop_all : (xs : List ℕ) → drop (length xs) xs ≡ []
drop_all [] = refl
drop_all (x ∷ xs) = drop_all xs

filled_up : (bs buf : List ℕ) → length buf ≡ length bs → bs ++ drop (length bs) buf ≡ bs
filled_up bs buf e =
    ap (λ n. bs ++ drop n buf) (sym e) ∙ ap (λ rest. bs ++ rest) (drop_all buf) ∙ append-nil bs

module _ (cfg : Config) (src : Source) (bytes : IsBytes src.string) (json : cfg.json5 ≡ false) where
  -- What the two calls on a lexeme of `n` bytes return, if its characters stand for `bs`.
  pub record Converts (lexeme : ℕ → ℕ) (n : ℕ) (bs : List ℕ) : Type 0 where
    pub content : Content lexeme (n - 1) 1 bs
    pub measured :
        judo_stringify cfg (given lexeme n) n n none 0
        ≡ some (record { result = success; buflen = length bs; buffer = none })
    pub copied :
        (buf : List ℕ)
        → length buf ≡ length bs
        → judo_stringify cfg (given lexeme n) n n (some buf) (length buf)
          ≡ some (record { result = success; buflen = length bs; buffer = some bs })

  -- In a build for the JSON standards, over a text of bytes whose stated length is below the maximum:
  -- the characters between the quotes of every string that `scan_string` accepts stand for some bytes,
  -- as RFC 8259 says; a call of `judo_stringify` on the string without a buffer stores their number,
  -- and a call with a buffer of that many bytes succeeds and fills it with them.
  pub scan_string-judo_stringify :
      (start : ℕ) (l : Lexeme)
      → IsShort cfg src.length
      → scan_string cfg src start ≡ ok l
      → (bs : List ℕ) × Converts (from src.string start) l.lexeme_length bs
  scan_string-judo_stringify start l short e =
      let (bs, c, some_length, bounded) = scan_string-Content cfg src bytes json start l short e in
      let n = l.lexeme_length in
      let lexeme = from src.string start in
      let content : Content lexeme (n - 1) 1 bs =
        Content-from src.string start 1 (n - 1) refl (omega (arith, some_length)) c in
      let small : n ≤ cfg.maximum_input_size = omega (arith, bounded) in
      let own : IsBytes lexeme = λ i. bytes (start + i) in
      (
        bs,
        record {
          content = content;
          measured = judo_stringify_measures cfg lexeme n n bs json own small (omega arith) content;
          copied = λ buf same.
              judo_stringify_copies cfg lexeme n n bs json own small (omega arith) buf content
                (omega (arith, same))
              ∙ ap (λ b. some (record { result = success; buflen = length bs; buffer = some b }))
                  (filled_up bs buf same);
        },
      )
