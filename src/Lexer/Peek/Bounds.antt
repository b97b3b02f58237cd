-- ===== src/Lexer/Peek/Bounds.antt =====
-- The tokens of `peek` lie in the text.
use judo.Api.{Config}
use judo.Base.{ℕ, ◌+◌, ◌<◌, ◌≡◌, ◌≢◌, ◌⊎◌, inl, inr, refl, arith, Option, none, some}
use judo.Chars.{judo_isdigit}
use judo.Lexer.Failure.{Failure, Result, ok, err, Lexeme, Token, eof, report, result_of}
use judo.Lexer.Number.{peek_at}
use judo.Lexer.Number.Bounds.{scan_number-IsToken, advance}
use judo.Lexer.Peek.{
  Scanner, Outcome, done, stopped, starts_number, recognized, scan_word, lex_character, lex,
  peek_from, peek,
}
use judo.Lexer.Quoted.Bounds.{scan_string-IsToken}
use judo.Lexer.Space.{Consumed, consume_space_and_comments}
use judo.Lexer.Space.Bounds.{consume_space_and_comments-Spans}
use judo.Lexer.Word.Bounds.{IsWord, scan_keyword-IsWord, scan_es5_identifier-IsWord}
use judo.Utf8.{Source, utf8_decode}
use judo.Utf8.Sound.{IsBytes}
use judo.Utf8.Null.{utf8_decode-ends}
use judo.Utf8.Text.{IsText, Spans}

-- A token other than the end of the text takes some characters of the text, and no more.
abbrev pub IsReal : Source → ℕ → Lexeme → Type 0
IsReal src start l =
    (l.type ≢ eof) × Spans src start (start + l.lexeme_length) × (0 < l.lexeme_length)

-- What `peek` returns: a token behind the spaces, with the stream as it was, or an error.
pub data Peeks (src : Source) (sc : Scanner) (o : Outcome Token) : Type 0 where
  ends :
      (token : Token)
      → o ≡ done token (record { index = token.lexeme; stream = sc.stream })
      → token.type ≡ eof
      → token.lexeme_length ≡ 0
      → ¬ IsText src.length src.string token.lexeme
      → Spans src sc.index token.lexeme
      → Peeks src sc o
  real :
      (token : Token)
      → o ≡ done token (record { index = token.lexeme; stream = sc.stream })
      → token.type ≢ eof
      → Spans src sc.index token.lexeme
      → Spans src token.lexeme (token.lexeme + token.lexeme_length)
      → 0 < token.lexeme_length
      → Peeks src sc o
  fails :
      (e : Failure) (i : ℕ)
      → o ≡ stopped (result_of e) (record { index = i; stream = report e sc.stream })
      → Spans src sc.index i
      → Peeks src sc o

module _ (cfg : Config) (src : Source) (bytes : IsBytes src.string) where
  scan_word-IsWord : (i : ℕ) (l : Lexeme) → scan_word cfg src i ≡ ok l → IsWord src i l
  unfolding scan_word
  scan_word-IsWord i l h =
      ground
        (arith, scan_keyword-IsWord cfg src bytes i, scan_es5_identifier-IsWord cfg src bytes i l)

  recognized-IsReal :
      (i n : ℕ) (r : Result Lexeme) (l : Lexeme)
      → recognized i n r ≡ ok l
      → ((k : Lexeme) → r ≡ ok k → IsWord src i k)
      → IsReal src i l
  unfolding recognized
  recognized-IsReal i n (ok k) l h w = ground (arith, w k refl)
  recognized-IsReal i n (err e) l h w = cc

  one_character : (i : ℕ) → 0 < peek_at cfg src i → peek_at cfg src i < 0x80 → Spans src i (i + 1)
  one_character i p q = advance cfg src bytes i (i + 1) (omega arith) p q

  recognized_word-IsReal :
      (i n : ℕ) (l : Lexeme) → recognized i n (scan_word cfg src i) ≡ ok l → IsReal src i l
  recognized_word-IsReal i n l h =
      recognized-IsReal i n (scan_word cfg src i) l h (scan_word-IsWord i)

  lex_character-IsReal :
      (i : ℕ) (l : Lexeme) → lex_character cfg src i (utf8_decode cfg src i) ≡ ok l → IsReal src i l
  unfolding lex_character starts_number judo_isdigit
  lex_character-IsReal i l h = ground (
    arith,
    one_character i,
    scan_number-IsToken cfg src bytes i l,
    scan_string-IsToken cfg src bytes i l,
    recognized_word-IsReal i (utf8_decode cfg src i).byte_count l,
  )

  -- The end of the text, where no byte is decoded; it takes no characters.
  IsEnd : ℕ → Lexeme → Type 0
  IsEnd i l =
      (l.type ≡ eof)
      × (l.lexeme_length ≡ 0)
      × (utf8_decode cfg src i ≡ record { codepoint = 0; byte_count = 0 })

  lex_cases : (i : ℕ) (l : Lexeme) → lex cfg src i ≡ ok l → IsEnd i l ⊎ IsReal src i l
  unfolding lex IsEnd
  lex_cases i l h = ground (arith, lex_character-IsReal i l)

  peek_from-Peeks :
      (c : Consumed) (sc : Scanner) (f : Option Failure) (r : Result Lexeme)
      → c.failure ≡ f
      → lex cfg src c.index ≡ r
      → Spans src sc.index c.index
      → Peeks src sc (peek_from cfg src c sc.stream)
  unfolding peek_from IsEnd
  peek_from-Peeks c sc (some e) r f l s = fails e c.index (ground arith) s
  peek_from-Peeks c sc none (err e) f l s = fails e c.index (ground arith) s
  peek_from-Peeks c sc none (ok x) f l s = elim (lex_cases c.index x l) [
    | inl (t, n, d) ↦ ends (token x) (ground arith) t n (utf8_decode-ends cfg src bytes c.index d) s
    | inr (t, u, p) ↦ real (token x) (ground arith) t s u p
  ]
    where
      token : Lexeme → Token
      token x = record { type = x.type; lexeme = c.index; lexeme_length = x.lexeme_length }

  -- On a text of bytes, `peek` ends in one of three ways, and passes over positions of the text only:
  -- with the token for the end, of no length, where no byte of the text stands; at a token of at least one byte, which lies in the text;
  -- or with an error, which it stored in the stream.
  pub peek-Peeks : (sc : Scanner) → Peeks src sc (peek cfg src sc)
  unfolding peek
  peek-Peeks sc =
      peek_from-Peeks (consume_space_and_comments cfg src sc.index) sc _ _ refl refl
        (consume_space_and_comments-Spans cfg src bytes sc.index)
