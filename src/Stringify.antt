-- ===== src/Stringify.antt =====
-- src/judo_scan.c: `judo_stringify`, which copies the characters of a string or of an identifier.
pub mod Content
pub mod Loops
pub mod Protocol
pub mod Strings
pub mod Scanned
pub mod Sound
pub mod Tokens
pub mod Writes
use judo.Api.{Config, JudoResult, success, invalid_operation, malfunction, no_buffer_space}
use judo.Base.{
  ℕ, zero, suc, ◌+◌, ◌-◌, ◌*◌, ◌%◌, ◌^◌, Bool, true, false, ◌&&◌, ◌||◌, not, Option, none, some,
  List, [], ◌∷◌, ltb, leb, ◌==◌, if◌then◌else◌, length, set,
}
use judo.Base.Int.{ℤ, pos, negsuc}
use judo.Chars.{is_high_surrogate, parse_character}
use judo.Lexer.Quoted.{is_newline}
use judo.Parser.{◌>>=◌}
use judo.Utf8.{Source, utf8_decode, utf8_encode}

-- `struct bytebuf`; `dest` holds the caller's buffer.
pub record ByteBuf : Type 0 where
  pub written : ℕ
  pub length : ℕ
  pub capacity : ℕ
  pub dest : Option (List ℕ)

-- memcpy into the buffer, which is undefined behind its end.
unfoldable pub copy_bytes : ℕ → List ℕ → List ℕ → Option (List ℕ)
copy_bytes i [] dest = some dest
copy_bytes i (b ∷ bs) dest =
    let rest = copy_bytes (i + 1) bs (set dest i b) in if ltb i (length dest) then rest else none

abbrev copy_to : ℕ → List ℕ → Option (List ℕ) → Option (List ℕ)
copy_to i bytes none = none
copy_to i bytes (some dest) = copy_bytes i bytes dest

-- `utf8_encode` asserts that the code point is at most 0x10FFFF.
unfoldable pub encode_asserted : ℕ → Option (List ℕ)
encode_asserted codepoint = if leb codepoint 0x10FFFF then some (utf8_encode codepoint) else none

unfoldable pub append_bytes : List ℕ → ByteBuf → Option ByteBuf
append_bytes bytes b =
    if leb (b.length + length bytes) b.capacity
    then (do
      dest ← copy_to b.length bytes b.dest
      some (record {
        written = b.written + length bytes;
        length = b.length + length bytes;
        capacity = b.capacity;
        dest = some dest;
      }))
    else some (record b { length = b.length + length bytes })

unfoldable pub write_bytes : ℕ → ByteBuf → Option ByteBuf
unfolding encode_asserted append_bytes
write_bytes codepoint b = do bytes ← encode_asserted codepoint; append_bytes bytes b

-- A character of the text: its code point, and the index behind it; or only an index; or an escape
-- that the scanner does not accept; or a failed assertion.
pub data Piece : Type 0 where
  writes : ℕ → ℕ → Piece
  skips : ℕ → Piece
  breaks : Piece
  faults : Piece

-- The code point that was parsed, where no assertion failed.
abbrev pub writes_parsed : Option ℕ → ℕ → Piece
writes_parsed none next = faults
writes_parsed (some codepoint) next = writes codepoint next

abbrev pub writes_pair : ℕ → Option ℕ → ℕ → Piece
writes_pair high none next = faults
writes_pair high (some low) next = writes ((high * 1024 + low + 0xFCA02400) % 2 ^ 32) next

-- The bytes of a buffer before its null byte.
abbrev pub before_null : List ℕ → List ℕ
before_null [] = []
before_null (b ∷ bs) = if b == 0 then [] else b ∷ before_null bs

-- What the characters behind a backslash that stand for one character stand for.
unfoldable pub simple_escape : Bool → ℕ → Option ℕ
simple_escape json5 c =
    if c == b'"' || c == b'\\' || c == b'/'
    then some c
    else if c == b'b'
    then some 0x08
    else if c == b'f'
    then some 0x0C
    else if c == b'n'
    then some 0x0A
    else if c == b'r'
    then some 0x0D
    else if c == b't'
    then some 0x09
    else if json5 && c == b'\''
    then some c
    else if json5 && c == b'v'
    then some 0x0B
    else if json5 && c == b'0'
    then some 0
    else none

module _ (cfg : Config) (src : Source) where
  abbrev pub two_digits : ℕ → Option ℕ
  two_digits i = parse_character (before_null (src.string i ∷ src.string (i + 1) ∷ []))

  abbrev pub four_digits : ℕ → Option ℕ
  four_digits i = parse_character (
      before_null
        (src.string i ∷ src.string (i + 1) ∷ src.string (i + 2) ∷ src.string (i + 3) ∷ []))

  -- \uXXXX, with a second one behind a high surrogate.
  unfoldable pub unicode_piece : ℕ → Piece
  unicode_piece index = elim (four_digits index) [
    | none ↦ faults
    | some high ↦
        if is_high_surrogate high
        then writes_pair high (four_digits (index + 6)) (index + 10)
        else writes high (index + 4)
  ]

  -- The character `c` behind a backslash; `index` is behind it.
  unfoldable pub escaped_piece : ℕ → ℕ → Piece
  escaped_piece c index = elim (simple_escape cfg.json5 c) [
    | some codepoint ↦ writes codepoint index
    | none ↦
        if cfg.json5 && c == b'x'
        then writes_parsed (two_digits index) (index + 2)
        else if c == b'u'
        then unicode_piece index
        else breaks
  ]

  abbrev pub decoded_piece : ℕ → Piece
  decoded_piece index =
      let d = utf8_decode cfg src index in writes d.codepoint (index + d.byte_count)

  -- Between quotes.
  unfoldable pub string_piece : ℕ → Piece
  string_piece index =
      if src.string index == 0x5C
      then (if cfg.json5 && leb 1 (is_newline cfg src (index + 1))
          then skips (index + 1 + is_newline cfg src (index + 1))
          else escaped_piece (src.string (index + 1)) (index + 2))
      else decoded_piece index

  -- In an identifier.
  unfoldable pub identifier_piece : ℕ → Piece
  identifier_piece index =
      if src.string index == 0x5C
      then (if src.string (index + 1) == b'u'
          then writes_parsed (four_digits (index + 2)) (index + 6)
          else faults)
      else decoded_piece index

-- The loop up to `stop`, in so many rounds at most.
unfoldable pub stringify_loop : (ℕ → Piece) → ℕ → ℕ → ℕ → ByteBuf → Option (JudoResult × ByteBuf)
stringify_loop piece stop zero index out = none
stringify_loop piece stop (suc fuel) index out = elim (ltb index stop) [
  | false ↦ some (success, out)
  | true ↦ elim (piece index) [
    | writes codepoint next ↦ do
      out' ← write_bytes codepoint out
      stringify_loop piece stop fuel next out'
    | skips next ↦ stringify_loop piece stop fuel next out
    | breaks ↦ some (malfunction, out)
    | faults ↦ none
  ]
]

-- What a call returns and stores: the code, `*buflen` and the buffer.
pub record Stringified : Type 0 where
  pub result : JudoResult
  pub buflen : ℕ
  pub buffer : Option (List ℕ)

unfoldable pub finish_string : ℕ → Option (List ℕ) → JudoResult × ByteBuf → Stringified
finish_string buflen none (success, out) = record {
  result = success;
  buflen = out.length;
  buffer = out.dest;
}
finish_string buflen (some b) (success, out) = record {
  result = if ltb out.capacity out.length then no_buffer_space else success;
  buflen = out.written;
  buffer = out.dest;
}
finish_string buflen buf (code, out) = record { result = code; buflen = buflen; buffer = out.dest }

abbrev pub is_quoted : Config → Source → Bool
is_quoted cfg src = not cfg.json5 || (src.string 0 == b'"' || src.string 0 == b'\'')

-- A call with a lexeme of some length, and a buffer of `buflen` bytes or none.
unfoldable pub judo_stringify : Config → Source → ℕ → ℕ → Option (List ℕ) → ℕ → Option Stringified
judo_stringify cfg src n fuel buf buflen =
    let out : ByteBuf = record { written = 0; length = 0; capacity = buflen; dest = buf } in
    if is_quoted cfg src
    then (do
      r ← stringify_loop (string_piece cfg src) (n - 1) fuel 1 out
      some (finish_string buflen buf r))
    else (do
      r ← stringify_loop (identifier_piece cfg src) n fuel 0 out
      some (finish_string buflen buf r))

pub data StringifyCall : Type 0 where
  stringified : Stringified → StringifyCall
  refused : JudoResult → StringifyCall

unfoldable pub stringify_lexeme :
    Config → (ℕ → ℕ) → ℤ → ℕ → Option (List ℕ) → ℕ → Option StringifyCall
stringify_lexeme cfg lexeme (negsuc n) fuel buf buflen = some (refused invalid_operation)
stringify_lexeme cfg lexeme (pos zero) fuel buf buflen = some (refused invalid_operation)
stringify_lexeme cfg lexeme (pos (suc n)) fuel buf buflen = do
  s ← judo_stringify cfg (record { string = lexeme; length = pos (suc n) }) (suc n) fuel buf buflen
  some (stringified s)

-- A call with pointers, `none` being null.
unfoldable pub stringify_call :
    Config → Option (ℕ → ℕ) → ℤ → ℕ → Option (List ℕ) → Option ℤ → Option StringifyCall
stringify_call cfg none length fuel buf buflen = some (refused invalid_operation)
stringify_call cfg (some lexeme) length fuel buf none = some (refused invalid_operation)
stringify_call cfg (some lexeme) length fuel buf (some (negsuc n)) =
    some (refused invalid_operation)
stringify_call cfg (some lexeme) length fuel none (some (pos (suc n))) =
    some (refused invalid_operation)
stringify_call cfg (some lexeme) length fuel none (some (pos zero)) =
    stringify_lexeme cfg lexeme length fuel none 0
stringify_call cfg (some lexeme) length fuel (some b) (some (pos n)) =
    stringify_lexeme cfg lexeme length fuel (some b) n
