-- ===== src/Stringify/Protocol.antt =====
-- The two calls of `judo_stringify` in src/judo_scan.c: one that measures, and one that copies.
use judo.Api.{Config, JudoResult, success, no_buffer_space}
use judo.Base.{
  ℕ, ◌-◌, ◌≤◌, ◌<◌, ◌≡◌, refl, ap, ◌∙◌, arith, true, false, Option, none, some, List, [], ◌++◌, ltb,
  length,
}
use judo.Parser.{◌>>=◌}
use judo.Stringify.{
  ByteBuf, Piece, Stringified, stringify_loop, string_piece, is_quoted, finish_string,
  judo_stringify,
}
use judo.Stringify.Content.{Content}
use judo.Stringify.Loops.{Stands, full_loop, fit_loop, over_loop}
use judo.Stringify.Strings.{given, Content-Stands}
use judo.Stringify.Writes.{drop, filled}
use judo.Utf8.{Source}
use judo.Utf8.Sound.{IsBytes}

json_quoted : (cfg : Config) (src : Source) → cfg.json5 ≡ false → is_quoted cfg src ≡ true
json_quoted cfg src json = rw json refl

abbrev opened : Option (List ℕ) → ℕ → ByteBuf
opened buf buflen = record { written = 0; length = 0; capacity = buflen; dest = buf }

module _ (cfg : Config) (lexeme : ℕ → ℕ) (n fuel : ℕ) (bs : List ℕ) (json : cfg.json5 ≡ false)
    (bytes : IsBytes lexeme) (small : n ≤ cfg.maximum_input_size) (enough : n ≤ fuel) where
  abbrev pieces : ℕ → Piece
  pieces = string_piece cfg (given lexeme n)

  by_loop :
      {Q : JudoResult × ByteBuf → Type 0} (buf : Option (List ℕ)) (buflen : ℕ)
      → (Stands pieces (n - 1) fuel 1 bs
          → (r : JudoResult × ByteBuf) × (stringify_loop pieces (n - 1) fuel 1 (opened buf buflen)
              ≡ some r)
            × Q r)
      → Content lexeme (n - 1) 1 bs
      → (r : JudoResult × ByteBuf) × (judo_stringify cfg (given lexeme n) n fuel buf buflen
          ≡ some (finish_string buflen buf r))
        × Q r
  unfolding judo_stringify
  by_loop buf buflen f c =
      let (r, e, h) =
        f (Content-Stands cfg lexeme n bytes json small fuel (omega (arith, enough)) c) in
      (r, rw (json_quoted cfg (given lexeme n) json) (rw (e, ◌>>=◌) refl), h)

  -- In a build for the JSON standards, a lexeme of bytes that is no longer than the maximum, with
  -- enough rounds: where what stands between its quotes stands for some bytes as RFC 8259 says, a
  -- call without a buffer succeeds and stores their number.
  pub judo_stringify_measures :
      Content lexeme (n - 1) 1 bs
      → judo_stringify cfg (given lexeme n) n fuel none 0
        ≡ some (record { result = success; buflen = length bs; buffer = none })
  unfolding finish_string
  judo_stringify_measures s =
      let (r, e, h) =
        by_loop {Q = λ r. r ≡ (success, record (opened none 0) { length = length bs })} none 0
          (λ t. (
            _,
            full_loop pieces (n - 1) (opened none 0) t (omega arith),
            ap (λ k. (success, record (opened none 0) { length = k })) (omega arith),
          ))
          s in
      e ∙ rw h refl

  -- In a build for the JSON standards, a lexeme of bytes that is no longer than the maximum, with
  -- enough rounds: where what stands between its quotes stands for some bytes as RFC 8259 says, and
  -- the buffer has room for them, the call succeeds: it stores their number, and the bytes at the begin
  -- of the buffer, whose rest it leaves as it was.
  pub judo_stringify_copies :
      (buf : List ℕ)
      → Content lexeme (n - 1) 1 bs
      → length bs ≤ length buf
      → judo_stringify cfg (given lexeme n) n fuel (some buf) (length buf)
        ≡ some (record {
          result = success;
          buflen = length bs;
          buffer = some (bs ++ drop (length bs) buf);
        })
  unfolding finish_string
  judo_stringify_copies buf s le =
      let (r, e, h) =
        by_loop {Q = λ r. r ≡ (success, filled bs (drop (length bs) buf) (length buf))} (some buf)
          (length buf)
          (λ t. (_, fit_loop pieces (n - 1) [] buf (length buf) t (omega arith) le, refl)) s in
      let room : ltb (length buf) (length bs) ≡ false = ground arith in e ∙ rw h (rw room refl)

  -- In a build for the JSON standards, a lexeme of bytes that is no longer than the maximum, with
  -- enough rounds: where what stands between its quotes stands for more bytes, as RFC 8259 says, than
  -- the buffer holds, the call returns the code for that, and stores a number of bytes that fit.
  pub judo_stringify_lacks :
      (buf : List ℕ)
      → Content lexeme (n - 1) 1 bs
      → length buf < length bs
      → (s : Stringified) × (judo_stringify cfg (given lexeme n) n fuel (some buf) (length buf)
          ≡ some s)
        × (s.result ≡ no_buffer_space)
        × (s.buflen ≤ length buf)
  unfolding finish_string
  judo_stringify_lacks buf s lt =
      let (r, e, h) =
        by_loop
          {Q = λ r.
            (b : ByteBuf) × (r ≡ (success, b))
            × (b.capacity ≡ length buf)
            × (length buf < b.length)
            × (b.written ≤ length buf)}
          (some buf) (length buf)
          (λ t.
            let (b, g, k, l, m) = over_loop pieces (n - 1) [] buf (length buf) t (omega arith) lt in
            ((success, b), g, (b, refl, k, l, m)))
          s in
      let (b, is, cap_is, over, below) = h in
      let full : ltb b.capacity b.length ≡ true = rw cap_is (ground arith) in
      (finish_string (length buf) (some buf) r, e, rw is (rw full refl), rw is below)
