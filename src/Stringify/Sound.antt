-- ===== src/Stringify/Sound.antt =====
-- Every string token that `scan_string` of src/judo_scan.c accepts, in a build for the JSON standards,
-- has characters that stand for bytes.
use judo.Api.{Config}
use judo.Base.{
  ℕ, ◌+◌, ◌-◌, ◌*◌, ◌≤◌, ◌<◌, ◌≡◌, ◌≢◌, ◌⊎◌, inl, inr, refl, sym, arith, true, false, Option, some,
  none, List, [], ◌++◌, length,
}
use judo.Lexer.Failure.{ok, err, Lexeme, Result}
use judo.Lexer.Number.{rounds}
use judo.Lexer.Quoted.{
  continue, scan_unicode, scan_escaped, scan_escape, is_simple_escape, scan_characters, string_to,
  scan_string,
}
use judo.Lexer.Quoted.Ends.{
  Characters, here, passed, IsCharacter, escaped, Ended, scan_characters_stops,
}
use judo.Stringify.Content.{
  Content, Names, quotation_mark, reverse_solidus, solidus, backspace, form_feed, line_feed,
  carriage_return, tab, done, named, unicode, surrogates, Content-le,
}
use judo.Stringify.Tokens.{Unicode, scan_unicode-Unicode}
use judo.Utf8.{Source, is_bounded, utf8_decode, utf8_encode}
use judo.Utf8.Scalar.{Holds, rfc3629, utf8_encode-rfc3629}
use judo.Utf8.Sound.{IsBytes, utf8_decode-Reads}
use judo.Utf8.Text.{IsShort, is_bounded-lt}

simple_cases :
    (c : ℕ)
    → is_simple_escape false c ≡ true
    → (c ≡ b'"')
      ⊎ (c ≡ b'\\')
      ⊎ (c ≡ b'/')
      ⊎ (c ≡ b'b')
      ⊎ (c ≡ b'f')
      ⊎ (c ≡ b'n')
      ⊎ (c ≡ b'r')
      ⊎ (c ≡ b't')
unfolding is_simple_escape
simple_cases c h = ground arith

simple_named : (c : ℕ) → is_simple_escape false c ≡ true → (v : ℕ) × Names c v
simple_named c h = elim (simple_cases c h) [
  | inl e ↦ (0x22, rw e quotation_mark)
  | inr (inl e) ↦ (0x5C, rw e reverse_solidus)
  | inr (inr (inl e)) ↦ (0x2F, rw e solidus)
  | inr (inr (inr (inl e))) ↦ (0x08, rw e backspace)
  | inr (inr (inr (inr (inl e)))) ↦ (0x0C, rw e form_feed)
  | inr (inr (inr (inr (inr (inl e))))) ↦ (0x0A, rw e line_feed)
  | inr (inr (inr (inr (inr (inr (inl e)))))) ↦ (0x0D, rw e carriage_return)
  | inr (inr (inr (inr (inr (inr (inr e)))))) ↦ (0x09, rw e tab)
]

module _ (cfg : Config) (src : Source) (bytes : IsBytes src.string) (json : cfg.json5 ≡ false) where
  scan_escaped_cases :
      (start i next : ℕ)
      → scan_escaped cfg src start i ≡ continue next
      → ((is_simple_escape false (src.string i) ≡ true) × (next ≡ i + 1))
        ⊎ ((src.string i ≡ b'u') × (scan_unicode cfg src start (i + 1) ≡ continue next))
  unfolding scan_escaped
  scan_escaped_cases start i next h = let h' = rw json at h in ground arith

  scan_escape_cases :
      (start i next : ℕ)
      → scan_escape cfg src start i ≡ continue next
      → ((is_bounded cfg src i 1 ≡ false) × (next ≡ i))
        ⊎ ((is_bounded cfg src i 1 ≡ true) × (scan_escaped cfg src start i ≡ continue next))
  unfolding scan_escape
  scan_escape_cases start i next h = ground (arith, json)

  -- The characters from `i` to `j` stand for some bytes.
  abbrev pub Stand : ℕ → ℕ → Type 0
  Stand j i = (bs : List ℕ) × Content src.string j i bs

  simple_Stand :
      (i j : ℕ)
      → src.string i ≡ 0x5C
      → (v : ℕ) × Names (src.string (i + 1)) v
      → Stand j (i + 2)
      → Stand j i
  simple_Stand i j b (v, k) (bs, t) = (rfc3629 v ++ bs, named (src.string (i + 1)) v b refl k t)

  Unicode-Stand :
      (i j next : ℕ)
      → src.string i ≡ 0x5C
      → src.string (i + 1) ≡ b'u'
      → Unicode cfg src (i + 2) next
      → Stand j next
      → Stand j i
  Unicode-Stand i j next b u (inl (c, f, s, e)) (bs, t) =
      let k : next ≡ i + 6 = omega (arith, e) in (rfc3629 c ++ bs, unicode c b u f s (rw k at t))
  Unicode-Stand i j next b u (inr (high, low, f, b', u', g, h, l, e)) (bs, t) =
      let k : next ≡ i + 12 = omega (arith, e) in
      let four : i + 2 + 4 ≡ i + 6 = omega arith in
      let five : i + 2 + 5 ≡ i + 7 = omega arith in
      let six : i + 2 + 6 ≡ i + 8 = omega arith in
      (
        rfc3629 (0x10000 + high * 0x400 + low) ++ bs,
        surrogates high low b u f (rw four at b') (rw five at u') (rw six at g) h l (rw k at t),
      )

  plain_Stand :
      (i j next : ℕ)
      → src.string i ≢ 0x5C
      → 0 < (utf8_decode cfg src i).byte_count
      → next ≡ i + (utf8_decode cfg src i).byte_count
      → Stand j next
      → Stand j i
  plain_Stand i j next n p e (bs, t) =
      let r = utf8_decode-Reads cfg src bytes i p in
      let c = (utf8_decode cfg src i).codepoint in
      let same : utf8_encode c ≡ rfc3629 c = utf8_encode-rfc3629 c (omega (arith, r.scalar)) in
      let held : Holds src.string i (rfc3629 c) = rw same at r.stands in
      let long : length (rfc3629 c) ≡ (utf8_decode cfg src i).byte_count = rw same at r.takes in
      let k : next ≡ i + length (rfc3629 c) = omega (arith, e, long) in
      (rfc3629 c ++ bs, Content.plain c r.scalar (λ z. n (first_byte i c z held)) held (rw k at t))
    where
      first_byte : (i c : ℕ) → c ≡ 0x5C → Holds src.string i (rfc3629 c) → src.string i ≡ 0x5C
      first_byte i c z h = ground arith

  stuck :
      (q k j : ℕ)
      → is_bounded cfg src k 1 ≡ false
      → is_bounded cfg src j 1 ≡ true
      → Characters cfg src bytes q k j
      → ⊥
  stuck q k j h b here = cc
  stuck q k j h b (passed m c t) = cc

  escaped_Stand :
      (q i next j : ℕ)
      → src.string i ≡ 0x5C
      → scan_escape cfg src i (i + 1) ≡ continue next
      → Characters cfg src bytes q next j
      → is_bounded cfg src j 1 ≡ true
      → Stand j next
      → Stand j i
  escaped_Stand q i next j b e t inside rest = elim (scan_escape_cases i (i + 1) next e) [
    | inl (open_end, k) ↦ absurd (stuck q next j (rw (sym k) at open_end) inside t)
    | inr (more, f) ↦ elim (scan_escaped_cases i (i + 1) next f) [
      | inl (simple, k) ↦
          let two : next ≡ i + 2 = omega (arith, k) in
          simple_Stand i j b (simple_named (src.string (i + 1)) simple) (rw two at rest)
      | inr (u, g) ↦
          let two : i + 1 + 1 ≡ i + 2 = omega arith in
          Unicode-Stand i j next b u (scan_unicode-Unicode cfg src i (i + 2) next (rw two at g))
            rest
    ]
  ]

  Characters-Stand :
      (q : ℕ) {i j : ℕ} → is_bounded cfg src j 1 ≡ true → Characters cfg src bytes q i j → Stand j i
  Characters-Stand q inside here = ([], done)
  Characters-Stand q inside (passed {i} {next} {j} m (IsCharacter.plain lo n nq p e) t) =
      plain_Stand i j next n p e (Characters-Stand q inside t)
  Characters-Stand q inside (passed {i} {next} {j} m (escaped b e) t) =
      escaped_Stand q i next j b e t inside (Characters-Stand q inside t)

  -- In a build for the JSON standards, over a text of bytes whose stated length is below the maximum:
  -- the characters between the quotes of every string that `scan_string` accepts stand for some bytes,
  -- as RFC 8259 says, and the string has some length and ends below the maximum.
  pub scan_string-Content :
      (start : ℕ) (l : Lexeme)
      → IsShort cfg src.length
      → scan_string cfg src start ≡ ok l
      → (bs : List ℕ) × Content src.string (start + l.lexeme_length - 1) (start + 1) bs
        × (start < start + l.lexeme_length)
        × (start + l.lexeme_length ≤ cfg.maximum_input_size)
  unfolding scan_string string_to rounds
  scan_string-Content start l short e =
      by_end (scan_characters cfg src (src.string start) (rounds cfg src) (start + 1)) e (
        scan_characters_stops cfg src bytes (src.string start) (rounds cfg src) (start + 1) short
          (omega arith))
    where
      by_end :
          (r : Result (Option ℕ))
          → string_to cfg src start r ≡ ok l
          → Ended cfg src bytes (src.string start) (start + 1) r
          → (bs : List ℕ) × Content src.string (start + l.lexeme_length - 1) (start + 1) bs
            × (start < start + l.lexeme_length)
            × (start + l.lexeme_length ≤ cfg.maximum_input_size)
      by_end (ok none) e h = cc
      by_end (ok (some stop)) e (j, t, inside, q, k) =
          let (bs, c) = Characters-Stand (src.string start) inside t in
          let le = Content-le c in
          let n : l.lexeme_length ≡ stop - start = ground arith in
          let same : j ≡ start + l.lexeme_length - 1 = omega (arith, n, k, le) in
          let bounded = is_bounded-lt cfg src j 1 short (omega arith) inside in
          (bs, rw same at c, omega (arith, n, k, le), omega (arith, n, k, le, bounded))
      by_end (err f) e h = cc
