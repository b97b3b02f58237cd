-- ===== src/Numberify.antt =====
-- src/judo_scan.c: `judo_numberify`, over the floating-point type of the build, which is a parameter.
-- `none` stands for an exponent that overflows 32 bits, which C does not define, and for a failed
-- assertion on a hexadecimal digit. The characters of an
-- exponent are taken to be digits, as in every number token.
pub mod Integers
use judo.Api.{Config, JudoResult, success, out_of_range, invalid_operation}
use judo.Base.Int.{ℤ, pos, negsuc}
use judo.Base.{
  ℕ, zero, suc, ◌+◌, ◌-◌, ◌*◌, Bool, true, false, ◌&&◌, ◌||◌, Option, none, some, ltb, ◌==◌,
  if◌then◌else◌, codes,
}
use judo.Chars.{judo_isdigit, is_match, digit_value}
use judo.Parser.{◌>>=◌}

-- The constants of `judo_number` and its operations.
pub record Floats (F : Type 0) : Type 0 where
  pub of_int : ℕ → F
  pub minus_one : F
  pub tenth : F
  pub infinity : F
  pub nan : F
  pub add : F → F → F
  pub mul : F → F → F
  pub is_infinity : F → Bool

-- What a call returns, and `*number`.
pub record Numbered (F : Type 0) : Type 0 where
  pub result : JudoResult
  pub number : F

-- The value, the character that was read last, the index behind it, and the number of digits.
pub record Digits (F : Type 0) : Type 0 where
  pub value : F
  pub last : ℕ
  pub index : ℕ
  pub count : ℕ

-- exponent, as what it adds and what it takes away
pub record Exponent : Type 0 where
  pub up : ℕ
  pub down : ℕ

module _ (string : ℕ → ℕ) where
  -- The digits up to the end of the text, of which so many characters are left.
  unfoldable pub exponent_value : ℕ → ℕ → ℕ → ℕ → Option ℕ
  exponent_value zero index c value =
      let value' = value * 10 + (c - 48) in if ltb 2147483647 value' then none else some value'
  exponent_value (suc left) index c value =
      let value' = value * 10 + (c - 48) in
      let rest = exponent_value left (index + 1) (string index) value' in
      if ltb 2147483647 value' then none else rest

  -- The exponent behind its letter, with `fraction` digits before that.
  unfoldable pub read_exponent : ℕ → ℕ → ℕ → Option Exponent
  read_exponent zero index fraction = some (record { up = 0; down = fraction })
  read_exponent (suc left) index fraction =
      if string index == b'+'
      then (do
        e ← exponent_value (left - 1) (index + 2) (string (index + 1)) 0
        some (record { up = e; down = fraction }))
      else if string index == b'-'
      then (do
        e ← exponent_value (left - 1) (index + 2) (string (index + 1)) 0
        if ltb 2147483648 (fraction + e)
            then none
            else some (record { up = 0; down = fraction + e }))
      else (do
        e ← exponent_value left (index + 1) (string index) 0
        some (record { up = e; down = fraction }))

  module _ {F : Type 0} (floats : Floats F) where
    -- Digits, up to a character that is none or to the end of the text.
    unfoldable pub read_digits : ℕ → ℕ → ℕ → F → ℕ → Digits F
    read_digits zero index last value count = record {
      value = value;
      last = last;
      index = index;
      count = count;
    }
    read_digits (suc left) index last value count =
        let c = string index in
        let value' = floats.add (floats.mul value (floats.of_int 10)) (floats.of_int (c - 48)) in
        let rest = read_digits left (index + 1) c value' (count + 1) in
        if judo_isdigit c
        then rest
        else record { value = value; last = c; index = index + 1; count = count }

    -- So many times.
    unfoldable pub scale : ℕ → F → F → F
    scale zero factor value = value
    scale (suc n) factor value = scale n factor (floats.mul value factor)

    -- The last lines of `json_atol` and `json_atof`.
    unfoldable pub finish_number : F → F → Numbered F
    finish_number value sign = record {
      result = if floats.is_infinity value then out_of_range else success;
      number = floats.mul value sign;
    }

    unfoldable pub read_fraction : ℕ → Digits F → Digits F
    read_fraction length d =
        if d.last == b'.'
        then read_digits (length - d.index) d.index d.last d.value 0
        else record d { count = 0 }

    unfoldable pub finish_exponent : ℕ → Digits F → F → Option (Numbered F)
    finish_exponent length d sign = do
      e ←
          (if d.last == b'e' || d.last == b'E'
            then read_exponent (length - d.index) d.index d.count
            else some (record { up = 0; down = d.count }))
      some (
          finish_number
            (scale (e.down - e.up) floats.tenth (scale (e.up - e.down) (floats.of_int 10) d.value))
            sign)

    -- The digits behind the sign.
    unfoldable pub atof_from : ℕ → ℕ → F → Option (Numbered F)
    atof_from length index sign =
        let d = read_digits (length - index) index 0 (floats.of_int 0) 0 in
        finish_exponent length (read_fraction length d) sign

    unfoldable pub json_atof : Bool → ℕ → Option (Numbered F)
    json_atof json5 length =
        if json5 && string 0 == b'+'
        then atof_from length 1 (floats.of_int 1)
        else if string 0 == b'-'
        then atof_from length 1 floats.minus_one
        else atof_from length 0 (floats.of_int 1)

    unfoldable pub read_hexadecimal : ℕ → ℕ → F → Option F
    read_hexadecimal zero index value = some value
    read_hexadecimal (suc left) index value = do
      digit ← digit_value (string index)
      read_hexadecimal left (index + 1)
          (floats.add (floats.mul value (floats.of_int 16)) (floats.of_int digit))

    -- JSON5: a hexadecimal number, with its digits behind `0x`.
    unfoldable pub json_atol : ℕ → Option (Numbered F)
    json_atol length =
        if string 0 == b'+'
        then (do
          value ← read_hexadecimal (length - 3) 3 (floats.of_int 0)
          some (finish_number value (floats.of_int 1)))
        else if string 0 == b'-'
        then (do
          value ← read_hexadecimal (length - 3) 3 (floats.of_int 0)
          some (finish_number value floats.minus_one))
        else do
          value ← read_hexadecimal (length - 2) 2 (floats.of_int 0)
          some (finish_number value (floats.of_int 1))

    abbrev has_hexadecimal_prefix : ℕ → Bool
    has_hexadecimal_prefix i =
        string i == b'0' && (string (i + 1) == b'x' || string (i + 1) == b'X')

    -- Behind the sign, from `ident` on.
    unfoldable pub convert : Bool → ℕ → ℕ → F → Option (Numbered F)
    convert json5 length ident sign =
        if json5 && is_match string ident (codes "NaN") (length - ident)
        then some (record { result = success; number = floats.nan })
        else if json5 && is_match string ident (codes "Infinite") (length - ident)
        then some (record { result = success; number = floats.mul sign floats.infinity })
        else if json5 && has_hexadecimal_prefix ident
        then json_atol length
        else json_atof json5 length

    -- A call with a lexeme of some length.
    unfoldable pub judo_numberify : Config → ℕ → Option (Numbered F)
    judo_numberify cfg length =
        if string 0 == b'-'
        then convert cfg.json5 length 1 floats.minus_one
        else if cfg.json5 && string 0 == b'+'
        then convert cfg.json5 length 1 (floats.of_int 1)
        else convert cfg.json5 length 0 (floats.of_int 1)

pub data NumberifyCall (F : Type 0) : Type 0 where
  numbered : Numbered F → NumberifyCall F
  refused : JudoResult → NumberifyCall F

-- A call with pointers: a lexeme or null, and if there is a place for the number.
unfoldable pub numberify_call :
    {F : Type 0} → Floats F → Config → Option (ℕ → ℕ) → ℤ → Bool → Option (NumberifyCall F)
numberify_call floats cfg none length has_number = some (refused invalid_operation)
numberify_call floats cfg (some lexeme) (negsuc n) has_number = some (refused invalid_operation)
numberify_call floats cfg (some lexeme) (pos zero) has_number = some (refused invalid_operation)
numberify_call floats cfg (some lexeme) (pos (suc n)) false = some (refused invalid_operation)
numberify_call floats cfg (some lexeme) (pos (suc n)) true = do
  x ← judo_numberify lexeme floats cfg (suc n)
  some (numbered x)
