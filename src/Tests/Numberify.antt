-- ===== src/Tests/Numberify.antt =====
-- Runs of `judo_numberify` of src/judo_scan.c, and an instance of the theorem.
use judo.Api.{success}
use judo.Base.{ℕ, zero, suc, ◌+◌, ◌-◌, ◌*◌, ◌<◌, ◌≡◌, refl, arith, inr, true, some, leb}
use judo.Chars.{judo_isdigit}
use judo.Numberify.{
  Floats, judo_numberify, convert, json_atof, atof_from, read_digits, read_fraction, read_exponent,
  finish_exponent, finish_number, scale, exponent_value,
}
use judo.Numberify.Integers.{whole_number, judo_numberify-whole_number}
use judo.Tests.{rfc, bytes_of}

-- Natural numbers in place of floating-point numbers, infinite from 1000 on.
abbrev naturals : Floats ℕ
naturals = record {
  of_int = λ n. n;
  minus_one = 0;
  tenth = 0;
  infinity = 1000;
  nan = 0;
  add = ◌+◌;
  mul = ◌*◌;
  is_infinity = leb 1000;
}

hundred_and_twenty-judo_isdigit : (i : ℕ) → i < 3 - 0 → judo_isdigit (bytes_of "120" (0 + i)) ≡ true
unfolding judo_isdigit
hundred_and_twenty-judo_isdigit zero h = refl
hundred_and_twenty-judo_isdigit (suc zero) h = refl
hundred_and_twenty-judo_isdigit (suc (suc zero)) h = refl
hundred_and_twenty-judo_isdigit (suc (suc (suc i))) h = absurd (omega (arith, h))

judo_numberify-whole_number_example :
    judo_numberify (bytes_of "120") naturals rfc 3
    ≡ some (record { result = success; number = 120 })
unfolding whole_number judo_isdigit
judo_numberify-whole_number_example =
    judo_numberify-whole_number (bytes_of "120") naturals rfc 3 0 1 refl (inr (refl, refl, refl))
      hundred_and_twenty-judo_isdigit

-- 12e1 is 120.
with_exponent :
    judo_numberify (bytes_of "12e1") naturals rfc 4
    ≡ some (record { result = success; number = 120 })
unfolding judo_numberify convert json_atof atof_from read_digits judo_isdigit read_fraction
    read_exponent finish_exponent finish_number scale exponent_value
with_exponent = refl
