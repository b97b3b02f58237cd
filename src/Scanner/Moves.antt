-- ===== src/Scanner/Moves.antt =====
-- The moves of the state machine, told apart from the text: which token may be reported in which
-- state of the innermost value, and what the state becomes.
use judo.Api.{
  JudoToken, ScanState, root_value, finished_parsing_value, parse_array_end_or_array_element,
  finished_parsing_array_element, parse_object_key_or_object_end, parse_object_value,
  finished_parsing_object_value, array_begin, array_end, object_begin, object_end, object_name,
  true_value, false_value,
}
use judo.Base.{List, ◌∷◌}

-- The tokens that begin a value, with the state that they leave it in.
pub data Begins : JudoToken → ScanState → Type 0 where
  null : Begins JudoToken.null finished_parsing_value
  boolean_true : Begins true_value finished_parsing_value
  boolean_false : Begins false_value finished_parsing_value
  number : Begins JudoToken.number finished_parsing_value
  string : Begins JudoToken.string finished_parsing_value
  array : Begins array_begin parse_array_end_or_array_element
  object : Begins object_begin parse_object_key_or_object_end

-- An array that may end here, and an object that may.
pub data InArray : ScanState → Type 0 where
  first : InArray parse_array_end_or_array_element
  later : InArray finished_parsing_array_element

pub data InObject : ScanState → Type 0 where
  first : InObject parse_object_key_or_object_end
  later : InObject finished_parsing_object_value

-- The states of a value that waits for one inside of it to be finished.
pub data Waits : ScanState → Type 0 where
  in_array : Waits finished_parsing_array_element
  in_object : Waits finished_parsing_object_value

-- A token that changes the state of the innermost value.
pub data Stays : ScanState → JudoToken → ScanState → Type 0 where
  root : {t : JudoToken} {y : ScanState} → Begins t y → Stays root_value t y
  close_array : {x : ScanState} → InArray x → Stays x array_end finished_parsing_value
  close_object : {x : ScanState} → InObject x → Stays x object_end finished_parsing_value
  name : {x : ScanState} → InObject x → Stays x object_name parse_object_value

-- A token that begins a value inside of the innermost one, whose state becomes the second.
pub data Opens : ScanState → ScanState → JudoToken → ScanState → Type 0 where
  element :
      {x : ScanState} {t : JudoToken} {y : ScanState}
      → InArray x
      → Begins t y
      → Opens x finished_parsing_array_element t y
  value :
      {t : JudoToken} {y : ScanState}
      → Begins t y
      → Opens parse_object_value finished_parsing_object_value t y

-- One token, on the stack of states, the innermost first.
pub data Step : List ScanState → JudoToken → List ScanState → Type 0 where
  stays :
      {x y : ScanState} {t : JudoToken} {xs : List ScanState}
      → Stays x t y
      → Step (x ∷ xs) t (y ∷ xs)
  opens :
      {x x' y : ScanState} {t : JudoToken} {xs : List ScanState}
      → Opens x x' t y
      → Step (x ∷ xs) t (y ∷ x' ∷ xs)
  pops :
      {x : ScanState} {t : JudoToken} {xs ys : List ScanState}
      → Step (x ∷ xs) t ys
      → Step (finished_parsing_value ∷ x ∷ xs) t ys
