-- ===== src/Parser.antt =====
-- src/judo_parse.c: the tree of values in memory, and the functions that read it.
-- The memory holds blocks, numbered in the order in which they were allocated; a pointer is a
-- number, and `none` is NULL. A `none` of a routine stands for what C does not define: the use of a
-- block that was released, or as another structure than it is, and an assertion that fails.
pub mod Build
pub mod Free
pub mod Parse
pub mod Tree
use judo.Api.{Span}
use judo.Base.{
  ℕ, ◌+◌, Bool, true, false, Option, none, some, List, [], ◌∷◌, ◌++◌, get_elem?, set, length,
}

-- `enum judo_type`
pub data JudoType : Type 0 where
  invalid null bool number string array object : JudoType

-- `struct judo_value`, the first field of every value; its field `type` is told by the block.
pub record Value : Type 0 where
  pub next : Option ℕ
  pub where_at : Span

-- The types of a `judo_value` that stands alone.
pub data Plain : Type 0 where
  null number string : Plain

-- The structures that are allocated.
pub data Block : Type 0 where
  value : Plain → Value → Block
  boolean : Value → Bool → Block
  array : Value → Option ℕ → ℕ → Block
  object : Value → Option ℕ → ℕ → Block
  member : Option ℕ → Option ℕ → Span → Block
  released : Block

abbrev pub Heap : Type 0
Heap = List Block

infixl 5 ◌>>=◌
abbrev pub ◌>>=◌ {ℓ κ} : {A : Type ℓ} {B : Type κ} → Option A → (A → Option B) → Option B
none >>= f = none
some a >>= f = f a

abbrev pub descriptor : Block → Option Value
descriptor (value type d) = some d
descriptor (boolean d b) = some d
descriptor (array d first length) = some d
descriptor (object d members size) = some d
descriptor _ = none

abbrev pub with_descriptor : (Value → Value) → Block → Option Block
with_descriptor f (value type d) = some (value type (f d))
with_descriptor f (boolean d b) = some (boolean (f d) b)
with_descriptor f (array d first length) = some (array (f d) first length)
with_descriptor f (object d members size) = some (object (f d) members size)
with_descriptor f _ = none

-- Read a block and write it.
unfoldable pub update : ℕ → (Block → Option Block) → Heap → Option Heap
update p f heap = do b ← get_elem? heap p; b' ← f b; some (set heap p b')

abbrev plain_type : Plain → JudoType
plain_type Plain.null = JudoType.null
plain_type Plain.number = JudoType.number
plain_type Plain.string = JudoType.string

abbrev type_of : Block → Option JudoType
type_of (value type d) = some (plain_type type)
type_of (boolean d b) = some JudoType.bool
type_of (array d first length) = some JudoType.array
type_of (object d members size) = some JudoType.object
type_of _ = none

unfoldable pub judo_gettype : Heap → Option ℕ → Option JudoType
judo_gettype heap none = some invalid
judo_gettype heap (some p) = do b ← get_elem? heap p; type_of b

abbrev first_of : Block → Option (Option ℕ)
first_of (array d first length) = some first
first_of (value type d) = some none
first_of (boolean d b) = some none
first_of (object d members size) = some none
first_of _ = none

unfoldable pub judo_first : Heap → Option ℕ → Option (Option ℕ)
judo_first heap none = some none
judo_first heap (some p) = do b ← get_elem? heap p; first_of b

unfoldable pub judo_next : Heap → Option ℕ → Option (Option ℕ)
judo_next heap none = some none
judo_next heap (some p) = do b ← get_elem? heap p; d ← descriptor b; some d.next

abbrev membfirst_of : Block → Option (Option ℕ)
membfirst_of (object d members size) = some members
membfirst_of (value type d) = some none
membfirst_of (boolean d b) = some none
membfirst_of (array d first length) = some none
membfirst_of _ = none

unfoldable pub judo_membfirst : Heap → Option ℕ → Option (Option ℕ)
judo_membfirst heap none = some none
judo_membfirst heap (some p) = do b ← get_elem? heap p; membfirst_of b

abbrev membnext_of : Block → Option (Option ℕ)
membnext_of (member next val name) = some next
membnext_of _ = none

unfoldable pub judo_membnext : Heap → Option ℕ → Option (Option ℕ)
judo_membnext heap none = some none
judo_membnext heap (some p) = do b ← get_elem? heap p; membnext_of b

abbrev membvalue_of : Block → Option (Option ℕ)
membvalue_of (member next val name) = some val
membvalue_of _ = none

unfoldable pub judo_membvalue : Heap → Option ℕ → Option (Option ℕ)
judo_membvalue heap none = some none
judo_membvalue heap (some p) = do b ← get_elem? heap p; membvalue_of b

abbrev pub zero_span : Span
zero_span = record { offset = 0; length = 0 }

abbrev name_of : Block → Option Span
name_of (member next val name) = some name
name_of _ = none

unfoldable pub judo_name2span : Heap → Option ℕ → Option Span
judo_name2span heap none = some zero_span
judo_name2span heap (some p) = do b ← get_elem? heap p; name_of b

unfoldable pub judo_value2span : Heap → Option ℕ → Option Span
judo_value2span heap none = some zero_span
judo_value2span heap (some p) = do b ← get_elem? heap p; d ← descriptor b; some d.where_at

abbrev bool_of : Block → Option Bool
bool_of (boolean d b) = some b
bool_of (value type d) = some false
bool_of (array d first length) = some false
bool_of (object d members size) = some false
bool_of _ = none

unfoldable pub judo_tobool : Heap → Option ℕ → Option Bool
judo_tobool heap none = some false
judo_tobool heap (some p) = do b ← get_elem? heap p; bool_of b

abbrev len_of : Block → Option ℕ
len_of (array d first length) = some length
len_of (object d members size) = some size
len_of (value type d) = some 0
len_of (boolean d b) = some 0
len_of _ = none

unfoldable pub judo_len : Heap → Option ℕ → Option ℕ
judo_len heap none = some 0
judo_len heap (some p) = do b ← get_elem? heap p; len_of b
