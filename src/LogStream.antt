-- ===== src/LogStream.antt =====
-- netlib/base/LogStream.cc: numbers as text, and what `operator<<` puts into a buffer of `size` bytes, of
-- which a list of bytes is filled. A signed number is its sign and its magnitude; the
-- table `digits` is read at the remainder's magnitude on either side of its middle. The loop runs
-- on fuel, of which a number has enough in its successor. A byte that would be stored behind the
-- buffer's end is `none`. The text of a floating-point number, by `snprintf`, is an argument.
pub mod Decimal
pub mod Fits
mod Examples
use netlib.Base.{
  ℕ, zero, suc, ◌+◌, ◌/◌, ◌%◌, ◌==◌, Bool, true, false, if◌then◌else◌, List, [], ◌∷◌, ◌++◌, ◌-◌,
  ltb, leb, length, take, Option, none, some,
}
use netlib.AsyncLogging.{append_fixed}

-- The `do` loop: the last digit first.
unfoldable pub digits : ℕ → ℕ → List ℕ
digits zero i = []
digits (suc fuel) i =
    let rest = digits fuel (i / 10) in (48 + i % 10) ∷ (if i / 10 == 0 then [] else rest)

-- `std::reverse`
abbrev pub reverse : List ℕ → List ℕ
reverse [] = []
reverse (c ∷ cs) = reverse cs ++ c ∷ []

-- '-' before a negative number.
abbrev pub sign : Bool → List ℕ
sign true = 45 ∷ []
sign false = []

-- `convert`: all is written backwards, then reversed.
unfoldable pub convert : Bool → ℕ → List ℕ
unfolding digits
convert negative v = reverse (digits (suc v) v ++ sign negative)

-- `digitsHex[lsd]`
abbrev pub digit_hex : ℕ → ℕ
digit_hex d = if ltb d 10 then 48 + d else 55 + d

unfoldable pub digits_hex : ℕ → ℕ → List ℕ
digits_hex zero i = []
digits_hex (suc fuel) i =
    let rest = digits_hex fuel (i / 16) in digit_hex (i % 16) ∷ (if i / 16 == 0 then [] else rest)

unfoldable pub convert_hex : ℕ → List ℕ
unfolding digits_hex
convert_hex v = reverse (digits_hex (suc v) v)

abbrev pub max_numeric_size : ℕ
max_numeric_size = 32

-- Storing a text with its terminating 0 at `current()`, and then `add` of the text's length.
abbrev pub store : ℕ → List ℕ → List ℕ → Option (List ℕ)
store size text b =
    if leb (length b + length (text ++ 0 ∷ [])) size
    then some (b ++ take (length text) (text ++ 0 ∷ []))
    else none

-- The test of `vaild()` before a number is stored.
unfoldable pub store_numeric : ℕ → List ℕ → List ℕ → Option (List ℕ)
store_numeric size text b =
    if leb max_numeric_size (size - length b) then store size text b else some b

-- What `operator<<` is given: the short and the unsigned types are widened, a string of either
-- kind is its bytes.
pub data Item : Type 0 where
  boolean : Bool → Item
  integer : Bool → ℕ → Item
  floating : List ℕ → Item
  character : ℕ → Item
  string : List ℕ → Item
  null_string : Item
  pointer : ℕ → Item

-- The text of an item, "(null)" for a null pointer to characters.
unfoldable pub text : Item → List ℕ
unfolding convert convert_hex
text (boolean true) = 49 ∷ []
text (boolean false) = 48 ∷ []
text (integer negative v) = convert negative v
text (floating cs) = cs
text (character c) = c ∷ []
text (string cs) = cs
text null_string = 40 ∷ 110 ∷ 117 ∷ 108 ∷ 108 ∷ 41 ∷ []
text (pointer v) = 48 ∷ 120 ∷ convert_hex v

-- Numbers are stored in place, all else is appended.
unfoldable pub is_numeric : Item → Bool
is_numeric (boolean b) = false
is_numeric (integer negative v) = true
is_numeric (floating cs) = true
is_numeric (character c) = false
is_numeric (string cs) = false
is_numeric null_string = false
is_numeric (pointer v) = true

-- `operator<<`
unfoldable pub insert : ℕ → Item → List ℕ → Option (List ℕ)
unfolding is_numeric store_numeric append_fixed text
insert size i b =
    if is_numeric i then store_numeric size (text i) b else some (append_fixed size (text i) b)
