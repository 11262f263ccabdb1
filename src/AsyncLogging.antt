-- ===== src/AsyncLogging.antt =====
-- netlib/base/AsyncLogging.cc, and FixedBuffer of netlib/base/LogStream.h: log lines pass from many
-- threads, under the mutex, to the one that writes them.
-- A buffer is what was appended to it, as a list of bytes; `size` is its capacity (`cLargeBuffer`).
-- A buffer that was moved away is `none`. `written` is all that was given to the log file. A result
-- that is `none` is a null pointer, a failed assertion or undefined behaviour.
mod Order
pub mod Lines
mod Service
mod Life
mod Examples
use netlib.Base.{
  ℕ, suc, ◌+◌, ◌-◌, Bool, true, false, if◌then◌else◌, ltb, leb, Option, none, some, ◌>>=◌, ◌>>◌,
  assert, List, [], ◌∷◌, ◌++◌, length, take,
}

abbrev pub Bytes : Type 0
Bytes = List ℕ

-- `FixedBuffer::append`: what does not fit is dropped whole.
unfoldable pub append_fixed : ℕ → Bytes → Bytes → Bytes
append_fixed size msg b = if ltb (length msg) (size - length b) then b ++ msg else b

pub record Logging : Type 0 where
  pub current : Option Bytes
  pub spare : Option Bytes
  pub buffers : List Bytes

-- The buffers of `threadFunc`: two to hand over, and those to write.
pub record Writer : Type 0 where
  pub new_buffer1 : Option Bytes
  pub new_buffer2 : Option Bytes
  pub to_write : List Bytes
  pub written : Bytes

unfoldable pub construct : Logging
construct = record { current = some []; spare = some []; buffers = [] }

unfoldable pub construct_writer : Writer
construct_writer = record {
  new_buffer1 = some [];
  new_buffer2 = some [];
  to_write = [];
  written = [];
}

-- `_nextBuffer`, or a new one.
abbrev pub next_buffer : Option Bytes → Bytes
next_buffer none = []
next_buffer (some b) = b

abbrev pub append_to : ℕ → Bytes → Option Bytes → Logging → Option Logging
unfolding append_fixed
append_to size msg none l = none
append_to size msg (some b) l = some (
    if ltb (length msg) (size - length b)
    then record l { current = some (append_fixed size msg b) }
    else record {
      current = some (append_fixed size msg (next_buffer l.spare));
      spare = none;
      buffers = l.buffers ++ b ∷ [];
    })

unfoldable pub append : ℕ → Bytes → Logging → Option Logging
unfolding append_to
append size msg l = append_to size msg l.current l

abbrev pub is_empty : Option Bytes → Bool
is_empty none = false
is_empty (some []) = true
is_empty (some (x ∷ xs)) = false

-- The locked block of the loop, when the wait is over.
abbrev pub collect_from : Option Bytes → Logging → Writer → Option (Logging × Writer)
collect_from none l w = none
collect_from (some b) l w = elim l.spare [
  | none ↦ some (
    record { current = w.new_buffer1; spare = w.new_buffer2; buffers = [] },
    record w { new_buffer1 = none; new_buffer2 = none; to_write = l.buffers ++ b ∷ [] },
  )
  | some s ↦ some (
    record { current = w.new_buffer1; spare = some s; buffers = [] },
    record w { new_buffer1 = none; to_write = l.buffers ++ b ∷ [] },
  )
]

unfoldable pub collect : Logging → Writer → Option (Logging × Writer)
collect l w =
    assert (is_empty w.new_buffer1)
    >> (assert (is_empty w.new_buffer2) >> collect_from l.current l w)

abbrev pub concat : List Bytes → Bytes
concat [] = []
concat (b ∷ bs) = b ++ concat bs

-- `newBuffer1` and `newBuffer2` take back a buffer that was written.
abbrev pub drop_last : List Bytes → List Bytes
drop_last [] = []
drop_last (b ∷ []) = []
drop_last (b ∷ c ∷ bs) = b ∷ drop_last (c ∷ bs)

abbrev pub refill : Option Bytes → List Bytes → Option (Option Bytes × List Bytes)
refill (some b) ws = some (some b, ws)
refill none [] = none
refill none (w ∷ ws) = some (some [], drop_last (w ∷ ws))

abbrev pub at_most : ℕ → List Bytes → List Bytes
at_most n ws = if ltb n (length ws) then take 2 ws else ws

abbrev pub nonempty : List Bytes → Bool
nonempty [] = false
nonempty (b ∷ bs) = true

-- The rest of the loop's body. With more than 25 buffers the code gives a `std::string` to
-- `snprintf`, which is undefined: `none`.
unfoldable pub write_out : Writer → Option Writer
write_out w =
    assert (nonempty w.to_write)
    >> (assert (leb (length w.to_write) 25)
        >> (refill w.new_buffer1 (at_most 2 w.to_write) >>= (λ (b, ws).
            refill w.new_buffer2 ws >>= (λ (c, rest). some (record {
              new_buffer1 = b;
              new_buffer2 = c;
              to_write = [];
              written = w.written ++ concat w.to_write;
            })))))
