-- ===== src/Buffer.antt =====
-- netlib/net/Buffer.h and Buffer.cc: the byte buffer of a connection, a vector with a read and a
-- write index of type `int`. A method returns the new buffer; `none` is a failed assertion. The
-- bytes are kept as numbers below 256, an index as its 32-bit pattern, a pointer into the vector
-- as its distance from `begin()`.
pub mod Slices
pub mod Endian
pub mod Inv
pub mod Space
pub mod Ops
pub mod Ints
pub mod ReadFd
pub mod Queue
pub mod Shrink
pub mod Examples
use netlib.Base.{
  ℕ, zero, suc, ◌+◌, ◌-◌, ◌*◌, ◌/◌, ◌%◌, List, [], ◌∷◌, ◌++◌, Bool, Option, none, some, length,
  take, drop, ltb, leb, ◌==◌, if◌then◌else◌, ◌>>=◌, ◌>>◌, assert, to_int, to_size, add_size,
  sub_size, sub_int, replicate,
}
use Slices.{slice, copy_to, resize}
use Endian.{be_bytes, be_value}

pub record Buffer : Type 0 where
  pub bytes : List ℕ
  pub reader_index : ℕ
  pub writer_index : ℕ

abbrev pub initial_size : ℕ
initial_size = 1024

abbrev pub cheap_prepend : ℕ
cheap_prepend = 8

unfoldable pub readable_bytes : Buffer → ℕ
readable_bytes b = to_size (sub_int b.writer_index b.reader_index)

pub writable_bytes : Buffer → ℕ
writable_bytes b = sub_size (length b.bytes) (to_size b.writer_index)

pub prependable_bytes : Buffer → ℕ
prependable_bytes b = to_size b.reader_index

-- The argument is not used, as in the source.
pub construct : ℕ → Option Buffer
construct size =
    let b : Buffer = record {
      bytes = replicate (cheap_prepend + initial_size) 0;
      reader_index = to_int cheap_prepend;
      writer_index = to_int cheap_prepend;
    } in
    do
      assert (readable_bytes b == 0)
      assert (writable_bytes b == initial_size)
      assert (prependable_bytes b == cheap_prepend)
      some b

-- `peek()` and `beginWrite()`
unfoldable pub peek : Buffer → ℕ
peek b = to_size b.reader_index

pub begin_write : Buffer → ℕ
begin_write b = to_size b.writer_index

unfoldable pub to_string : Buffer → List ℕ
to_string b = slice b.bytes (peek b) (peek b + to_size (to_int (readable_bytes b)))

-- The readable bytes move to the front, after the reserved ones.
compact : Buffer → Option Buffer
compact b =
    let readable = readable_bytes b in
    let moved : Buffer = record {
      bytes = copy_to b.bytes cheap_prepend (slice b.bytes (peek b) (begin_write b));
      reader_index = to_int cheap_prepend;
      writer_index = to_int (add_size (to_size (to_int cheap_prepend)) readable);
    } in
    do
      assert (ltb cheap_prepend (to_size b.reader_index))
      assert (readable == readable_bytes moved)
      some moved

pub make_space : ℕ → Buffer → Option Buffer
unfolding compact
make_space len b =
    if ltb (add_size (writable_bytes b) (prependable_bytes b)) (add_size len cheap_prepend)
    then some (record b { bytes = resize (add_size (to_size b.writer_index) len) b.bytes })
    else compact b

pub ensure_writable_bytes : ℕ → Buffer → Option Buffer
ensure_writable_bytes len b = do
  c ← if ltb (writable_bytes b) len then make_space len b else some b
  assert (leb len (writable_bytes c))
  some c

pub has_written : ℕ → Buffer → Option Buffer
has_written len b = do
  assert (leb len (writable_bytes b))
  some (record b { writer_index = to_int (add_size (to_size b.writer_index) len) })

pub unwrite : ℕ → Buffer → Option Buffer
unwrite len b = do
  assert (leb len (readable_bytes b))
  some (record b { writer_index = to_int (sub_size (to_size b.writer_index) len) })

pub append : List ℕ → Buffer → Option Buffer
append s b = do
  c ← ensure_writable_bytes (length s) b
  has_written (length s) (record c { bytes = copy_to c.bytes (begin_write c) s })

pub retrieve_all : Buffer → Buffer
retrieve_all b = record b {
  reader_index = to_int cheap_prepend;
  writer_index = to_int cheap_prepend;
}

unfoldable pub retrieve : ℕ → Buffer → Option Buffer
unfolding retrieve_all
retrieve n b = do
  assert (leb n (readable_bytes b))
  some (
      if ltb n (readable_bytes b)
      then record b { reader_index = to_int (add_size (to_size b.reader_index) n) }
      else retrieve_all b)

pub retrieve_until : ℕ → Buffer → Option Buffer
retrieve_until end b = do
  assert (leb (peek b) end)
  assert (leb end (begin_write b))
  retrieve (sub_size end (peek b)) b

pub retrieve_as_string : ℕ → Buffer → Option (List ℕ × Buffer)
retrieve_as_string len b = do
  assert (leb len (readable_bytes b))
  c ← retrieve len b
  some (slice b.bytes (peek b) (peek b + len), c)

pub retrieve_all_as_string : Buffer → Option (List ℕ × Buffer)
retrieve_all_as_string b = retrieve_as_string (readable_bytes b) b

pub prepend : List ℕ → Buffer → Option Buffer
prepend s b =
    let start = sub_size (to_size b.reader_index) (length s) in
    do
      assert (leb (length s) (prependable_bytes b))
      some (record b {
        reader_index = to_int start;
        bytes = copy_to b.bytes (to_size (to_int start)) s;
      })

-- The other buffer's fields replace the old ones.
pub shrink : ℕ → Buffer → Option Buffer
shrink reserve b = do
  fresh ← construct initial_size
  other ← ensure_writable_bytes (add_size (readable_bytes b) reserve) fresh
  append (to_string b) other

-- `::memchr(from, '\n', upto - from)`: the distance from `begin()` of the first line feed.
pub find_from : List ℕ → ℕ → Option ℕ
find_from [] at = none
find_from (x ∷ xs) at = if x == 10 then some at else find_from xs (suc at)

pub find_eol : Buffer → Option ℕ
unfolding find_from
find_eol b = find_from (slice b.bytes (peek b) (peek b + readable_bytes b)) (peek b)

-- The overload that starts at a given pointer.
pub find_eol_after : ℕ → Buffer → Option (Option ℕ)
unfolding find_from
find_eol_after start b = do
  assert (leb (peek b) start)
  assert (leb start (begin_write b))
  some (find_from (slice b.bytes start (begin_write b)) start)

-- `appendInt8/16/32/64` and `prependInt8/16/32/64` at `k` = 1, 2, 4, 8 bytes; a signed value is
-- kept as its bit pattern.
pub append_int : ℕ → ℕ → Buffer → Option Buffer
append_int k x b = append (be_bytes k x) b

pub prepend_int : ℕ → ℕ → Buffer → Option Buffer
prepend_int k x b = prepend (be_bytes k x) b

-- `peekInt8/16/32/64`
pub peek_int : ℕ → Buffer → Option ℕ
peek_int k b = do
  assert (leb k (readable_bytes b))
  some (be_value 0 (slice b.bytes (peek b) (peek b + k)))

-- `readInt8`, `readInt16` and `readInt64`
pub read_int : ℕ → Buffer → Option (ℕ × Buffer)
read_int k b = do x ← peek_int k b; c ← retrieve k b; some (x, c)

-- `readInt32` returns the 32-bit value as an `int64_t`.
pub read_int32 : Buffer → Option (ℕ × Buffer)
read_int32 b = do (x, c) ← read_int 4 b; some (to_size x, c)

-- What `readv` came back with: an error number, or the bytes that it scattered.
pub data ReadOutcome : Type 0 where
  failed : ℕ → ReadOutcome
  received : List ℕ → ReadOutcome

abbrev pub extra_size : ℕ
extra_size = 65536

-- What `readFd` does with the outcome: the first part of the bytes lands in the buffer, the rest
-- in `extrabuf`.
take_in : Buffer → ReadOutcome → Option (ReadOutcome × Buffer)
take_in b (failed errno) = some (failed errno, b)
take_in b (received got) =
    let writable = writable_bytes b in
    let filled = copy_to b.bytes (begin_write b) (take writable got) in
    if leb (length got) writable
    then some (
      received got,
      record b {
        bytes = filled;
        writer_index = to_int (add_size (to_size b.writer_index) (length got));
      },
    )
    else (do
      c ←
          append (drop writable got)
            (record b { bytes = filled; writer_index = to_int (length b.bytes) })
      some (received got, c))

-- `readFd`: `readv`, which is given the sizes of its vectors, stands for the call of the system.
pub read_fd : (List ℕ → ReadOutcome) → Buffer → Option (ReadOutcome × Buffer)
unfolding take_in
read_fd readv b =
    let writable = writable_bytes b in
    take_in b
      (readv (if ltb writable extra_size then writable ∷ extra_size ∷ [] else writable ∷ []))
