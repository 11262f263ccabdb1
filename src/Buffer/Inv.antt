-- ===== src/Buffer/Inv.antt =====
-- netlib/net/Buffer.h: what holds of a buffer between two calls, and what the counters are then.
use netlib.Base.{
  ℕ, ◌+◌, ◌-◌, ◌≤◌, ◌<◌, ◌≡◌, ap, List, length, arith, int_limit, to_size_exact, to_int_exact,
  sub_int_exact, sub_size_exact,
}
use netlib.Buffer.{
  Buffer, readable_bytes, writable_bytes, prependable_bytes, peek, begin_write, to_string,
}
use netlib.Buffer.Slices.{slice, length-slice}

-- The indices are ordered and in range, there is room for the reserved bytes, and no index
-- leaves the range of `int`.
pub record IsValid (b : Buffer) : Type 0 where
  pub reserved : 8 ≤ length b.bytes
  pub ordered : b.reader_index ≤ b.writer_index
  pub within : b.writer_index ≤ length b.bytes
  pub small : length b.bytes < int_limit

-- The bytes that a reader sees.
unfoldable pub content : Buffer → List ℕ
content b = slice b.bytes b.reader_index b.writer_index

module _ (b : Buffer) (v : IsValid b) where
  pub readable_bytes_lem : readable_bytes b ≡ b.writer_index - b.reader_index
  unfolding readable_bytes
  readable_bytes_lem =
      rw (sub_int_exact b.writer_index b.reader_index (omega arith) v.ordered)
        (to_size_exact _ (omega arith))

  pub begin_write_lem : begin_write b ≡ b.writer_index
  unfolding begin_write
  begin_write_lem = to_size_exact b.writer_index (omega arith)

  pub peek_lem : peek b ≡ b.reader_index
  unfolding peek
  peek_lem = to_size_exact b.reader_index (omega arith)

  pub prependable_bytes_lem : prependable_bytes b ≡ b.reader_index
  unfolding prependable_bytes
  prependable_bytes_lem = to_size_exact b.reader_index (omega arith)

  pub writable_bytes_lem : writable_bytes b ≡ length b.bytes - b.writer_index
  unfolding writable_bytes
  writable_bytes_lem =
      rw (to_size_exact b.writer_index (omega arith))
        (sub_size_exact (length b.bytes) b.writer_index (omega arith) v.within)

  pub length-content : length (content b) ≡ b.writer_index - b.reader_index
  unfolding content
  length-content = length-slice b.bytes b.reader_index b.writer_index v.within

  -- `toString()` is what a reader sees.
  pub to_string-eq-content : to_string b ≡ content b
  unfolding to_string content
  to_string-eq-content =
      rw
        (
          peek_lem,
          readable_bytes_lem,
          to_int_exact (b.writer_index - b.reader_index) (omega arith),
          to_size_exact (b.writer_index - b.reader_index) (omega arith),
        )
        (ap (slice b.bytes b.reader_index) {x = b.reader_index + (b.writer_index - b.reader_index)}
          (omega arith))
