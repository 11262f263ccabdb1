-- ===== src/Buffer/Ops.antt =====
-- netlib/net/Buffer.h and Buffer.cc: each method on the bytes that a reader sees.
use netlib.Base.{
  ℕ, ◌+◌, ◌-◌, ◌≤◌, ◌<◌, ◌≡◌, refl, ◌∙◌, sym, ap, List, ◌++◌, length, take, drop, arith, int_limit,
  Option, some, to_size_exact, to_int_exact, add_size_exact, sub_size_exact, ltb, inl, inr,
  Bool-cases, le→leb, ltb→lt, ltb_false→le, drop_all,
}
use netlib.Buffer.{Buffer, has_written, unwrite, append, retrieve, retrieve_all, prepend}
use netlib.Buffer.Slices.{
  copy_to, length-copy_to, slice-copy_to_end, slice-copy_to_front, slice_empty, slice_later,
  slice_earlier,
}
use netlib.Buffer.Inv.{
  IsValid, content, readable_bytes_lem, writable_bytes_lem, prependable_bytes_lem, begin_write_lem,
  length-content,
}
use netlib.Buffer.Space.{ensure_writable_bytes-Made}

-- `r` is a valid buffer of at most `n` bytes that shows `s`.
abbrev pub Shows : ℕ → Option Buffer → List ℕ → Type 0
Shows n r s = (c : Buffer) × (r ≡ some c) × IsValid c × (length c.bytes ≤ n) × (content c ≡ s)

module _ (b : Buffer) (v : IsValid b) where
  has_written_lem :
      (len : ℕ)
      → b.writer_index + len ≤ length b.bytes
      → has_written len b ≡ some (record b { writer_index = b.writer_index + len })
  unfolding has_written
  has_written_lem len h = rw (
    writable_bytes_lem b v,
    le→leb len (length b.bytes - b.writer_index) (omega arith),
    to_size_exact b.writer_index (omega arith),
    add_size_exact b.writer_index len (omega arith),
    to_int_exact (b.writer_index + len) (omega arith),
  )

  -- `std::copy` to the write index, then `hasWritten`.
  abbrev pub written : List ℕ → Buffer
  written s = record b {
    bytes = copy_to b.bytes b.writer_index s;
    writer_index = b.writer_index + length s;
  }

  pub written-IsValid :
      (s : List ℕ) → b.writer_index + length s ≤ length b.bytes → IsValid (written s)
  written-IsValid s h = let e = length-copy_to b.bytes b.writer_index s in omega arith

  pub content-written :
      (s : List ℕ)
      → b.writer_index + length s ≤ length b.bytes
      → content (written s) ≡ content b ++ s
  unfolding content
  content-written s h = slice-copy_to_end b.bytes s b.reader_index b.writer_index _ v.ordered refl h

  pub unwrite-Shows :
      (n : ℕ)
      → n ≤ length (content b)
      → Shows (length b.bytes) (unwrite n b) (take (length (content b) - n) (content b))
  unfolding unwrite
  unwrite-Shows n h =
      let k : n ≤ b.writer_index - b.reader_index = omega (arith, length-content b v) in
      (
        record b { writer_index = b.writer_index - n },
        rw (
          readable_bytes_lem b v,
          le→leb n _ k,
          to_size_exact b.writer_index (omega arith),
          sub_size_exact b.writer_index n (omega arith) (omega arith),
          to_int_exact (b.writer_index - n) (omega arith),
        ),
        omega arith,
        omega arith,
        unfold content in
            slice_earlier b.bytes b.reader_index b.writer_index _ _
              (omega (arith, length-content b v)) (omega arith),
      )

-- `append` puts the new bytes behind the old ones, and always succeeds within the range of `int`.
pub append-Shows :
    (s : List ℕ) (b : Buffer)
    → IsValid b
    → b.writer_index + length s < int_limit
    → Shows (length b.bytes + length s) (append s b) (content b ++ s)
unfolding append
append-Shows s b v h =
    let (c, e, m) = ensure_writable_bytes-Made b v (length s) h in
    let copied : Buffer = record c { bytes = copy_to c.bytes c.writer_index s } in
    let copied-IsValid : IsValid copied =
      let e' = length-copy_to c.bytes c.writer_index s in omega arith in
    (
      written c m.valid s,
      rw (e, begin_write_lem c m.valid)
          (has_written_lem copied copied-IsValid (length s)
            (rw (length-copy_to c.bytes c.writer_index s) m.room)),
      written-IsValid c m.valid s m.room,
      omega (arith, m.bounded, length-copy_to c.bytes c.writer_index s),
      content-written c m.valid s m.room ∙ ap (λ t. t ++ s) m.same,
    )

module _ (b : Buffer) (v : IsValid b) where
  -- `retrieve` drops what it is asked for; retrieving all of it resets the indices.
  pub retrieve-Shows :
      (n : ℕ) → n ≤ length (content b) → Shows (length b.bytes) (retrieve n b) (drop n (content b))
  unfolding retrieve retrieve_all
  retrieve-Shows n h =
      let k : n ≤ b.writer_index - b.reader_index = omega (arith, length-content b v) in
      elim (Bool-cases (ltb n (b.writer_index - b.reader_index))) [
        | inl part ↦ (
          record b { reader_index = b.reader_index + n },
          rw (
            readable_bytes_lem b v,
            le→leb n _ k,
            part,
            to_size_exact b.reader_index (omega arith),
            add_size_exact b.reader_index n (omega arith),
            to_int_exact (b.reader_index + n) (omega arith),
          ),
          omega (arith, ltb→lt n _ part),
          omega arith,
          unfold content in slice_later b.bytes b.reader_index b.writer_index _ n refl,
        )
        | inr whole ↦ (
          record b { reader_index = 8; writer_index = 8 },
          rw (readable_bytes_lem b v, le→leb n _ k, whole, to_int_exact 8 (omega arith)),
          omega arith,
          omega arith,
          unfold content in
              slice_empty b.bytes 8
              ∙ sym (drop_all n _ (omega (arith, length-content b v, ltb_false→le n _ whole))),
        )
      ]

  pub prepend-Shows :
      (s : List ℕ)
      → length s ≤ b.reader_index
      → Shows (length b.bytes) (prepend s b) (s ++ content b)
  unfolding prepend
  prepend-Shows s h =
      let start : ℕ = b.reader_index - length s in
      let e = length-copy_to b.bytes start s in
      (
        record b { reader_index = start; bytes = copy_to b.bytes start s },
        rw (
          prependable_bytes_lem b v,
          le→leb (length s) b.reader_index h,
          to_size_exact b.reader_index (omega arith),
          sub_size_exact b.reader_index (length s) (omega arith) (omega arith),
          to_int_exact start (omega arith),
          to_size_exact start (omega arith),
        ),
        omega arith,
        omega arith,
        unfold content in
            slice-copy_to_front b.bytes s start b.writer_index b.reader_index (omega arith)
              v.ordered v.within,
      )
