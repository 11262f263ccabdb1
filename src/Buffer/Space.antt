-- ===== src/Buffer/Space.antt =====
-- netlib/net/Buffer.cc, `makeSpace` and what calls it: room is always found and nothing is lost.
use netlib.Base.{
  ℕ, ◌+◌, ◌-◌, ◌≤◌, ◌<◌, ◌≡◌, refl, ◌∙◌, ap, ◌++◌, length, arith, int_limit, some, to_size_exact,
  to_int_exact, add_size_exact, ltb, add_size, inl, inr, Bool-cases, le→leb, ltb→lt, to_int,
  to_size, append-nil,
}
use netlib.Buffer.{
  Buffer, writable_bytes, prependable_bytes, make_space, compact, ensure_writable_bytes,
}
use netlib.Buffer.Slices.{
  copy_to, resize, length-resize, slice-resize, length-copy_to, slice-copy_to_front, slice_empty,
}
use netlib.Buffer.Inv.{
  IsValid, content, readable_bytes_lem, writable_bytes_lem, prependable_bytes_lem, begin_write_lem,
  peek_lem, length-content,
}

-- The same bytes to read, and room for `len` more.
pub record Made (len : ℕ) (b c : Buffer) : Type 0 where
  pub valid : IsValid c
  pub room : c.writer_index + len ≤ length c.bytes
  pub bounded : length c.bytes ≤ length b.bytes + len
  pub same : content c ≡ content b

module _ (b : Buffer) (v : IsValid b) where
  abbrev grown : ℕ → Buffer
  grown len = record b { bytes = resize (b.writer_index + len) b.bytes }

  grown-Made :
      (len : ℕ)
      → length b.bytes ≤ b.writer_index + len
      → b.writer_index + len < int_limit
      → Made len b (grown len)
  unfolding content
  grown-Made len h k =
      let e = length-resize (b.writer_index + len) b.bytes in
      record {
        valid = omega arith;
        room = omega arith;
        bounded = omega arith;
        same =
            slice-resize b.bytes (b.writer_index + len) b.reader_index b.writer_index v.within
              (omega arith);
      }

  abbrev moved : Buffer
  moved = record {
    bytes = copy_to b.bytes 8 (content b);
    reader_index = 8;
    writer_index = 8 + (b.writer_index - b.reader_index);
  }

  moved-Made :
      (len : ℕ)
      → 8 < b.reader_index
      → (b.writer_index - b.reader_index) + len + 8 ≤ length b.bytes
      → Made len b moved
  moved-Made len h k =
      let e = length-copy_to b.bytes 8 (content b) in
      record {
        valid = omega arith;
        room = omega arith;
        bounded = omega arith;
        same =
            unfold content in
            (slice-copy_to_front b.bytes (content b) 8 moved.writer_index moved.writer_index
                (omega (arith, length-content b v)) (omega arith) (omega arith)
              ∙ ap (λ zs. content b ++ zs) (slice_empty b.bytes moved.writer_index)
              ∙ append-nil (content b));
      }

  moved_writer :
      b.writer_index - b.reader_index + 8 ≤ length b.bytes
      → to_int (add_size 8 (b.writer_index - b.reader_index))
        ≡ 8 + (b.writer_index - b.reader_index)
  moved_writer h =
      rw (add_size_exact 8 (b.writer_index - b.reader_index) (omega arith))
        (to_int_exact _ (omega arith))

  compact_lem :
      (len : ℕ)
      → 8 < b.reader_index
      → (b.writer_index - b.reader_index) + len + 8 ≤ length b.bytes
      → compact b ≡ some moved
  unfolding compact content
  compact_lem len h k =
      rw
        (
          begin_write_lem b v,
          peek_lem b v,
          readable_bytes_lem b v,
          to_size_exact b.reader_index (omega arith),
          to_int_exact 8 (omega arith),
          to_size_exact 8 (omega arith),
          moved_writer (omega arith),
        )
        (ground (arith, readable_bytes_lem moved (moved-Made len h k).valid))

  make_space-Made :
      (len : ℕ)
      → length b.bytes - b.writer_index < len
      → b.writer_index + len < int_limit
      → (c : Buffer) × (make_space len b ≡ some c) × Made len b c
  unfolding make_space
  make_space-Made len h k =
      elim (Bool-cases (ltb (length b.bytes - b.writer_index + b.reader_index) (len + 8))) [
        | inl few ↦ (grown len, rw (sums, e, few) refl, grown-Made len (omega arith) k)
        | inr many ↦
            let p : len + 8 ≤ length b.bytes - b.writer_index + b.reader_index = ground arith in
            (
              moved,
              rw (sums, many) (compact_lem len (omega arith) (omega arith)),
              moved-Made len (omega arith) (omega arith),
            )
      ]
    where
      e : add_size (to_size b.writer_index) len ≡ b.writer_index + len
      e = rw (to_size_exact b.writer_index (omega arith)) (add_size_exact _ _ (omega arith))

      sums :
          ltb (add_size (writable_bytes b) (prependable_bytes b)) (add_size len 8)
          ≡ ltb (length b.bytes - b.writer_index + b.reader_index) (len + 8)
      sums = rw (
        writable_bytes_lem b v,
        prependable_bytes_lem b v,
        add_size_exact (length b.bytes - b.writer_index) b.reader_index (omega arith),
        add_size_exact len 8 (omega arith),
      )

  -- Room for `len` bytes is always made.
  pub ensure_writable_bytes-Made :
      (len : ℕ)
      → b.writer_index + len < int_limit
      → (c : Buffer) × (ensure_writable_bytes len b ≡ some c) × Made len b c
  unfolding ensure_writable_bytes
  ensure_writable_bytes-Made len k = elim (Bool-cases (ltb (length b.bytes - b.writer_index) len)) [
    | inl few ↦
        let (c, e, m) = make_space-Made len (ltb→lt _ _ few) k in
        (
          c,
          rw (writable_bytes_lem b v, few, e, writable_bytes_lem c m.valid, le→leb _ _ (room c m)),
          m,
        )
    | inr many ↦
        let m : Made len b b = record {
          valid = v;
          room = ground arith;
          bounded = omega arith;
          same = refl;
        } in
        (b, rw (writable_bytes_lem b v, many, writable_bytes_lem b v, le→leb _ _ (room b m)), m)
  ]
    where
      room : (c : Buffer) → Made len b c → len ≤ length c.bytes - c.writer_index
      room c m = omega arith
