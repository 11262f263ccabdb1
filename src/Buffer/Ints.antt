-- ===== src/Buffer/Ints.antt =====
-- netlib/net/Buffer.h, the fixed-width integers: what one end writes the other reads.
use netlib.Base.{
  ℕ, ◌+◌, ◌-◌, ◌≤◌, ◌<◌, ◌^◌, ◌≡◌, refl, ◌∙◌, sym, ap, List, [], ◌++◌, length, take, drop, arith,
  int_limit, some, le→leb, append-nil, length-append, take-append_left, drop-append_left,
}
use netlib.Buffer.{Buffer, peek_int, read_int, append_int, prepend_int}
use netlib.Buffer.Slices.{slice, slice_earlier}
use netlib.Buffer.Endian.{be_bytes, length-be_bytes, be_value-be_bytes}
use netlib.Buffer.Inv.{IsValid, content, readable_bytes_lem, peek_lem, length-content}
use netlib.Buffer.Ops.{append-Shows, prepend-Shows, retrieve-Shows}

module _ (k x : ℕ) (rest : List ℕ) (b : Buffer) (v : IsValid b) where
  shown_length : content b ≡ be_bytes k x ++ rest → k ≤ length (content b)
  shown_length e =
      omega (arith, ap length e, length-append (be_bytes k x) rest, length-be_bytes k x)

  take-shown : take k (be_bytes k x ++ rest) ≡ be_bytes k x
  take-shown =
      ap (λ (n : ℕ). take n (be_bytes k x ++ rest)) {x = k} {y = length (be_bytes k x)}
        (sym (length-be_bytes k x))
      ∙ take-append_left (be_bytes k x) rest

  drop-shown : drop k (be_bytes k x ++ rest) ≡ rest
  drop-shown =
      ap (λ (n : ℕ). drop n (be_bytes k x ++ rest)) {x = k} {y = length (be_bytes k x)}
        (sym (length-be_bytes k x))
      ∙ drop-append_left (be_bytes k x) rest

  -- The leading bytes are read as the number that they encode.
  peek_int-shown : x < 256 ^ k → content b ≡ be_bytes k x ++ rest → peek_int k b ≡ some x
  unfolding peek_int
  peek_int-shown h e =
      let fits : k ≤ b.writer_index - b.reader_index =
        omega (arith, shown_length e, length-content b v) in
      let shown : slice b.bytes b.reader_index b.writer_index ≡ be_bytes k x ++ rest =
        unfold content in e in
      let front : slice b.bytes b.reader_index (b.reader_index + k) ≡ be_bytes k x =
        slice_earlier b.bytes b.reader_index b.writer_index _ k refl (omega arith)
        ∙ ap (take k) shown
        ∙ take-shown in
      rw (readable_bytes_lem b v, le→leb k _ fits, peek_lem b v, front, be_value-be_bytes k x h)

  -- A number at the front of the buffer is read and removed, and what follows it stays.
  pub read_int-shown :
      x < 256 ^ k
      → content b ≡ be_bytes k x ++ rest
      → (c : Buffer) × (read_int k b ≡ some (x, c)) × IsValid c × (content c ≡ rest)
  unfolding read_int
  read_int-shown h e =
      let (c, r, w, _, s) = retrieve-Shows b v k (shown_length e) in
      (c, rw (peek_int-shown h e, r), w, s ∙ ap (drop k) e ∙ drop-shown)

-- `append_int` then `read_int` at the other end: the number comes back, behind an empty buffer.
pub read_int-append_int :
    (k x : ℕ) (b : Buffer)
    → IsValid b
    → content b ≡ []
    → x < 256 ^ k
    → b.writer_index + k < int_limit
    → (c d : Buffer) × (append_int k x b ≡ some c)
      × (read_int k c ≡ some (x, d))
      × IsValid d
      × (content d ≡ [])
unfolding append_int
read_int-append_int k x b v empty h room =
    let (c, e, w, _, s) = append-Shows (be_bytes k x) b v (omega (arith, length-be_bytes k x)) in
    let (d, r, u, t) =
      read_int-shown k x [] c w h (s ∙ ap (λ ys. ys ++ be_bytes k x) empty ∙ sym (append-nil _)) in
    (c, d, e, r, u, t)

-- A length header: `prepend_int` puts the number before the message, `read_int` takes it off again.
read_int-prepend_int :
    (k x : ℕ) (b : Buffer)
    → IsValid b
    → x < 256 ^ k
    → k ≤ b.reader_index
    → (c d : Buffer) × (prepend_int k x b ≡ some c)
      × (read_int k c ≡ some (x, d))
      × IsValid d
      × (content d ≡ content b)
unfolding prepend_int
read_int-prepend_int k x b v h room =
    let (c, e, w, _, s) = prepend-Shows b v (be_bytes k x) (omega (arith, length-be_bytes k x)) in
    let (d, r, u, t) = read_int-shown k x (content b) c w h s in (c, d, e, r, u, t)
