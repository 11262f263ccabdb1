-- ===== src/Buffer/ReadFd.antt =====
-- netlib/net/Buffer.cc, `readFd`, and `shrink`.
use netlib.Base.{
  ℕ, ◌+◌, ◌-◌, ◌≤◌, ◌<◌, ◌≡◌, refl, ◌∙◌, sym, ap, List, [], ◌∷◌, ◌++◌, length, take, drop, arith,
  int_limit, some, leb, ltb, inl, inr, ◌⊎◌, Bool-cases, le→leb, lt→leb, append-nil,
  take-append-drop, append_assoc, length-take, length-drop, take_all, leb→le, if◌then◌else◌,
  to_int_exact, to_size_exact, add_size_exact,
}
use netlib.Buffer.{Buffer, read_fd, take_in, ReadOutcome, failed, received, extra_size}
use netlib.Buffer.Slices.{copy_to, length-copy_to}
use netlib.Buffer.Inv.{IsValid, content, writable_bytes_lem, begin_write_lem}
use netlib.Buffer.Ops.{written, written-IsValid, content-written, append-Shows}

abbrev pub total : List ℕ → ℕ
total [] = 0
total (n ∷ ns) = n + total ns

abbrev pub bytes_of : ReadOutcome → List ℕ
bytes_of (failed errno) = []
bytes_of (received got) = got

-- The vectors that `readFd` offers.
abbrev pub offered : Buffer → List ℕ
offered b =
    let room = length b.bytes - b.writer_index in
    if ltb room extra_size then room ∷ extra_size ∷ [] else room ∷ []

Outcome-cases :
    (o : ReadOutcome) → ((e : ℕ) × (o ≡ failed e)) ⊎ ((got : List ℕ) × (o ≡ received got))
Outcome-cases (failed e) = inl (e, refl)
Outcome-cases (received got) = inr (got, refl)

module _ (readv : List ℕ → ReadOutcome) (b : Buffer) (v : IsValid b)
    (small : length b.bytes + extra_size < int_limit)
    (documented : (sizes got : List ℕ)
      → readv sizes ≡ received got
      → length got ≤ total sizes) where
  abbrev Reads : Type 0
  Reads =
      (c : Buffer) × (read_fd readv b ≡ some (readv (offered b), c))
      × IsValid c
      × (content c ≡ content b ++ bytes_of (readv (offered b)))

  read_fd_sizes : read_fd readv b ≡ take_in b (readv (offered b))
  unfolding read_fd
  read_fd_sizes =
      ap (λ (n : ℕ). take_in b (readv (if ltb n extra_size then n ∷ extra_size ∷ [] else n ∷ [])))
        {y = length b.bytes - b.writer_index} (writable_bytes_lem b v)

  reads_failed : (e : ℕ) → readv (offered b) ≡ failed e → Reads
  unfolding take_in
  reads_failed e h = (b, read_fd_sizes ∙ rw h refl, v, rw h (sym (append-nil (content b))))

  reads_fitting :
      (got : List ℕ)
      → readv (offered b) ≡ received got
      → length got ≤ length b.bytes - b.writer_index
      → Reads
  unfolding take_in
  reads_fitting got h k = (
    written b v got,
    read_fd_sizes
        ∙ rw
            (
              h,
              writable_bytes_lem b v,
              begin_write_lem b v,
              le→leb (length got) _ k,
              take_all (length b.bytes - b.writer_index) got k,
              to_size_exact b.writer_index (omega arith),
              add_size_exact b.writer_index (length got) (omega arith),
              to_int_exact (b.writer_index + length got) (omega arith),
            )
            refl,
    written-IsValid b v got (omega arith),
    rw h (content-written b v got (omega arith)),
  )

  reads_over :
      (got : List ℕ)
      → readv (offered b) ≡ received got
      → length b.bytes - b.writer_index < length got
      → Reads
  unfolding take_in
  reads_over got h k =
      let n : ℕ = length b.bytes - b.writer_index in
      let here : List ℕ = take n got in
      let len-here : b.writer_index + length here ≡ length b.bytes =
        omega (arith, length-take n got) in
      let fits : length got ≤ n + extra_size = ground (arith, documented (offered b) got h) in
      let e = length-copy_to b.bytes b.writer_index here in
      let full : Buffer = record b {
        bytes = copy_to b.bytes b.writer_index here;
        writer_index = length b.bytes;
      } in
      let full-IsValid : IsValid full = omega arith in
      let shows : content full ≡ content b ++ here =
        ap
          (λ (m : ℕ).
            content (record b { bytes = copy_to b.bytes b.writer_index here; writer_index = m }))
          {x = length b.bytes} {y = b.writer_index + length here} (sym len-here)
        ∙ content-written b v here (omega arith) in
      let (c, r, w, _, s) =
        append-Shows (drop n got) full full-IsValid (omega (arith, length-drop n got)) in
      (
        c,
        read_fd_sizes
            ∙ rw
                (
                  h,
                  writable_bytes_lem b v,
                  begin_write_lem b v,
                  lt→leb (length got) n k,
                  to_int_exact (length b.bytes) (omega arith),
                  r,
                )
                refl,
        w,
        rw h (
            s
            ∙ ap (λ t. t ++ drop n got) shows
            ∙ append_assoc (content b) here (drop n got)
            ∙ ap (λ t. content b ++ t) (take-append-drop n got)),
      )

-- `readFd` reports what `readv` did, and puts every byte that arrived, in order, behind those that
-- waited, also when they do not fit the buffer. On an error the content stays.
pub read_fd-Reads :
    (readv : List ℕ → ReadOutcome) (b : Buffer)
    → IsValid b
    → length b.bytes + extra_size < int_limit
    → ((sizes got : List ℕ) → readv sizes ≡ received got → length got ≤ total sizes)
    → (c : Buffer) × (read_fd readv b ≡ some (readv (offered b), c))
      × IsValid c
      × (content c ≡ content b ++ bytes_of (readv (offered b)))
read_fd-Reads readv b v small documented = elim (Outcome-cases (readv (offered b))) [
  | inl (e, h) ↦ reads_failed readv b v small documented e h
  | inr (got, h) ↦ elim (Bool-cases (leb (length got) (length b.bytes - b.writer_index))) [
    | inl fits ↦ reads_fitting readv b v small documented got h (leb→le _ _ fits)
    | inr over ↦ reads_over readv b v small documented got h (ground arith)
  ]
]
