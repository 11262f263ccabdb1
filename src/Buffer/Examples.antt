-- ===== src/Buffer/Examples.antt =====
-- netlib/net/Buffer.h: the theorems at small inputs.
use netlib.Base.{
  ℕ, ◌≤◌, ◌≡◌, refl, ap, List, [], ◌∷◌, ◌++◌, length, take, drop, length-take, arith, some,
}
use netlib.Buffer.{
  Buffer, prepend, retrieve, append_int, read_int, read_fd, ReadOutcome, received, failed,
}
use netlib.Buffer.Inv.{IsValid, content}
use netlib.Buffer.Slices.{slice}
use netlib.Buffer.Ops.{Shows, prepend-Shows, retrieve-Shows}
use netlib.Buffer.Ints.{read_int-append_int}
use netlib.Buffer.ReadFd.{read_fd-Reads, bytes_of, offered, total}
use netlib.Buffer.Queue.{Op, appends, retrieves, unwrites, run, queue_run, Agrees, run-Agrees}

-- Two reserved bytes are used up, and "hi\n" waits.
abbrev waiting : Buffer
waiting = record {
  bytes = 0 ∷ 0 ∷ 0 ∷ 0 ∷ 0 ∷ 0 ∷ 0 ∷ 0 ∷ 9 ∷ 9 ∷ 104 ∷ 105 ∷ 10 ∷ 0 ∷ [];
  reader_index = 10;
  writer_index = 13;
}

abbrev drained : Buffer
drained = record waiting { writer_index = 10 }

waiting-IsValid : IsValid waiting
waiting-IsValid = omega arith

drained-IsValid : IsValid drained
drained-IsValid = omega arith

abbrev message : List ℕ
message = 1 ∷ 2 ∷ 3 ∷ []

prepend-Shows_example : Shows 14 (prepend message waiting) (message ++ content waiting)
prepend-Shows_example = prepend-Shows waiting waiting-IsValid message (omega arith)

retrieve-Shows_example : Shows 14 (retrieve 2 waiting) (drop 2 (content waiting))
unfolding content slice
retrieve-Shows_example = retrieve-Shows waiting waiting-IsValid 2 (omega arith)

read_int-append_int_example :
    (c d : Buffer) × (append_int 4 77777 drained ≡ some c)
    × (read_int 4 c ≡ some (77777, d))
    × IsValid d
    × (content d ≡ [])
unfolding content slice
read_int-append_int_example =
    read_int-append_int 4 77777 drained drained-IsValid refl (omega arith) (omega arith)

abbrev calls : List Op
calls = retrieves 1 ∷ appends message ∷ unwrites 2 ∷ retrieves 3 ∷ retrieves 1 ∷ []

run-Agrees_example : Agrees 17 (run calls waiting) (queue_run calls (content waiting))
run-Agrees_example = run-Agrees calls waiting waiting-IsValid (omega arith)

-- A call of `readv` that fills at most the first vector.
abbrev short_read : List ℕ → ReadOutcome
short_read [] = failed 22
short_read (n ∷ ns) = received (take n message)

short_read_documented :
    (sizes got : List ℕ) → short_read sizes ≡ received got → length got ≤ total sizes
short_read_documented [] got h = cc
short_read_documented (n ∷ ns) got h =
    omega (arith, ap (λ (o : ReadOutcome). length (bytes_of o)) h, length-take n message)

read_fd-Reads_example :
    (c : Buffer) × (read_fd short_read waiting ≡ some (short_read (offered waiting), c))
    × IsValid c
    × (content c ≡ content waiting ++ bytes_of (short_read (offered waiting)))
read_fd-Reads_example =
    read_fd-Reads short_read waiting waiting-IsValid (omega arith) short_read_documented
