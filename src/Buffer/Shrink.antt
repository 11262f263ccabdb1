-- ===== src/Buffer/Shrink.antt =====
-- netlib/net/Buffer.h, `shrink`, `findEOL` and the constructor.
use netlib.Base.{
  ℕ, suc, ◌+◌, ◌-◌, ◌≤◌, ◌<◌, ◌≡◌, ◌≢◌, refl, ◌∙◌, ap, List, [], ◌∷◌, ◌++◌, length, take, arith,
  int_limit, Option, some, none, replicate, length-replicate, to_int, to_size, sub_int, sub_size,
  add_size_exact, get_elem?, ◌==◌, inl, inr, Bool-cases, ==_iff,
}
use netlib.Buffer.{
  Buffer, shrink, construct, readable_bytes, writable_bytes, prependable_bytes, peek, initial_size,
  find_eol, find_from,
}
use netlib.Buffer.Inv.{
  IsValid, content, length-content, readable_bytes_lem, peek_lem, to_string-eq-content,
}
use netlib.Buffer.Slices.{slice, slice_empty}
use netlib.Buffer.Ops.{append-Shows}
use netlib.Buffer.Space.{ensure_writable_bytes-Made}

-- What every call of the constructor makes, whatever size it is given.
abbrev fresh : Buffer
fresh = record { bytes = replicate 1032 0; reader_index = 8; writer_index = 8 }

fresh-IsValid : IsValid fresh
fresh-IsValid = let e = length-replicate {A = ℕ} 1032 0 in omega arith

-- The constructor succeeds with an empty buffer of the default size for every `initialSize`, whose
-- value it does not use.
pub construct-fresh :
    (size : ℕ) → (construct size ≡ some fresh) × IsValid fresh × (content fresh ≡ [])
unfolding construct readable_bytes writable_bytes prependable_bytes to_int to_size sub_int sub_size
    content
construct-fresh size = (refl, fresh-IsValid, slice_empty fresh.bytes 8)

-- `shrink` moves the content to another buffer, and loses nothing of it.
pub shrink-Shows :
    (reserve : ℕ) (b : Buffer)
    → IsValid b
    → 1032 + length (content b) + reserve < int_limit
    → (c : Buffer) × (shrink reserve b ≡ some c) × IsValid c × (content c ≡ content b)
unfolding shrink
shrink-Shows reserve b v h =
    let n : ℕ = b.writer_index - b.reader_index in
    let k = length-content b v in
    let (other, e, m) =
      ensure_writable_bytes-Made fresh fresh-IsValid (n + reserve) (omega arith) in
    let (c, r, w, _, s) =
      append-Shows (content b) other m.valid (omega (arith, m.room, m.valid.small)) in
    (
      c,
      rw
          (
            (construct-fresh initial_size).0,
            readable_bytes_lem b v,
            add_size_exact n reserve (omega arith),
            e,
            to_string-eq-content b v,
          )
          r,
      w,
      s ∙ ap (λ t. t ++ content b) (m.same ∙ (construct-fresh 0).2),
    )

-- No line feed among them.
abbrev pub NoEol : List ℕ → Type 0
NoEol [] = Unit {0}
NoEol (x ∷ xs) = (x ≢ 10) × NoEol xs

-- `r` is the place of the first line feed of `xs`, whose first byte stands at `at`.
abbrev FirstEol : List ℕ → ℕ → Option ℕ → Type 0
FirstEol xs at none = NoEol xs
FirstEol xs at (some r) = (at ≤ r) × (get_elem? xs (r - at) ≡ some 10) × NoEol (take (r - at) xs)

FirstEol-cons :
    (x : ℕ) (xs : List ℕ) (at : ℕ) (r : Option ℕ)
    → x ≢ 10
    → FirstEol xs (suc at) r
    → FirstEol (x ∷ xs) at r
FirstEol-cons x xs at none h f = (h, f)
FirstEol-cons x xs at (some r) h (l, e, f) =
    let k : r - at ≡ suc (r - suc at) = omega arith in (omega arith, rw k e, rw k (h, f))

find_from-FirstEol : (xs : List ℕ) (at : ℕ) → FirstEol xs at (find_from xs at)
unfolding find_from
find_from-FirstEol [] at = tt
find_from-FirstEol (x ∷ xs) at = elim (Bool-cases (x == 10)) [
  | inl hit ↦
      let k : at - at ≡ 0 = omega arith in
      rw (hit, k) (omega arith, ap some ((==_iff x 10).0 hit), tt)
  | inr miss ↦ rw miss (
      FirstEol-cons x xs at (find_from xs (suc at)) (λ e. cc (miss, (==_iff x 10).1 e))
        (find_from-FirstEol xs (suc at)))
]

-- `findEOL` points at the first line feed among the bytes to read, and at nothing if there is none.
find_eol-FirstEol : (b : Buffer) → IsValid b → FirstEol (content b) (peek b) (find_eol b)
unfolding find_eol content
find_eol-FirstEol b v =
    let e : b.reader_index + (b.writer_index - b.reader_index) ≡ b.writer_index = omega arith in
    rw (readable_bytes_lem b v, peek_lem b v, e)
      (find_from-FirstEol (slice b.bytes b.reader_index b.writer_index) b.reader_index)
