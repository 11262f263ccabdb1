-- ===== src/AsyncLogging/Order.antt =====
-- netlib/base/AsyncLogging.cc: log lines are written once each, in the order they were appended.
use netlib.Base.{
  ℕ, ◌-◌, ◌<◌, ◌≤◌, ◌≡◌, refl, sym, ap, ◌∙◌, inl, inr, ltb, ltb→lt, lt→ltb, le→leb, Bool-cases,
  Option, none, some, List, [], ◌∷◌, ◌++◌, append_assoc, append-nil, length, length-append, arith,
}
use netlib.AsyncLogging.{
  Bytes, append_fixed, Logging, Writer, next_buffer, append, collect, concat, at_most, write_out,
}

concat-append : (bs cs : List Bytes) → concat (bs ++ cs) ≡ concat bs ++ concat cs
concat-append [] cs = refl
concat-append (b ∷ bs) cs =
    ap (λ (t : Bytes). b ++ t) (concat-append bs cs) ∙ sym (append_assoc b (concat bs) (concat cs))

pub concat-snoc : (bs : List Bytes) (b : Bytes) → concat (bs ++ b ∷ []) ≡ concat bs ++ b
concat-snoc bs b = concat-append bs (b ∷ []) ∙ ap (λ (t : Bytes). concat bs ++ t) (append-nil b)

-- The front end between two locked blocks holds the lines `lines`, in their order: in the full
-- buffers, then in the current one. The spare is empty, and missing only when a buffer is full.
pub record Holds (lines : Bytes) (l : Logging) : Type 0 where
  pub current : Bytes
  pub is_current : l.current ≡ some current
  pub spare_empty : next_buffer l.spare ≡ []
  pub spare_used : l.spare ≡ none → 0 < length l.buffers
  pub content : concat l.buffers ++ current ≡ lines

-- The back end at the head of its loop.
pub record Ready (w : Writer) : Type 0 where
  pub buffer1 : w.new_buffer1 ≡ some []
  pub buffer2 : w.new_buffer2 ≡ some []

fits_fixed :
    (size : ℕ) (msg b : Bytes) → length msg < size - length b → append_fixed size msg b ≡ b ++ msg
unfolding append_fixed
fits_fixed size msg b h = rw (lt→ltb _ _ h) refl

-- Appending a line shorter than a buffer does not fail, loses nothing that was held and puts the
-- line behind it, whether it fits the current buffer, takes the spare one or a new one.
pub append-Holds :
    (size : ℕ) (msg lines : Bytes) (l : Logging)
    → length msg < size
    → Holds lines l
    → (m : Logging) × (append size msg l ≡ some m) × Holds (lines ++ msg) m
unfolding append
append-Holds size msg lines l short h =
    elim (Bool-cases (ltb (length msg) (size - length h.current))) [
      | inl room ↦ (
        record l { current = some (append_fixed size msg h.current) },
        rw (h.is_current, room) refl,
        record {
          current = h.current ++ msg;
          is_current = ap some (fits_fixed size msg h.current (ltb→lt _ _ room));
          spare_empty = h.spare_empty;
          spare_used = h.spare_used;
          content =
              sym (append_assoc (concat l.buffers) h.current msg)
              ∙ ap (λ (t : Bytes). t ++ msg) h.content;
        },
      )
      | inr full ↦ (
        record {
          current = some (append_fixed size msg (next_buffer l.spare));
          spare = none;
          buffers = l.buffers ++ h.current ∷ [];
        },
        rw (h.is_current, full) refl,
        record {
          current = msg;
          is_current = rw h.spare_empty (ap some (fits_fixed size msg [] (omega arith)));
          spare_empty = refl;
          spare_used = λ _. omega (arith, length-append l.buffers (h.current ∷ []));
          content = ap (λ (t : Bytes). t ++ msg) (concat-snoc l.buffers h.current ∙ h.content);
        },
      )
    ]

-- What is left for `newBuffer1` and `newBuffer2` when there were more buffers.
trimmed_more : (a b : Bytes) (bs : List Bytes) → at_most 2 (a ∷ b ∷ bs) ≡ a ∷ b ∷ []
trimmed_more a b [] = refl
trimmed_more a b (c ∷ cs) = rw (lt→ltb 2 (length (a ∷ b ∷ c ∷ cs)) (omega arith)) refl

-- What a round of the loop does: it takes all lines that were held, leaves the front end with none,
-- and gives them to the log file.
pub record Round (lines : Bytes) (l : Logging) (w : Writer) : Type 0 where
  pub front : Logging
  pub taken : Writer
  pub back : Writer
  pub collects : collect l w ≡ some (front, taken)
  pub takes_all : concat taken.to_write ≡ lines
  pub leaves_none : Holds [] front
  pub writes : write_out taken ≡ some back
  pub ready : Ready back
  pub all_written : back.written ≡ w.written ++ lines

pub fresh-Holds :
    (s : Option Bytes)
    → s ≡ some []
    → Holds [] (record { current = some []; spare = s; buffers = [] })
fresh-Holds s e = record {
  current = [];
  is_current = refl;
  spare_empty = rw e refl;
  spare_used = λ h. absurd (cc (e, h));
  content = refl;
}

abbrev pub emptied : Bytes → Writer
emptied written = record {
  new_buffer1 = some [];
  new_buffer2 = some [];
  to_write = [];
  written = written;
}

-- No more buffers than a round may write.
abbrev pub Few : List Bytes → Type 0
Few ws = length ws ≤ 25

writes_both :
    (a b : Bytes) (bs : List Bytes) (done : Bytes)
    → Few (a ∷ b ∷ bs)
    → write_out
        (record { new_buffer1 = none; new_buffer2 = none; to_write = a ∷ b ∷ bs; written = done })
      ≡ some (emptied (done ++ concat (a ∷ b ∷ bs)))
unfolding write_out
writes_both a b bs done few = rw (le→leb (length (a ∷ b ∷ bs)) 25 few, trimmed_more a b bs) refl

writes_one :
    (a : Bytes) (bs : List Bytes) (done : Bytes)
    → Few (a ∷ bs)
    → write_out
        (record { new_buffer1 = none; new_buffer2 = some []; to_write = a ∷ bs; written = done })
      ≡ some (emptied (done ++ concat (a ∷ bs)))
unfolding write_out
writes_one a [] done few = refl
writes_one a (b ∷ bs) done few = rw (le→leb (length (a ∷ b ∷ bs)) 25 few, trimmed_more a b bs) refl

-- The writer that has taken the buffers.
abbrev pub took : Option Bytes → List Bytes → Bytes → Writer
took o ws done = record { new_buffer1 = none; new_buffer2 = o; to_write = ws; written = done }

pub snoc_one :
    (bs : List Bytes) (b done : Bytes)
    → Few (bs ++ b ∷ [])
    → write_out (took (some []) (bs ++ b ∷ []) done)
      ≡ some (emptied (done ++ concat (bs ++ b ∷ [])))
snoc_one [] b done few = writes_one b [] done few
snoc_one (a ∷ bs) b done few = writes_one a (bs ++ b ∷ []) done few

pub snoc_both :
    (bs : List Bytes) (b done : Bytes)
    → 0 < length bs
    → Few (bs ++ b ∷ [])
    → write_out (took none (bs ++ b ∷ []) done) ≡ some (emptied (done ++ concat (bs ++ b ∷ [])))
snoc_both [] b done h few = absurd (omega arith)
snoc_both (a ∷ []) b done h few = writes_both a b [] done few
snoc_both (a ∷ c ∷ bs) b done h few = writes_both a c (bs ++ b ∷ []) done few
