-- ===== src/AsyncLogging/Lines.antt =====
-- netlib/base/AsyncLogging.cc: the threads that append and the thread that writes, as steps. The
-- locked block of a round and the writing after it are two steps, with appending in between.
use netlib.Base.{
  ℕ, ◌<◌, ◌≤◌, ◌≡◌, refl, sym, ap, subst, ◌∙◌, inl, inr, Bool, true, false, Option-cases, Option,
  none, some, ◌>>=◌, [], ◌∷◌, ◌++◌, append_assoc, append-nil, length,
}
use netlib.AsyncLogging.{
  Bytes, Logging, Writer, construct, construct_writer, next_buffer, append, collect, concat,
  write_out,
}
use netlib.AsyncLogging.Order.{
  Holds, Ready, append-Holds, fresh-Holds, concat-snoc, snoc_one, snoc_both, took, emptied,
}

-- `writing` while the writer is behind the locked block of its round.
pub record Logger : Type 0 where
  pub front : Logging
  pub back : Writer
  pub writing : Bool

pub data Event : Type 0 where
  appends : Bytes → Event
  collects writes : Event

unfoldable pub happens : ℕ → Event → Logger → Option Logger
happens size (appends msg) s = append size msg s.front >>= (λ f. some (record s { front = f }))
happens size collects s =
    collect s.front s.back >>= (λ (f, b). some (record { front = f; back = b; writing = true }))
happens size writes s = write_out s.back >>= (λ b. some (record s { back = b; writing = false }))

abbrev pub message : Event → Bytes
message (appends msg) = msg
message collects = []
message writes = []

-- The writer's two steps alternate; lines are shorter than a buffer, and no round takes more than 25.
abbrev pub Comes : ℕ → Event → Logger → Type 0
Comes size (appends msg) s = length msg < size
Comes size collects s = s.writing ≡ false
Comes size writes s = (s.writing ≡ true) × (length s.back.to_write ≤ 25)

-- Where the writer stands.
abbrev pub Stands : Bool → Writer → Type 0
Stands false w = Ready w × (w.to_write ≡ [])
Stands true w =
    length w.to_write ≤ 25 → write_out w ≡ some (emptied (w.written ++ concat w.to_write))

-- All lines are written, in the writer's hands, or in front, in this order.
pub record Sound (lines : Bytes) (s : Logger) : Type 0 where
  pub held : Bytes
  pub holds : Holds held s.front
  pub stands : Stands s.writing s.back
  pub all : (s.back.written ++ concat s.back.to_write) ++ held ≡ lines

abbrev pub Succeeds : Bytes → Option Logger → Type 0
Succeeds lines o = (s : Logger) × (o ≡ some s) × Sound lines s

collects-Succeeds :
    (size : ℕ) (lines : Bytes) (f : Logging) (b : Writer) (held : Bytes)
    → Holds held f
    → Stands false b
    → (b.written ++ concat b.to_write) ++ held ≡ lines
    → Succeeds lines (happens size collects (record { front = f; back = b; writing = false }))
unfolding happens collect
collects-Succeeds size lines f b held h (r, none_left) all =
    let whole : concat (f.buffers ++ h.current ∷ []) ≡ held =
      concat-snoc f.buffers h.current ∙ h.content in
    let moved : (b.written ++ concat (f.buffers ++ h.current ∷ [])) ++ [] ≡ lines =
      append-nil (b.written ++ concat (f.buffers ++ h.current ∷ []))
      ∙ ap (λ (t : Bytes). b.written ++ t) whole
      ∙ sym (ap (λ (t : Bytes). t ++ held) (append-nil b.written))
      ∙ sym (ap (λ ws. (b.written ++ concat ws) ++ held) none_left)
      ∙ all in
    elim (Option-cases f.spare) [
      | inl used ↦ (
        record {
          front = record { current = some []; spare = some []; buffers = [] };
          back = took none (f.buffers ++ h.current ∷ []) b.written;
          writing = true;
        },
        rw (r.buffer1, r.buffer2, h.is_current, used) refl,
        record {
          held = [];
          holds = fresh-Holds (some []) refl;
          stands = λ few. snoc_both f.buffers h.current b.written (h.spare_used used) few;
          all = moved;
        },
      )
      | inr (s, kept) ↦ (
        record {
          front = record { current = some []; spare = some s; buffers = [] };
          back = took (some []) (f.buffers ++ h.current ∷ []) b.written;
          writing = true;
        },
        rw (r.buffer1, r.buffer2, h.is_current, kept) refl,
        record {
          held = [];
          holds = fresh-Holds (some s) (ap some (sym (ap next_buffer kept) ∙ h.spare_empty));
          stands = λ few. snoc_one f.buffers h.current b.written few;
          all = moved;
        },
      )
    ]

writes-Succeeds :
    (size : ℕ) (lines : Bytes) (f : Logging) (b : Writer) (held : Bytes)
    → Holds held f
    → Stands true b
    → (b.written ++ concat b.to_write) ++ held ≡ lines
    → length b.to_write ≤ 25
    → Succeeds lines (happens size writes (record { front = f; back = b; writing = true }))
unfolding happens
writes-Succeeds size lines f b held h stands all few = (
  record { front = f; back = emptied (b.written ++ concat b.to_write); writing = false },
  rw (stands few) refl,
  record {
    held = held;
    holds = h;
    stands = (record { buffer1 = refl; buffer2 = refl }, refl);
    all = ap (λ (t : Bytes). t ++ held) (append-nil (b.written ++ concat b.to_write)) ∙ all;
  },
)

appends-Succeeds :
    (size : ℕ) (msg lines : Bytes) (s : Logger)
    → Sound lines s
    → length msg < size
    → Succeeds (lines ++ msg) (happens size (appends msg) s)
unfolding happens
appends-Succeeds size msg lines s v short =
    let (f, e, h) = append-Holds size msg v.held s.front short v.holds in
    (
      record s { front = f },
      rw e refl,
      record {
        held = v.held ++ msg;
        holds = h;
        stands = v.stands;
        all =
            sym (append_assoc (s.back.written ++ concat s.back.to_write) v.held msg)
            ∙ ap (λ (t : Bytes). t ++ msg) v.all;
      },
    )

-- Whatever the threads do, in whatever order, with lines shorter than a buffer and at most 25
-- buffers a round: no assertion fails and no null buffer is used, and what is written, what the writer
-- has in hand and what is held in front make up all the lines appended, once each and in order.
pub happens-Logs :
    (size : ℕ) (e : Event) (lines : Bytes) (s : Logger)
    → Sound lines s
    → Comes size e s
    → Succeeds (lines ++ message e) (happens size e s)
happens-Logs size (appends msg) lines s v c = appends-Succeeds size msg lines s v c
happens-Logs size collects lines s v c =
    let stands = subst (λ b. Stands b s.back) c v.stands in
    let at : s ≡ record s { writing = false } = ap (λ b. record s { writing = b }) c in
    rw at (
      collects-Succeeds size (lines ++ []) s.front s.back v.held v.holds stands
        (v.all ∙ sym (append-nil lines)))
happens-Logs size writes lines s v (c, few) =
    let stands = subst (λ b. Stands b s.back) c v.stands in
    let at : s ≡ record s { writing = true } = ap (λ b. record s { writing = b }) c in
    rw at (
      writes-Succeeds size (lines ++ []) s.front s.back v.held v.holds stands
        (v.all ∙ sym (append-nil lines)) few)

pub start-Sound : Sound [] (record { front = construct; back = construct_writer; writing = false })
unfolding construct construct_writer
start-Sound = record {
  held = [];
  holds = fresh-Holds (some []) refl;
  stands = (record { buffer1 = refl; buffer2 = refl }, refl);
  all = refl;
}
