-- ===== src/Buffer/Queue.antt =====
-- netlib/net/Buffer.h: any sequence of calls against a plain queue of bytes.
use netlib.Base.{
  ℕ, ◌+◌, ◌-◌, ◌≤◌, ◌<◌, ◌≡◌, refl, List, [], ◌∷◌, ◌++◌, length, take, drop, arith, int_limit,
  Option, some, none, leb, inl, inr, Bool-cases, lt→leb, leb→le, if◌then◌else◌, ◌>>=◌,
}
use netlib.Buffer.{Buffer, append, retrieve, unwrite}
use netlib.Buffer.Inv.{IsValid, content, length-content, readable_bytes_lem}
use netlib.Buffer.Ops.{Shows, append-Shows, unwrite-Shows, retrieve-Shows}

pub data Op : Type 0 where
  appends : List ℕ → Op
  retrieves : ℕ → Op
  unwrites : ℕ → Op

pub step : Op → Buffer → Option Buffer
step (appends s) b = append s b
step (retrieves n) b = retrieve n b
step (unwrites n) b = unwrite n b

pub run : List Op → Buffer → Option Buffer
run [] b = some b
run (o ∷ os) b = step o b >>= run os

-- The queue: bytes go in behind and come out in front, and the newest can be taken back.
pub queue_step : Op → List ℕ → Option (List ℕ)
queue_step (appends s) q = some (q ++ s)
queue_step (retrieves n) q = if leb n (length q) then some (drop n q) else none
queue_step (unwrites n) q = if leb n (length q) then some (take (length q - n) q) else none

pub queue_run : List Op → List ℕ → Option (List ℕ)
queue_run [] q = some q
queue_run (o ∷ os) q = queue_step o q >>= queue_run os

abbrev pub written_by : Op → ℕ
written_by (appends s) = length s
written_by (retrieves n) = 0
written_by (unwrites n) = 0

abbrev pub written_by_all : List Op → ℕ
written_by_all [] = 0
written_by_all (o ∷ os) = written_by o + written_by_all os

-- The outcome on the buffer is the one on the queue: a failed assertion where the queue refuses.
abbrev pub Agrees : ℕ → Option Buffer → Option (List ℕ) → Type 0
Agrees n r none = r ≡ none
Agrees n r (some q) = Shows n r q

Agrees-mono :
    (m n : ℕ) (r : Option Buffer) (q : Option (List ℕ)) → m ≤ n → Agrees m r q → Agrees n r q
Agrees-mono m n r none h a = a
Agrees-mono m n r (some q) h (c, e, v, l, s) = (c, e, v, omega arith, s)

module _ (b : Buffer) (v : IsValid b) where
  refuses : (n : ℕ) → length (content b) < n → (retrieve n b ≡ none) × (unwrite n b ≡ none)
  unfolding retrieve unwrite
  refuses n h =
      let few = lt→leb n (b.writer_index - b.reader_index) (omega (arith, length-content b v)) in
      (rw (readable_bytes_lem b v, few), rw (readable_bytes_lem b v, few))

  step-Agrees :
      (o : Op)
      → length b.bytes + written_by o < int_limit
      → Agrees (length b.bytes + written_by o) (step o b) (queue_step o (content b))
  unfolding step queue_step
  step-Agrees (appends s) h = append-Shows s b v (omega arith)
  step-Agrees (retrieves n) h = elim (Bool-cases (leb n (length (content b)))) [
    | inl fits ↦ rw fits (
        Agrees-mono (length b.bytes) _ _ (some _) (omega arith)
          (retrieve-Shows b v n (leb→le _ _ fits)))
    | inr over ↦ rw over ((refuses n (ground arith)).0)
  ]
  step-Agrees (unwrites n) h = elim (Bool-cases (leb n (length (content b)))) [
    | inl fits ↦ rw fits (
        Agrees-mono (length b.bytes) _ _ (some _) (omega arith)
          (unwrite-Shows b v n (leb→le _ _ fits)))
    | inr over ↦ rw over ((refuses n (ground arith)).1)
  ]

-- Every sequence of appends, retrievals and take-backs does to the buffer what it does to the
-- queue of its bytes, with a failed assertion exactly where more is asked for than is there, as
-- long as the bytes ever written stay within the range of `int`.
pub run-Agrees :
    (os : List Op) (b : Buffer)
    → IsValid b
    → length b.bytes + written_by_all os < int_limit
    → Agrees (length b.bytes + written_by_all os) (run os b) (queue_run os (content b))
unfolding run queue_run
run-Agrees [] b v h = (b, refl, v, omega arith, refl)
run-Agrees (o ∷ os) b v h =
    go (run-Agrees os) (queue_step o (content b)) (step-Agrees b v o (omega arith))
  where
    go :
        ((c : Buffer)
          → IsValid c
          → length c.bytes + written_by_all os < int_limit
          → Agrees (length c.bytes + written_by_all os) (run os c) (queue_run os (content c)))
        → (q : Option (List ℕ)) → Agrees (length b.bytes + written_by o) (step o b) q
        → Agrees
            (length b.bytes + written_by_all (o ∷ os))
            (step o b >>= run os)
            (q >>= queue_run os)
    go rest none a = rw a refl
    go rest (some q) (c, e, w, l, s) =
        rw (e, ← s)
          (Agrees-mono (length c.bytes + written_by_all os) _ (run os c) (queue_run os (content c))
            (omega arith) (rest c w (omega arith)))
