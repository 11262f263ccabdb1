-- ===== src/TcpConnection/Sending.antt =====
-- netlib/net/TcpConnection.cc, `sendInLoop` and `handleWrite`: what one call does to the bytes that
-- wait.
use netlib.Base.{
  ℕ, ◌+◌, ◌<◌, ◌≤◌, ◌≡◌, ◌≢◌, inl, inr, refl, sym, ◌∙◌, Bool, true, false, List, [], ◌++◌, some,
  length, take, drop, ltb, leb, ◌==◌, Bool-cases, if◌then◌else◌, length-drop, length-take, take_all,
  drop_all, take-append-drop, append-nil, int_limit, sub_size_exact, le→leb, ltb→lt, ltb_false→le,
  arith,
}
use netlib.Buffer.Inv.{content, to_string-eq-content}
use netlib.Buffer.Ops.{retrieve-Shows}
use netlib.Chnnel.{is_writing, disable_writing}
use netlib.TcpConnection.{
  Conn, State, connecting, connected, disconnected, disconnecting, Effect, Handled, is, direct,
  Attempt, attempt, no_attempt, after_attempt, send_in_loop, WriteOutcome, wrote, broken, breaks,
  handle_write, after_write, drained,
}
use netlib.TcpConnection.Inv.{IsValid, enqueue-IsValid, readable_zero, nil_of_length}

-- What the system takes of the bytes that it is given.
abbrev pub taken : WriteOutcome → List ℕ → List ℕ
taken (wrote n) s = take n s
taken (broken e) s = []

abbrev lost : WriteOutcome → Bool
lost (wrote n) = false
lost (broken e) = breaks e

-- What `sendInLoop` hands to the system at once, and whether it gives the message up.
pub accepted : (List ℕ → WriteOutcome) → List ℕ → Conn → List ℕ
accepted write s c = if direct c then taken (write s) s else []

pub given_up : (List ℕ → WriteOutcome) → List ℕ → Conn → Bool
given_up write s c = if direct c then lost (write s) else false

-- `write(2)` takes no more than it is offered.
abbrev pub IsDocumented : (List ℕ → WriteOutcome) → Type 0
IsDocumented write = (s : List ℕ) (n : ℕ) → write s ≡ wrote n → n ≤ length s

-- A handler went through, and `s` waits now.
abbrev Waits : Conn → Handled → List ℕ → Type 0
Waits c r s =
    (d : Conn) × (es : List Effect) × (r ≡ some (d, es))
    × IsValid d
    × (d.state ≡ c.state)
    × (content d.output ≡ s)

is-disconnected : (s : State) → s ≢ disconnected → is s disconnected ≡ false
is-disconnected disconnected h = absurd (h refl)
is-disconnected connecting h = refl
is-disconnected connected h = refl
is-disconnected disconnecting h = refl

module _ (c : Conn) (v : IsValid c) (s : List ℕ)
    (room : c.output.writer_index + length s < int_limit) where
  after_attempt-Waits :
      (a : Attempt)
      → a.nwrote + a.remaining ≡ length s
      → Waits c
          (after_attempt c s a)
          (if a.fault_error then content c.output else content c.output ++ drop a.nwrote s)
  unfolding after_attempt
  after_attempt-Waits a e = elim (Bool-cases a.fault_error) [
    | inl fault ↦ (c, a.due, rw (fits, fault), v, refl, rw fault)
    | inr fine ↦ elim (Bool-cases (ltb 0 a.remaining)) [
      | inl more ↦
          let k : 0 < length (drop a.nwrote s) =
            omega (arith, length-drop a.nwrote s, ltb→lt 0 a.remaining more) in
          let (d, es, r, w, t, x) =
            enqueue-IsValid c v.input_valid v.output_valid (drop a.nwrote s) a.due k
              (omega (arith, length-drop a.nwrote s)) in
          (
            d,
            es,
            rw
                (
                  fits,
                  fine,
                  more,
                  take_all a.remaining (drop a.nwrote s) (omega (arith, length-drop a.nwrote s)),
                )
                r,
            w,
            t,
            rw fine x,
          )
      | inr all ↦
          let k : drop a.nwrote s ≡ [] =
            drop_all a.nwrote s (omega (arith, ltb_false→le 0 a.remaining all)) in
          (c, a.due, rw (fits, fine, all), v, refl, rw (fine, k) (sym (append-nil _)))
    ]
  ]
    where
      fits : leb a.remaining (length s) ≡ true
      fits = le→leb a.remaining (length s) (omega arith)

  direct_empty : direct c ≡ true → content c.output ≡ []
  direct_empty h =
      nil_of_length (content c.output) (ground (arith, readable_zero c.output v.output_valid))

  direct-Waits :
      (o : WriteOutcome)
      → direct c ≡ true
      → ((n : ℕ) → o ≡ wrote n → n ≤ length s)
      → Waits c
          (after_attempt c s (attempt c (length s) o))
          (if lost o then content c.output else content c.output ++ drop (length (taken o s)) s)
  unfolding attempt
  direct-Waits (wrote n) h doc =
      let k : n ≤ length s = doc n refl in
      let t : length (take n s) ≡ n = omega (arith, length-take n s) in
      rw t (
        after_attempt-Waits (attempt c (length s) (wrote n))
          (rw (sub_size_exact (length s) n (omega arith) k) (omega arith)))
  direct-Waits (broken e) h doc =
      after_attempt-Waits (attempt c (length s) (broken e)) (omega arith)

  -- With nothing waiting, what goes out and what stays make up the message.
  split_message :
      (o : WriteOutcome) (rest : List ℕ)
      → direct c ≡ true
      → ((n : ℕ) → o ≡ wrote n → n ≤ length s)
      → rest
        ≡ (if lost o then content c.output else content c.output ++ drop (length (taken o s)) s)
      → content c.output ++ (if lost o then [] else s) ≡ taken o s ++ rest
  split_message (wrote n) rest h doc e =
      let t : length (take n s) ≡ n = omega (arith, length-take n s, doc n refl) in
      rw (e, t, direct_empty h) (sym (take-append-drop n s))
  split_message (broken e) rest h doc k = elim (Bool-cases (breaks e)) [
    | inl fatal ↦ rw (k, fatal) (append-nil _)
    | inr fine ↦ rw (k, fine) refl
  ]

pub send_in_loop-Keeps :
    (write : List ℕ → WriteOutcome) (s : List ℕ) (c : Conn)
    → IsValid c
    → IsDocumented write
    → c.state ≢ disconnected
    → c.output.writer_index + length s < int_limit
    → (d : Conn) × (es : List Effect) × (send_in_loop write s c ≡ some (d, es))
      × IsValid d
      × (d.state ≡ c.state)
      × (content c.output ++ (if given_up write s c then [] else s)
          ≡ accepted write s c ++ content d.output)
unfolding send_in_loop accepted given_up
send_in_loop-Keeps write s c v doc live room = elim (Bool-cases (direct c)) [
  | inl now ↦
      let (d, es, r, w, t, x) = direct-Waits c v s room (write s) now (doc s) in
      (
        d,
        es,
        rw (is-disconnected c.state live, now) r,
        w,
        t,
        rw now (split_message c v s room (write s) (content d.output) now (doc s) x),
      )
  | inr later ↦
      let (d, es, r, w, t, x) =
        after_attempt-Waits c v s room (no_attempt (length s)) (omega arith) in
      (d, es, rw (is-disconnected c.state live, later) r, w, t, rw later (sym x))
]

module _ (c : Conn) (v : IsValid c) (on : is_writing c.events ≡ true) where
  after_write-Keeps :
      (o : WriteOutcome)
      → ((n : ℕ) → o ≡ wrote n → n ≤ length (content c.output))
      → (d : Conn) × (es : List Effect) × (after_write c o ≡ some (d, es))
        × IsValid d
        × (d.state ≡ c.state)
        × (content c.output ≡ taken o (content c.output) ++ content d.output)
  unfolding after_write drained is_writing disable_writing
  after_write-Keeps (broken e) doc = (c, [], refl, v, refl, refl)
  after_write-Keeps (wrote n) doc = elim (Bool-cases (ltb 0 n)) [
    | inl some_sent ↦
        let (out, e, w, _, x) = retrieve-Shows c.output v.output_valid n (doc n refl) in
        let keeps : content c.output ≡ take n (content c.output) ++ content out =
          rw x (sym (take-append-drop n (content c.output))) in
        let kept : Conn = record c { output = out } in
        let zero = readable_zero out w in
        elim (Bool-cases (length (content out) == 0)) [
          | inl all ↦ (
            (drained kept).0,
            (drained kept).1,
            rw (some_sent, e, zero, all),
            record { input_valid = v.input_valid; output_valid = w; armed = λ _. ground arith },
            refl,
            keeps,
          )
          | inr more ↦ (
            kept,
            [],
            rw (some_sent, e, zero, more),
            record {
              input_valid = v.input_valid;
              output_valid = w;
              armed = λ _. on ∙ ground arith;
            },
            refl,
            keeps,
          )
        ]
    | inr none_sent ↦
        let z : n ≡ 0 = omega (arith, ltb_false→le 0 n none_sent) in
        (c, [], rw none_sent, v, refl, rw z refl)
  ]

-- `handleWrite` sends a front part of what waits and keeps the rest, and the channel goes on to
-- watch for writability exactly if something is left.
pub handle_write-Keeps :
    (write : List ℕ → WriteOutcome) (c : Conn)
    → IsValid c
    → IsDocumented write
    → (d : Conn) × (es : List Effect) × (handle_write write c ≡ some (d, es))
      × IsValid d
      × (d.state ≡ c.state)
      × (content c.output
          ≡ (if is_writing c.events
              then taken (write (content c.output)) (content c.output)
              else [])
            ++ content d.output)
unfolding handle_write
handle_write-Keeps write c v doc = elim (Bool-cases (is_writing c.events)) [
  | inl on ↦
      let (d, es, r, w, t, x) =
        after_write-Keeps c v on (write (content c.output)) (doc (content c.output)) in
      (d, es, rw (on, to_string-eq-content c.output v.output_valid) r, w, t, rw on x)
  | inr off ↦ (c, [], rw off, v, refl, rw off refl)
]
