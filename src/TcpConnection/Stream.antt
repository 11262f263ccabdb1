-- ===== src/TcpConnection/Stream.antt =====
-- netlib/net/TcpConnection.cc, `sendInLoop` and `handleWrite`: the bytes that the peer is sent are
-- the bytes that were given to `send`, in order, each once.
use netlib.Base.{
  ℕ, ◌+◌, ◌<◌, ◌≡◌, ◌≢◌, sym, ap, ◌∙◌, List, [], ◌++◌, none, some, length, if◌then◌else◌,
  append-nil, append_assoc, subst, int_limit,
}
use netlib.Buffer.Inv.{content}
use netlib.Chnnel.{is_writing}
use netlib.TcpConnection.{
  Conn, disconnected, Effect, Handled, send_in_loop, WriteOutcome, handle_write,
}
use netlib.TcpConnection.Inv.{IsValid}
use netlib.TcpConnection.Sending.{
  taken, accepted, given_up, IsDocumented, send_in_loop-Keeps, handle_write-Keeps,
}

-- A connection talks: `given` is what was sent and not given up, `sent` what the system took.
pub data Talks (c : Conn) : List ℕ → List ℕ → Conn → Type 0 where
  idle : Talks c [] [] c
  say :
      {given sent : List ℕ} {d e : Conn}
      → Talks c given sent d
      → (write : List ℕ → WriteOutcome) (s : List ℕ) (es : List Effect) → IsDocumented write
      → d.state ≢ disconnected
      → d.output.writer_index + length s < int_limit
      → send_in_loop write s d ≡ some (e, es)
      → Talks c (given ++ (if given_up write s d then [] else s)) (sent ++ accepted write s d) e
  flush :
      {given sent : List ℕ} {d e : Conn}
      → Talks c given sent d
      → (write : List ℕ → WriteOutcome) (es : List Effect) → IsDocumented write
      → handle_write write d ≡ some (e, es)
      → Talks c given
          (sent
            ++ (if is_writing d.events
                then taken (write (content d.output)) (content d.output)
                else []))
          e

same_conn :
    (d e : Conn) (r : Handled) (es fs : List Effect) → r ≡ some (d, es) → r ≡ some (e, fs) → d ≡ e
same_conn d e r es fs p q = ap pick (sym p ∙ q)
  where
    pick : Handled → Conn
    pick none = d
    pick (some (x, _)) = x

regroup :
    (a given m sent took b x : List ℕ)
    → a ++ given ≡ sent ++ b
    → b ++ m ≡ took ++ x
    → a ++ (given ++ m) ≡ (sent ++ took) ++ x
regroup a given m sent took b x p q =
    sym (append_assoc a given m)
    ∙ ap (λ t. t ++ m) p
    ∙ append_assoc sent b m
    ∙ ap (λ t. sent ++ t) q
    ∙ sym (append_assoc sent took x)

-- Over any number of sends and flushes the bytes that the system took, followed by those that
-- still wait, are those that waited at first, followed by every message that was not given up.
pub Talks-stream :
    {c d : Conn} {given sent : List ℕ}
    → IsValid c
    → Talks c given sent d
    → IsValid d × (content c.output ++ given ≡ sent ++ content d.output)
Talks-stream v idle = (v, append-nil _)
Talks-stream {c} v (say {given} {sent} {d} {e} t write s es doc live room r) =
    let (w, keeps) = Talks-stream v t in
    let (e', fs, r', w', _, x) = send_in_loop-Keeps write s d w doc live room in
    let same = same_conn e' e (send_in_loop write s d) fs es r' r in
    (
      subst IsValid same w',
      regroup (content c.output) given _ sent (accepted write s d) (content d.output)
          (content e.output) keeps
          (x ∙ ap (λ (z : Conn). accepted write s d ++ content z.output) same),
    )
Talks-stream {c} v (flush {given} {sent} {d} {e} t write es doc r) =
    let (w, keeps) = Talks-stream v t in
    let (e', fs, r', w', _, x) = handle_write-Keeps write d w doc in
    let same = same_conn e' e (handle_write write d) fs es r' r in
    let took : List ℕ =
      if is_writing d.events then taken (write (content d.output)) (content d.output) else [] in
    (
      subst IsValid same w',
      ap (λ t. content c.output ++ t) (sym (append-nil given))
          ∙ regroup (content c.output) given [] sent took (content d.output) (content e.output)
              keeps (append-nil _ ∙ x ∙ ap (λ (z : Conn). took ++ content z.output) same),
    )
