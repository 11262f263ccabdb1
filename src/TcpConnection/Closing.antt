-- ===== src/TcpConnection/Closing.antt =====
-- netlib/net/TcpConnection.cc: how a connection goes up and comes down.
use netlib.Base.{
  ℕ, ◌+◌, ◌<◌, ◌≤◌, ◌≡◌, ◌≢◌, refl, Bool, true, false, List, [], ◌∷◌, none, some, length, int_limit,
  arith,
}
use netlib.Buffer.{ReadOutcome, received, readable_bytes, extra_size}
use netlib.Buffer.Inv.{content}
use netlib.Buffer.ReadFd.{read_fd-Reads, offered, total}
use netlib.Chnnel.{no_event, is_writing, disable_writing}
use netlib.TcpConnection.{
  Conn, State, connecting, connected, disconnected, disconnecting, Effect, Handled, WriteOutcome,
  handle_read, after_read, handle_write, after_write, drained, shutdown, shutdown_in_loop,
  force_close, force_close_in_loop, force_close_with_delay, handle_close, connect_established,
  connect_destroyed, send_in_loop, after_attempt, enqueue, ensure_writing, start_read_in_loop,
  stop_read_in_loop, shut_write, updated, connection_call, close_call,
}
use netlib.TcpConnection.Inv.{IsValid}

-- Whether the write side is shut down among the effects.
abbrev pub shuts : List Effect → Bool
shuts [] = false
shuts (shut_write ∷ es) = true
shuts (e ∷ es) = shuts es

-- The events that reach a connection, each with what the system answers.
pub data Event : Type 0 where
  establish destroy shut force force_later force_now starts stops : Event
  sends : (List ℕ → WriteOutcome) → List ℕ → Event
  reads : (List ℕ → ReadOutcome) → Event
  writes : (List ℕ → WriteOutcome) → Event

unfoldable pub step : Bool → Event → Conn → Handled
step ndebug establish c = connect_established ndebug c
step ndebug destroy c = connect_destroyed ndebug c
step ndebug shut c = some (shutdown true c)
step ndebug force c = some (force_close c)
step ndebug force_later c = some (force_close_with_delay c)
step ndebug force_now c = force_close_in_loop ndebug c
step ndebug starts c = some (start_read_in_loop c)
step ndebug stops c = some (stop_read_in_loop c)
step ndebug (sends write s) c = send_in_loop write s c
step ndebug (reads readv) c = handle_read ndebug readv c
step ndebug (writes write) c = handle_write write c

-- The diagram: a connection stays where it is or goes forward.
abbrev pub forward : State → State → Bool
forward connecting connecting = true
forward connecting connected = true
forward connected connecting = false
forward connected _ = true
forward disconnecting disconnecting = true
forward disconnecting disconnected = true
forward disconnected disconnected = true
forward _ _ = false

forward_refl : (s : State) → forward s s ≡ true
forward_refl connecting = refl
forward_refl connected = refl
forward_refl disconnecting = refl
forward_refl disconnected = refl

module _ (c d : Conn) (es : List Effect) where
  destroy-forward :
      (ndebug : Bool) → connect_destroyed ndebug c ≡ some (d, es) → forward c.state d.state ≡ true
  unfolding connect_destroyed
  destroy-forward true h = ground (arith, forward_refl c.state)
  destroy-forward false h = ground (arith, forward_refl c.state)

  send-forward :
      (write : List ℕ → WriteOutcome) (s : List ℕ)
      → send_in_loop write s c ≡ some (d, es)
      → d.state ≡ c.state
  unfolding send_in_loop after_attempt enqueue ensure_writing
  send-forward write s h = ground arith

  read-forward :
      (ndebug : Bool) (readv : List ℕ → ReadOutcome)
      → (c.state ≡ connecting → ndebug ≡ false)
      → handle_read ndebug readv c ≡ some (d, es)
      → forward c.state d.state ≡ true
  unfolding handle_read after_read handle_close
  read-forward true readv up h = ground (arith, forward_refl c.state, up)
  read-forward false readv up h = ground (arith, forward_refl c.state)

  write-forward :
      (write : List ℕ → WriteOutcome) → handle_write write c ≡ some (d, es) → d.state ≡ c.state
  unfolding handle_write after_write drained shutdown_in_loop
  write-forward write h = ground arith

-- What a build without assertions relies on: a connection is established once, and reads nothing
-- before.
abbrev pub InPlace : Event → State → Type 0
InPlace establish s = s ≡ connecting
InPlace (reads readv) s = s ≢ connecting
InPlace e s = Unit {0}

-- Every event leaves the state or moves it forward: from connecting to connected alone, from connected
-- to disconnecting or disconnected, from disconnecting to disconnected. In the build that checks its
-- assertions this is so in every state; in the one that does not, where `connectEstablished` comes to a
-- connecting connection and nothing is read in one.
pub step-forward :
    (ndebug : Bool) (e : Event) (c d : Conn) (es : List Effect)
    → (ndebug ≡ true → InPlace e c.state)
    → step ndebug e c ≡ some (d, es)
    → forward c.state d.state ≡ true
unfolding step connect_established shutdown shutdown_in_loop force_close force_close_with_delay
    force_close_in_loop handle_close start_read_in_loop stop_read_in_loop
step-forward true establish c d es p h = ground (arith, forward_refl c.state, p refl)
step-forward false establish c d es p h = ground (arith, forward_refl c.state)
step-forward ndebug destroy c d es p h = destroy-forward c d es ndebug h
step-forward ndebug shut c d es p h = ground (arith, forward_refl c.state)
step-forward ndebug force c d es p h = ground (arith, forward_refl c.state)
step-forward ndebug force_later c d es p h = ground (arith, forward_refl c.state)
step-forward true force_now c d es p h = ground (arith, forward_refl c.state)
step-forward false force_now c d es p h = ground (arith, forward_refl c.state)
step-forward ndebug starts c d es p h = ground (arith, forward_refl c.state)
step-forward ndebug stops c d es p h = ground (arith, forward_refl c.state)
step-forward ndebug (sends write s) c d es p h =
    rw (send-forward c d es write s h) (forward_refl c.state)
step-forward true (reads readv) c d es p h =
    read-forward c d es true readv (λ e. absurd (p refl e)) h
step-forward false (reads readv) c d es p h = read-forward c d es false readv (λ e. refl) h
step-forward ndebug (writes write) c d es p h =
    rw (write-forward c d es write h) (forward_refl c.state)

-- The write side is shut down by `handleWrite` only in a connection that is being closed, and only
-- when its last byte is written.
handle_write-shuts :
    (write : List ℕ → WriteOutcome) (c d : Conn) (es : List Effect)
    → IsValid c
    → handle_write write c ≡ some (d, es)
    → shuts es ≡ true
    → (c.state ≡ disconnecting) × (readable_bytes d.output ≡ 0) × (is_writing d.events ≡ false)
unfolding handle_write after_write drained shutdown_in_loop is_writing disable_writing
handle_write-shuts write c d es v h k = ground arith

-- An orderly close by the peer, an empty read on a live connection: the build that checks its
-- assertions aborts in `handleClose`; the other one goes down with one call of each callback.
pub peer_close :
    (readv : List ℕ → ReadOutcome) (c : Conn)
    → IsValid c
    → c.state ≡ connected
    → length c.input.bytes + extra_size < int_limit
    → ((sizes got : List ℕ) → readv sizes ≡ received got → length got ≤ total sizes)
    → readv (offered c.input) ≡ received []
    → (handle_read false readv c ≡ none)
      × ((d : Conn) × (handle_read true readv c
            ≡ some (d, updated no_event ∷ connection_call ∷ close_call ∷ []))
          × (d.state ≡ disconnected)
          × (content d.output ≡ content c.output))
unfolding handle_read after_read handle_close
peer_close readv c v live room doc eof =
    let (b, e, _, _) = read_fd-Reads readv c.input v.input_valid room doc in
    (
      rw (e, eof, live) refl,
      (
        record c { state = disconnected; events = no_event; input = b },
        rw (e, eof) refl,
        refl,
        refl,
      ),
    )
