-- ===== src/Connector.antt =====
-- netlib/net/Connector.cc: connecting, and trying again after longer and longer delays.
-- A channel is known by its descriptor; `registered` is set while the poller watches it. What a
-- handler does outside of the object is a list of effects, in order. The socket that
-- `createNoblockingOrDie` returns, the error of `connect`, SO_ERROR and the test for a
-- self-connection are arguments. `none` is a failed assertion or a null pointer.
mod Delay
pub mod Ledger
pub mod Handlers
pub mod Events
mod Examples
use netlib.Base.{
  ℕ, suc, ◌*◌, Bool, true, false, not, if◌then◌else◌, Option, none, some, ◌>>=◌, ◌>>◌, assert, List,
  [], ◌∷◌, min,
}

pub data State : Type 0 where
  disconnected connecting connected : State

pub data Errno : Type 0 where
  ok einprogress eintr eisconn : Errno
  eagain eaddrinuse eaddrnotavail econnrefused enetunreach : Errno
  eacces eperm eafnosupport ealready ebadf efault enotsock other_error : Errno

pub data Effect : Type 0 where
  opened closed handed_over retry_after : ℕ → Effect

pub record Connector : Type 0 where
  pub connect : Bool
  pub state : State
  pub retry_delay_ms : ℕ
  pub chnnel : Option ℕ
  pub registered : Bool

-- `cInitRetryDelayMs`, `cMaxRetryDelayMs`
abbrev pub init_retry_delay_ms : ℕ
init_retry_delay_ms = 500

abbrev pub max_retry_delay_ms : ℕ
max_retry_delay_ms = 30000

abbrev pub Handled : Type 0
Handled = Option (Connector × List Effect)

unfoldable pub construct : Connector
construct = record {
  connect = false;
  state = disconnected;
  retry_delay_ms = init_retry_delay_ms;
  chnnel = none;
  registered = false;
}

unfoldable pub next_delay : ℕ → ℕ
next_delay d = min (d * 2) max_retry_delay_ms

unfoldable pub retry : ℕ → Connector → Connector × List Effect
unfolding next_delay
retry fd c =
    if c.connect
    then (
      record c { state = disconnected; retry_delay_ms = next_delay c.retry_delay_ms },
      closed fd ∷ retry_after c.retry_delay_ms ∷ [],
    )
    else (record c { state = disconnected }, closed fd ∷ [])

abbrev pub is_null : Option ℕ → Bool
is_null none = true
is_null (some fd) = false

abbrev pub is_disconnected : State → Bool
is_disconnected disconnected = true
is_disconnected connecting = false
is_disconnected connected = false

unfoldable pub connecting_on : ℕ → Connector → Handled
connecting_on fd c =
    assert (is_null c.chnnel)
    >> some (record c { state = connecting; chnnel = some fd; registered = true }, [])

abbrev pub with_effect : Effect → Connector × List Effect → Connector × List Effect
with_effect f (c, fs) = (c, f ∷ fs)

-- The cases of the `switch` of `connect`.
pub data Answer : Type 0 where
  proceeds retries gives_up : Answer

abbrev pub answer : Errno → Answer
answer ok = proceeds
answer einprogress = proceeds
answer eintr = proceeds
answer eisconn = proceeds
answer eagain = retries
answer eaddrinuse = retries
answer eaddrnotavail = retries
answer econnrefused = retries
answer enetunreach = retries
answer eacces = gives_up
answer eperm = gives_up
answer eafnosupport = gives_up
answer ealready = gives_up
answer ebadf = gives_up
answer efault = gives_up
answer enotsock = gives_up
answer other_error = gives_up

unfoldable pub connect_result : Answer → ℕ → Connector → Handled
unfolding connecting_on retry
connect_result proceeds fd c = connecting_on fd c
connect_result retries fd c = some (retry fd c)
connect_result gives_up fd c = some (c, closed fd ∷ [])

unfoldable pub do_connect : Errno → ℕ → Connector → Handled
unfolding connect_result
do_connect e fd c = connect_result (answer e) fd c >>= (λ r. some (with_effect (opened fd) r))

unfoldable pub start_in_loop : Errno → ℕ → Connector → Handled
unfolding do_connect
start_in_loop e fd c =
    assert (is_disconnected c.state) >> (if c.connect then do_connect e fd c else some (c, []))

abbrev pub detach : Option ℕ → Connector → Option (Connector × ℕ)
detach none c = none
detach (some fd) c = some (record c { registered = false }, fd)

unfoldable pub remove_and_reset_chnnel : Connector → Option (Connector × ℕ)
remove_and_reset_chnnel c = detach c.chnnel c

unfoldable pub reset_chnnel : Connector → Connector
reset_chnnel c = record c { chnnel = none }

-- `start`, `stop` and `restart`, up to the functor that the loop is given.
unfoldable pub start : Connector → Connector
start c = record c { connect = true }

unfoldable pub stop : Connector → Connector
stop c = record c { connect = false }

unfoldable pub restart : Errno → ℕ → Connector → Handled
unfolding start_in_loop
restart e fd c =
    start_in_loop e fd
      (record c { state = disconnected; retry_delay_ms = init_retry_delay_ms; connect = true })

unfoldable pub remove_and_retry : Connector → Handled
unfolding remove_and_reset_chnnel retry
remove_and_retry c = remove_and_reset_chnnel c >>= (λ (d, fd). some (retry fd d))

abbrev pub stop_in_loop_at : State → Connector → Handled
unfolding remove_and_retry
stop_in_loop_at connecting c = remove_and_retry c
stop_in_loop_at disconnected c = some (c, [])
stop_in_loop_at connected c = some (c, [])

unfoldable pub stop_in_loop : Connector → Handled
unfolding stop_in_loop_at
stop_in_loop c = stop_in_loop_at c.state c

-- The connection stands: the state is set, and a stopped connector closes the socket.
unfoldable pub established : ℕ → Connector → Connector × List Effect
established fd c =
    if c.connect
    then (record c { state = connected }, handed_over fd ∷ [])
    else (record c { state = connected }, closed fd ∷ [])

abbrev pub handle_write_at : State → Bool → Bool → Connector → Handled
unfolding remove_and_reset_chnnel retry established
handle_write_at connecting so_error self_connect c = remove_and_reset_chnnel c >>= (λ (d, fd).
    some (if so_error then retry fd d else if self_connect then retry fd d else established fd d))
handle_write_at disconnected so_error self_connect c = some (record c { state = disconnected }, [])
handle_write_at connected so_error self_connect c = some (record c { state = disconnected }, [])

unfoldable pub handle_write : Bool → Bool → Connector → Handled
unfolding handle_write_at
handle_write so_error self_connect c = handle_write_at c.state so_error self_connect c

unfoldable pub handle_error : Connector → Handled
unfolding stop_in_loop_at
handle_error c = stop_in_loop_at c.state c
