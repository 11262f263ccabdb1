-- ===== src/TcpConnection.antt =====
-- netlib/net/TcpConnection.h and TcpConnection.cc: one connection, as a state machine over its two
-- buffers and its channel. A handler returns the new connection and its effects in order; `none`
-- is a failed assertion. With `ndebug` the assertions on the state are compiled out, as in the
-- Release build that CMakeLists.txt selects. The handlers run in the loop's thread, which
-- `assertInLoopThread` checks; a call from another thread has the effect `queued`.
pub mod Inv
pub mod Sending
pub mod Stream
pub mod Closing
pub mod Examples
use netlib.Base.{
  ℕ, ◌+◌, ◌*◌, Bool, true, false, not, ◌&&◌, ◌||◌, List, [], ◌∷◌, ◌++◌, Option, none, some, length,
  take, drop, ltb, leb, ◌==◌, if◌then◌else◌, ◌>>=◌, ◌>>◌, assert, sub_size, add_size,
}
use netlib.Buffer.{
  Buffer, append, retrieve, retrieve_all, readable_bytes, to_string, read_fd, ReadOutcome, received,
  failed,
}
use netlib.Chnnel.{
  Mask, no_event, is_none_event, is_writing, is_reading, enable_reading, disable_reading,
  enable_writing, disable_writing,
}

pub data State : Type 0 where
  disconnected connecting connected disconnecting : State

pub State-discrete : Discrete State
State-discrete = hlevel

pub data Functor : Type 0 where
  write_complete : Functor
  high_water : ℕ → Functor
  send_in_loops : List ℕ → Functor
  shutdown_in_loops : Functor
  force_close_in_loops : Functor
  force_close_later : Functor
  start_read_in_loops : Functor
  stop_read_in_loops : Functor

pub data Effect : Type 0 where
  updated : Mask → Effect
  removed : Effect
  shut_write : Effect
  connection_call message_call close_call : Effect
  queued : Functor → Effect

pub record Conn : Type 0 where
  pub state : State
  pub reading : Bool
  pub events : Mask
  pub input : Buffer
  pub output : Buffer
  pub hight_water_mark : ℕ
  pub has_hight_water : Bool
  pub has_write_complete : Bool

-- The outcome of `::write`.
pub data Errno : Type 0 where
  would_block pipe conn_reset : Errno
  other : ℕ → Errno

pub data WriteOutcome : Type 0 where
  wrote : ℕ → WriteOutcome
  broken : Errno → WriteOutcome

abbrev pub is : State → State → Bool
is disconnected disconnected = true
is connecting connecting = true
is connected connected = true
is disconnecting disconnecting = true
is _ _ = false

abbrev pub when : Bool → Effect → List Effect
when b e = if b then e ∷ [] else []

abbrev pub Handled : Type 0
Handled = Option (Conn × List Effect)

abbrev pub set_events : Conn → Mask → Conn
set_events c m = record c { events = m }

pub construct : Buffer → Buffer → Conn
construct input output = record {
  state = connecting;
  reading = true;
  events = no_event;
  input = input;
  output = output;
  hight_water_mark = 64 * 1024 * 1024;
  has_hight_water = false;
  has_write_complete = false;
}

-- `sendInLoop` begins with a direct `write` if nothing is registered and nothing waits.
abbrev pub direct : Conn → Bool
direct c = not (is_writing c.events) && (readable_bytes c.output == 0)

-- What the direct write leaves: how many bytes went out, how many remain, whether the connection
-- is broken, and the callback that is due.
pub record Attempt : Type 0 where
  pub nwrote : ℕ
  pub remaining : ℕ
  pub fault_error : Bool
  pub due : List Effect

abbrev pub breaks : Errno → Bool
breaks would_block = false
breaks pipe = true
breaks conn_reset = true
breaks (other n) = false

pub attempt : Conn → ℕ → WriteOutcome → Attempt
attempt c size (wrote n) =
    let remaining = sub_size size n in
    record {
      nwrote = n;
      remaining = remaining;
      fault_error = false;
      due = when (remaining == 0 && c.has_write_complete) (queued write_complete);
    }
attempt c size (broken e) = record {
  nwrote = 0;
  remaining = size;
  fault_error = breaks e;
  due = [];
}

abbrev pub no_attempt : ℕ → Attempt
no_attempt size = record { nwrote = 0; remaining = size; fault_error = false; due = [] }

-- `if(!_chnnel->isWriting()) _chnnel->enableWriting();`
pub ensure_writing : Conn → Conn × List Effect
ensure_writing c =
    let m = enable_writing c.events in
    if is_writing c.events then (c, []) else (set_events c m, updated m ∷ [])

-- The callback that is due when the waiting bytes reach the mark from below.
pub hight_water_call : Conn → ℕ → List Effect
hight_water_call c remaining =
    let old = readable_bytes c.output in
    let sum = add_size old remaining in
    when (leb c.hight_water_mark sum && (ltb old c.hight_water_mark && c.has_hight_water))
      (queued (high_water sum))

-- The rest of the message goes to the output buffer.
pub enqueue : Conn → List ℕ → List Effect → Handled
unfolding ensure_writing
enqueue c rest due = do
  out ← append rest c.output
  some (
      let (d, effects) = ensure_writing (record c { output = out }) in
      (d, due ++ (hight_water_call c (length rest) ++ effects)))

pub after_attempt : Conn → List ℕ → Attempt → Handled
unfolding enqueue
after_attempt c message a = do
  assert (leb a.remaining (length message))
  if not a.fault_error && ltb 0 a.remaining
      then enqueue c (take a.remaining (drop a.nwrote message)) a.due
      else some (c, a.due)

pub send_in_loop : (List ℕ → WriteOutcome) → List ℕ → Conn → Handled
unfolding after_attempt attempt
send_in_loop write message c =
    if is c.state disconnected
    then some (c, [])
    else after_attempt c message (
        if direct c
        then attempt c (length message) (write message)
        else no_attempt (length message))

pub send : (List ℕ → WriteOutcome) → Bool → List ℕ → Conn → Handled
send write in_loop message c =
    if is c.state connected
    then (if in_loop
        then send_in_loop write message c
        else some (c, queued (send_in_loops message) ∷ []))
    else some (c, [])

-- `send(Buffer*)`: the message buffer is emptied if the message is taken.
pub send_buffer :
    (List ℕ → WriteOutcome) → Bool → Buffer → Conn → Option ((Conn × List Effect) × Buffer)
send_buffer write in_loop message c =
    if is c.state connected
    then (do done ← send write in_loop (to_string message) c; some (done, retrieve_all message))
    else some ((c, []), message)

pub shutdown_in_loop : Conn → Conn × List Effect
shutdown_in_loop c = (c, when (not (is_writing c.events)) shut_write)

pub shutdown : Bool → Conn → Conn × List Effect
unfolding shutdown_in_loop
shutdown in_loop c =
    let d = record c { state = disconnecting } in
    if is c.state connected
    then (if in_loop then shutdown_in_loop d else (d, queued shutdown_in_loops ∷ []))
    else (c, [])

abbrev pub closable : State → Bool
closable s = is s connected || is s disconnecting

pub force_close : Conn → Conn × List Effect
force_close c =
    if closable c.state
    then (record c { state = disconnecting }, queued force_close_in_loops ∷ [])
    else (c, [])

pub force_close_with_delay : Conn → Conn × List Effect
force_close_with_delay c =
    if closable c.state
    then (record c { state = disconnecting }, queued force_close_later ∷ [])
    else (c, [])

abbrev pub check : Bool → Bool → Option (Unit {0})
check ndebug b = assert (ndebug || b)

pub handle_close : Bool → Conn → Handled
handle_close ndebug c = do
  check ndebug (is c.state disconnecting || is c.state disconnected)
  some (
    record c { state = disconnected; events = no_event },
    updated no_event ∷ connection_call ∷ close_call ∷ [],
  )

pub force_close_in_loop : Bool → Conn → Handled
unfolding handle_close
force_close_in_loop ndebug c = if closable c.state then handle_close ndebug c else some (c, [])

pub start_read_in_loop : Conn → Conn × List Effect
start_read_in_loop c =
    let m = enable_reading c.events in
    if not c.reading || not (is_reading c.events)
    then (record c { events = m; reading = true }, updated m ∷ [])
    else (c, [])

pub stop_read_in_loop : Conn → Conn × List Effect
stop_read_in_loop c =
    let m = disable_reading c.events in
    if c.reading || is_reading c.events
    then (record c { events = m; reading = false }, updated m ∷ [])
    else (c, [])

pub connect_established : Bool → Conn → Handled
connect_established ndebug c =
    let m = enable_reading c.events in
    do
      check ndebug (is c.state connecting)
      some (record c { state = connected; events = m }, updated m ∷ connection_call ∷ [])

-- `_chnnel->remove()` asserts that the channel watches nothing.
pub remove_chnnel : Bool → Conn → List Effect → Handled
remove_chnnel ndebug c effects = do
  check ndebug (is_none_event c.events)
  some (c, effects ++ removed ∷ [])

pub connect_destroyed : Bool → Conn → Handled
unfolding remove_chnnel
connect_destroyed ndebug c =
    if is c.state connected
    then remove_chnnel ndebug (record c { state = disconnected; events = no_event })
        (updated no_event ∷ connection_call ∷ [])
    else remove_chnnel ndebug c []

-- `handleRead` on what `readFd` made of the input buffer. The message callback may then take from
-- that buffer: such calls are those of Buffer.
pub after_read : Bool → Conn → ReadOutcome → Handled
unfolding handle_close
after_read ndebug c (failed errno) = some (c, [])
after_read ndebug c (received []) = handle_close ndebug c
after_read ndebug c (received (x ∷ xs)) = some (c, message_call ∷ [])

pub handle_read : Bool → (List ℕ → ReadOutcome) → Conn → Handled
unfolding after_read
handle_read ndebug readv c = do
  (outcome, buffer) ← read_fd readv c.input
  after_read ndebug (record c { input = buffer }) outcome

-- All that waited is written: nothing is left to watch for, and a pending shutdown goes on.
pub drained : Conn → Conn × List Effect
unfolding shutdown_in_loop
drained c =
    let m = disable_writing c.events in
    let d = set_events c m in
    (
      d,
      updated m
          ∷ (when c.has_write_complete (queued write_complete)
              ++ (if is c.state disconnecting then (shutdown_in_loop d).1 else [])),
    )

pub after_write : Conn → WriteOutcome → Handled
unfolding drained
after_write c (wrote n) =
    if ltb 0 n
    then (do
      out ← retrieve n c.output
      some (
          let d = record c { output = out } in
          if readable_bytes out == 0 then drained d else (d, [])))
    else some (c, [])
after_write c (broken e) = some (c, [])

pub handle_write : (List ℕ → WriteOutcome) → Conn → Handled
unfolding after_write
handle_write write c =
    if is_writing c.events then after_write c (write (to_string c.output)) else some (c, [])
