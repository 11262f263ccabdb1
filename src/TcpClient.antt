-- ===== src/TcpClient.antt =====
-- netlib/net/TcpClient.cc: one connection at a time, made by a Connector and made again when it is
-- closed. A connection is known by the number in its name; `destroys` lists those whose
-- `conncetDestoryed` was queued. The socket and the error of a new attempt are arguments.
pub mod Single
pub mod Once
mod Examples
use netlib.Base.{
  ℕ, ◌+◌, Bool, true, false, ◌&&◌, ◌==◌, if◌then◌else◌, Option, none, some, ◌>>=◌, ◌>>◌, assert,
  List, [], ◌∷◌, ◌++◌,
}
use netlib.Connector.{Errno, Effect, opened, closed, handed_over, retry_after, Connector}
use netlib.Connector.Events.{Event, starts, stops, restarts, happens}

pub record Client : Type 0 where
  pub connector : Connector
  pub connect : Bool
  pub retry : Bool
  pub next_conn_id : ℕ
  pub connection : Option ℕ
  pub destroys : List ℕ

unfoldable pub construct : Connector → Client
construct k = record {
  connector = k;
  connect = true;
  retry = false;
  next_conn_id = 1;
  connection = none;
  destroys = [];
}

unfoldable pub enable_retry : Client → Client
enable_retry c = record c { retry = true }

unfoldable pub new_connection : ℕ → Client → Client
new_connection fd c = record c {
  next_conn_id = c.next_conn_id + 1;
  connection = some c.next_conn_id;
}

-- The connector's calls of its callback.
abbrev pub handed : List Effect → Client → Client
unfolding new_connection
handed [] c = c
handed (handed_over fd ∷ fs) c = handed fs (new_connection fd c)
handed (opened fd ∷ fs) c = handed fs c
handed (closed fd ∷ fs) c = handed fs c
handed (retry_after d ∷ fs) c = handed fs c

unfoldable pub connector_does : Event → Client → Option Client
unfolding handed
connector_does e c =
    happens e c.connector >>= (λ (k, fs). some (handed fs (record c { connector = k })))

-- `connect`, up to the functor that the loop runs.
unfoldable pub connect : Client → Option Client
unfolding connector_does
connect c = connector_does starts (record c { connect = true })

unfoldable pub stop : Client → Option Client
unfolding connector_does
stop c = connector_does stops (record c { connect = false })

-- `disconnect`, with the connection that is shut down.
unfoldable pub disconnect : Client → Client × Option ℕ
disconnect c = (record c { connect = false }, c.connection)

abbrev pub is_connection : ℕ → Option ℕ → Bool
is_connection i none = false
is_connection i (some j) = i == j

-- `removeConnection`, for the connection `i`.
unfoldable pub remove_connection : ℕ → Errno → ℕ → Client → Option Client
unfolding connector_does
remove_connection i e fd c =
    let d = record c { connection = none; destroys = c.destroys ++ i ∷ [] } in
    assert (is_connection i c.connection)
    >> (if c.retry && c.connect then connector_does (restarts e fd) d else some d)

-- What the destructor does to its connection.
pub data Farewell : Type 0 where
  replaces_close forces_close : ℕ → Farewell

abbrev pub alone : Client → Option (Client × List Farewell)
alone c = some (c, [])

abbrev pub leave : Option ℕ → Bool → Client → Option (Client × List Farewell)
unfolding connector_does
leave (some i) true c = some (c, replaces_close i ∷ forces_close i ∷ [])
leave (some i) false c = some (c, replaces_close i ∷ [])
leave none unique c = connector_does stops c >>= alone

-- The destructor; whether the client holds the connection alone is an argument.
unfoldable pub destroy : Bool → Client → Option (Client × List Farewell)
unfolding leave
destroy unique c = leave c.connection unique c

-- `yyj::removeConnection`, the close callback that the destructor leaves behind.
unfoldable pub remove_after : ℕ → Client → Client
remove_after i c = record c { connection = none; destroys = c.destroys ++ i ∷ [] }
