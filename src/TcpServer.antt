-- ===== src/TcpServer.antt =====
-- netlib/net/TcpServer.cc: the map of connections, each of which lives in a loop of the pool. A
-- connection is known by the number in its name, which the rest of the name, being one for all,
-- makes the key of the map. `conns` follows the functors that the loops still hold for a connection.
-- Callbacks and addresses are not modelled.
mod Lives
mod Destroyed
mod Examples
use netlib.Base.{
  ℕ, ◌+◌, Bool, true, false, not, ◌==◌, if◌then◌else◌, Option, none, some, ◌>>=◌, ◌>>◌, assert,
  List, [], ◌∷◌, ◌++◌, map, set_at,
}
use netlib.EventLoopThreadPool.{Pool, start as start_pool, get_next_loop}

-- Where a connection stands: not made; made, with `connectEstablished` in its loop; up; closed, with
-- `removeConnectionInLoop` in the server's loop; removed, with `conncetDestoryed` in its own; gone.
pub data Life : Type 0 where
  absent created up closing leaving gone : Life

pub record Conn : Type 0 where
  pub life : Life
  pub loop : ℕ

pub record Server : Type 0 where
  pub pool : Pool
  pub started : Bool
  pub next_conn_id : ℕ
  pub connections : List ℕ
  pub conns : ℕ → Conn

unfoldable pub construct : Pool → Server
construct p = record {
  pool = p;
  started = false;
  next_conn_id = 1;
  connections = [];
  conns = λ _. record { life = absent; loop = 0 };
}

-- `start`, up to the functor that listens.
unfoldable pub start : (ℕ → ℕ) → Server → Option Server
start start_loop s =
    if s.started
    then some s
    else start_pool start_loop s.pool >>= (λ p. some (record s { started = true; pool = p }))

abbrev pub set_life : ℕ → Life → Server → Server
set_life i l s = record s { conns = set_at i (record (s.conns i) { life = l }) s.conns }

-- `std::map::operator[]` with a new key, and `erase`, with how many it took out.
abbrev pub put : ℕ → List ℕ → List ℕ
put i is = is ++ i ∷ []

abbrev pub erase : ℕ → List ℕ → ℕ × List ℕ
erase i [] = (0, [])
erase i (j ∷ js) = let (n, rest) = erase i js in if j == i then (n + 1, rest) else (n, j ∷ rest)

unfoldable pub new_connection : Server → Option Server
new_connection s = get_next_loop s.pool >>= (λ (p, loop). some (record s {
  pool = p;
  next_conn_id = s.next_conn_id + 1;
  connections = put s.next_conn_id s.connections;
  conns = set_at s.next_conn_id (record { life = created; loop = loop }) s.conns;
}))

-- The close callback of a connection: the functor goes to the server's loop.
unfoldable pub remove_connection : ℕ → Server → Server
remove_connection i s = set_life i closing s

unfoldable pub remove_connection_in_loop : ℕ → Server → Option Server
remove_connection_in_loop i s =
    let (n, rest) = erase i s.connections in
    assert (n == 1) >> some (set_life i leaving (record s { connections = rest }))

-- The destructor: the functors with `conncetDestoryed`, each with the loop that gets it.
unfoldable pub destroy : Server → List (ℕ × ℕ)
destroy s = map (λ i. ((s.conns i).loop, i)) s.connections
