-- ===== src/TcpClient/Examples.antt =====
-- netlib/net/TcpClient.cc: a connection that is closed and made again.
use netlib.Base.{refl, true, false, some, none, [], arith}
use netlib.Connector.{connected, einprogress}
use netlib.TcpClient.{Client}
use netlib.TcpClient.Once.{removes, call, call-Succeeds}
use netlib.TcpClient.Single.{Sound, Succeeds}

abbrev up : Client
up = record {
  connector = record {
    connect = true;
    state = connected;
    retry_delay_ms = 500;
    chnnel = none;
    registered = false;
  };
  connect = true;
  retry = true;
  next_conn_id = 2;
  connection = some 1;
  destroys = [];
}

up-Sound : Sound up
up-Sound = record {
  valid = record { attached = refl; at_least = omega arith; at_most = omega arith };
  linked = λ _. refl;
  numbered = omega arith;
  once = λ i. ground arith;
}

call-Succeeds_example : Succeeds (call (removes 1 einprogress 9) up)
call-Succeeds_example = call-Succeeds (removes 1 einprogress 9) up up-Sound (refl, refl)
