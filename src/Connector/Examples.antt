-- ===== src/Connector/Examples.antt =====
-- netlib/net/Connector.cc: runs.
use netlib.Base.{refl, true, false, some, arith}
use netlib.Connector.{connecting, Connector}
use netlib.Connector.Handlers.{Total}
use netlib.Connector.Ledger.{IsValid}
use netlib.Connector.Events.{handles_write, happens, happens-Good}

-- An attempt on descriptor 7 is under way, after three retries.
abbrev under_way : Connector
under_way = record {
  connect = true;
  state = connecting;
  retry_delay_ms = 4000;
  chnnel = some 7;
  registered = true;
}

under_way-IsValid : IsValid under_way
under_way-IsValid = record { attached = refl; at_least = omega arith; at_most = omega arith }

-- The attempt has failed: SO_ERROR is set.
happens-Good_example :
    Total under_way under_way-IsValid (happens (handles_write true false) under_way)
happens-Good_example = happens-Good under_way under_way-IsValid (handles_write true false) tt
