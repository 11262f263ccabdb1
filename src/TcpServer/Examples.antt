-- ===== src/TcpServer/Examples.antt =====
-- netlib/net/TcpServer.cc: two connections, one of which is closed.
use netlib.Base.{ℕ, zero, suc, ◌≤◌, ◌≡◌, refl, true, [], ◌∷◌, arith}
use netlib.EventLoopThreadPool.{Pool}
use netlib.TcpServer.{Life, absent, up, closing, Server}
use netlib.TcpServer.Lives.{Sound, Succeeds, count, listed, removes, happens, happens-Succeeds}

abbrev pool : Pool
pool = record { base_loop = 9; num_threads = 2; next = 0; started = true; loops = 10 ∷ 11 ∷ [] }

abbrev standing : ℕ → Life
standing zero = absent
standing (suc zero) = closing
standing (suc (suc zero)) = up
standing (suc (suc (suc n))) = absent

abbrev two : Server
two = record {
  pool = pool;
  started = true;
  next_conn_id = 3;
  connections = 1 ∷ 2 ∷ [];
  conns = λ i. record { life = standing i; loop = 10 };
}

two_mapped : (i : ℕ) → count i two.connections ≡ listed (two.conns i).life
two_mapped zero = refl
two_mapped (suc zero) = refl
two_mapped (suc (suc zero)) = refl
two_mapped (suc (suc (suc n))) = ground arith

two_fresh : (i : ℕ) → 3 ≤ i → (two.conns i).life ≡ absent
two_fresh zero h = absurd (omega arith)
two_fresh (suc zero) h = absurd (omega arith)
two_fresh (suc (suc zero)) h = absurd (omega arith)
two_fresh (suc (suc (suc n))) h = refl

two-Sound : Sound two
two-Sound = record {
  turn = record { is_started = refl; in_range = λ _. omega arith };
  mapped = two_mapped;
  fresh = two_fresh;
}

happens-Succeeds_example : Succeeds (happens (removes 1) two)
happens-Succeeds_example = happens-Succeeds two two-Sound (removes 1) refl
