-- ===== src/EventLoopThreadPool/Examples.antt =====
-- netlib/net/EventLoopThreadPool.cc: a pool of three threads.
use netlib.Base.{◌≡◌, ◌+◌, refl, true, false, some, [], ◌∷◌, arith}
use netlib.EventLoopThreadPool.{Pool, start}
use netlib.EventLoopThreadPool.Turns.{turns, turns_lem}

abbrev three : Pool
three = record {
  base_loop = 9;
  num_threads = 3;
  next = 0;
  started = true;
  loops = 10 ∷ 11 ∷ 12 ∷ [];
}

pool_starts : start (λ i. 10 + i) (record three { started = false; loops = [] }) ≡ some three
unfolding start
pool_starts = refl

turns_lem_example : turns 3 three ≡ some (three, 10 ∷ 11 ∷ 12 ∷ [])
turns_lem_example = turns_lem three refl refl (omega arith)
