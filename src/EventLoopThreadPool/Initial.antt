-- ===== src/EventLoopThreadPool/Initial.antt =====
-- netlib/net/EventLoopThreadPool.cc: the callback of `start`.
use netlib.Base.{ℕ, zero, suc, ◌≡◌, refl, true, false, ◌==◌, ==_ne, arith, some, List, ◌++◌}
use netlib.EventLoopThreadPool.{Pool, construct, start_loops, start, start_with, get_all_loops}

-- A new pool for any number of threads: the loops it gives out afterwards are those that `start` called
-- the callback on, and those of its threads, which call it themselves.
start_with-All :
    (base n : ℕ) (start_loop : ℕ → ℕ)
    → (q : Pool) × (here : List ℕ) × (start_with true start_loop
          (record (construct base) { num_threads = n })
        ≡ some (q, here))
      × (get_all_loops q ≡ some (here ++ start_loops start_loop 0 n))
unfolding construct start start_with get_all_loops
start_with-All base zero start_loop = (_, _, refl, refl)
start_with-All base (suc n) start_loop =
    let some_threads : (suc n == 0) ≡ false =
      ==_ne (suc n) 0 (λ (e : suc n ≡ 0). omega (arith, e)) in
    rw some_threads (_, _, refl, refl)
