-- ===== src/CountDownLatch/Examples.antt =====
-- netlib/base/CountDownLatch.cc: one thread waits, and the count comes down.
use netlib.Base.{refl, pos}
use netlib.CountDownLatch.{Latch, construct, wait, count_down, Reach, made, calls, counts}
use netlib.CountDownLatch.Released.{IsReleased, Reach-IsReleased}

abbrev latch : Latch
latch = count_down (wait 3 (construct (pos 1)))

latch-Reach : Reach (pos 1) 1 latch
unfolding construct
latch-Reach = counts (calls 3 made refl)

Reach-IsReleased_example : IsReleased 1 1 latch
Reach-IsReleased_example = Reach-IsReleased latch-Reach
