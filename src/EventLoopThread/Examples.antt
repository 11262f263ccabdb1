-- ===== src/EventLoopThread/Examples.antt =====
-- netlib/net/EventLoopThread.cc: the starter sleeps, and the thread publishes its loop; the owner
-- quits it and joins the thread.
use netlib.EventLoopThread.{
  LoopThread, construct, begin, test_loop, publish, finish, destroy, finish_destroy,
}

abbrev started : LoopThread
started = test_loop (publish 40 (test_loop (begin construct)))

abbrev thread : LoopThread
thread = finish_destroy (finish (destroy started))
