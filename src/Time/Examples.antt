-- ===== src/Time/Examples.antt =====
-- netlib/base/Time.cc: the text of a time.
