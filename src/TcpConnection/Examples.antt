-- ===== src/TcpConnection/Examples.antt =====
-- netlib/net/TcpConnection.cc: the theorems at small inputs.
use netlib.Base.{
  ℕ, ◌≤◌, ◌≡◌, refl, true, false, List, [], ◌∷◌, ◌++◌, none, some, length, ap, arith, if◌then◌else◌,
}
use netlib.Buffer.{Buffer, ReadOutcome, received}
use netlib.Buffer.Inv.{content}
use netlib.Buffer.Slices.{slice}
use netlib.Buffer.ReadFd.{total, bytes_of}
use netlib.Chnnel.{no_event, is_writing, enable_writing}
use netlib.TcpConnection.{
  Conn, connected, disconnected, disconnecting, WriteOutcome, wrote, broken, send_in_loop,
  handle_read, shutdown, updated, connection_call, close_call, Effect,
}
use netlib.TcpConnection.Inv.{IsValid}
use netlib.TcpConnection.Stream.{idle, say, Talks-stream}
use netlib.TcpConnection.Sending.{IsDocumented, accepted, given_up, send_in_loop-Keeps}
use netlib.TcpConnection.Closing.{step, forward, step-forward, peer_close, shut}

abbrev blank : Buffer
blank = record {
  bytes = 0 ∷ 0 ∷ 0 ∷ 0 ∷ 0 ∷ 0 ∷ 0 ∷ 0 ∷ 0 ∷ 0 ∷ [];
  reader_index = 8;
  writer_index = 8;
}

-- Connected, nothing waits.
abbrev live : Conn
live = record {
  state = connected;
  reading = true;
  events = no_event;
  input = blank;
  output = blank;
  hight_water_mark = 64;
  has_hight_water = true;
  has_write_complete = true;
}

-- Closing, and two bytes wait.
abbrev closing : Conn
closing = record live {
  state = disconnecting;
  events = enable_writing no_event;
  output = record blank { writer_index = 10 };
}

live-IsValid : IsValid live
unfolding is_writing content slice
live-IsValid = record { input_valid = omega arith; output_valid = omega arith; armed = λ _. refl }

closing-IsValid : IsValid closing
unfolding is_writing content slice enable_writing
closing-IsValid = record {
  input_valid = omega arith;
  output_valid = omega arith;
  armed = λ _. refl;
}

-- The system takes at most two bytes at a time.
abbrev two_at_most : List ℕ → WriteOutcome
two_at_most [] = wrote 0
two_at_most (x ∷ []) = wrote 1
two_at_most (x ∷ y ∷ s) = wrote 2

count_of : WriteOutcome → ℕ
count_of (wrote n) = n
count_of (broken e) = 0

two-IsDocumented : IsDocumented two_at_most
unfolding count_of
two-IsDocumented [] n h = omega (arith, ap count_of h)
two-IsDocumented (x ∷ []) n h = omega (arith, ap count_of h)
two-IsDocumented (x ∷ y ∷ s) n h = omega (arith, ap count_of h)

abbrev message : List ℕ
message = 5 ∷ 6 ∷ 7 ∷ []

sent_live : (d : Conn) × (es : List Effect) × (send_in_loop two_at_most message live ≡ some (d, es))
sent_live =
    let (d, es, r, _, _, _) =
      send_in_loop-Keeps two_at_most message live live-IsValid two-IsDocumented (λ e. cc)
        (omega arith) in
    (d, es, r)

Talks-stream_example :
    IsValid sent_live.0
    × (content live.output ++ ([] ++ (if given_up two_at_most message live then [] else message))
        ≡ ([] ++ accepted two_at_most message live) ++ content sent_live.0.output)
Talks-stream_example =
    Talks-stream live-IsValid (
      say idle two_at_most message sent_live.1 two-IsDocumented (λ e. cc) (omega arith) sent_live.2)

step-forward_example : forward connected (shutdown true live).0.state ≡ true
step-forward_example =
    step-forward true shut live (shutdown true live).0 (shutdown true live).1 (λ h. tt)
      (unfold step in refl)

-- Both bytes go out at once.
closed_after : Conn
closed_after = record closing { events = no_event; output = blank }

-- The peer has closed.
abbrev end_of_file : List ℕ → ReadOutcome
end_of_file sizes = received []

end_documented : (sizes got : List ℕ) → end_of_file sizes ≡ received got → length got ≤ total sizes
end_documented sizes got h = omega (arith, ap (λ (o : ReadOutcome). length (bytes_of o)) h)

peer_close_example :
    (handle_read false end_of_file live ≡ none)
    × ((d : Conn) × (handle_read true end_of_file live
          ≡ some (d, updated no_event ∷ connection_call ∷ close_call ∷ []))
        × (d.state ≡ disconnected)
        × (content d.output ≡ content live.output))
peer_close_example = peer_close end_of_file live live-IsValid refl (omega arith) end_documented refl
