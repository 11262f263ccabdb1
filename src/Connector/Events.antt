-- ===== src/Connector/Events.antt =====
-- netlib/net/Connector.cc: whatever happens to a connector, in any order.
use netlib.Base.{
  ℕ, ◌≡◌, ◌≢◌, refl, ap, ◌∙◌, inl, inr, Bool, true, false, if◌then◌else◌, Bool-cases, none, some,
  assert, ◌>>◌, [], arith,
}
use netlib.Connector.{
  State, disconnected, connecting, connected, Errno, Connector, Handled, is_disconnected,
  do_connect, start_in_loop, reset_chnnel, start, stop, restart, stop_in_loop, handle_write,
  handle_error,
}
use netlib.Connector.Handlers.{
  Total, nothing-Good, forgets_at, stop_in_loop_by, handle_write_by, do_connect-Total,
}
use netlib.Connector.Ledger.{IsValid, Good}

-- A call or an event, and what the system answers: the socket created and the error of `connect`
-- where one is made, SO_ERROR and the test for a self-connection where one has completed.
-- `starts` and `stops` set the flag; `starts_in_loop` is also what the retry timer runs.
pub data Event : Type 0 where
  starts stops stops_in_loop handles_error resets : Event
  starts_in_loop restarts : Errno → ℕ → Event
  handles_write : Bool → Bool → Event

unfoldable pub happens : Event → Connector → Handled
unfolding start_in_loop start restart stop_in_loop stop handle_error reset_chnnel handle_write
happens starts c = some (start c, [])
happens stops c = some (stop c, [])
happens stops_in_loop c = stop_in_loop c
happens handles_error c = handle_error c
happens resets c = some (reset_chnnel c, [])
happens (starts_in_loop e fd) c = start_in_loop e fd c
happens (restarts e fd) c = restart e fd c
happens (handles_write s t) c = handle_write s t c

-- What the assertions take for granted of their callers: an attempt is begun when none is under
-- way and the channel of the last is reset, and a channel is reset after its attempt.
abbrev pub Ready : Event → Connector → Type 0
Ready starts c = Unit {0}
Ready stops c = Unit {0}
Ready stops_in_loop c = Unit {0}
Ready handles_error c = Unit {0}
Ready resets c = c.state ≢ connecting
Ready (starts_in_loop e fd) c = (c.state ≡ disconnected) × (c.chnnel ≡ none)
Ready (restarts e fd) c = (c.state ≢ connecting) × (c.chnnel ≡ none)
Ready (handles_write s t) c = Unit {0}

module _ (c : Connector) (v : IsValid c) where
  flag-Good : (b : Bool) → Good c (record c { connect = b }, [])
  flag-Good b = record {
    valid = record { attached = v.attached; at_least = v.at_least; at_most = v.at_most };
    balanced = λ g. omega arith;
    calm = λ h. tt;
    reported = inl refl;
  }

  start_in_loop_lem :
      (e : Errno) (fd : ℕ) (b : Bool)
      → c.state ≡ disconnected
      → c.connect ≡ b
      → start_in_loop e fd c ≡ (if b then do_connect e fd c else some (c, []))
  unfolding start_in_loop
  start_in_loop_lem e fd b s o =
      ap
        (λ (t : State).
          assert (is_disconnected t) >> (if c.connect then do_connect e fd c else some (c, [])))
        s
      ∙ ap (λ (a : Bool). if a then do_connect e fd c else some (c, [])) o

  start_in_loop-Total :
      (e : Errno) (fd : ℕ)
      → c.state ≡ disconnected
      → c.chnnel ≡ none
      → Total c v (start_in_loop e fd c)
  unfolding start_in_loop
  start_in_loop-Total e fd s o = elim (Bool-cases c.connect) [
    | inl on ↦
        let (r, h, g) = do_connect-Total c v fd s o on e in
        (r, start_in_loop_lem e fd true s on ∙ h, g)
    | inr off ↦ ((c, []), start_in_loop_lem e fd false s off, nothing-Good c v)
  ]

  reset_at : (s : State) → c.state ≡ s → s ≢ connecting → Good c (record c { chnnel = none }, [])
  reset_at connecting e n = absurd (n refl)
  reset_at disconnected e n = record {
    valid = record {
      attached = rw e (rw e at v.attached);
      at_least = v.at_least;
      at_most = v.at_most;
    };
    balanced = λ g. rw e (omega arith);
    calm = λ h. tt;
    reported = inl refl;
  }
  reset_at connected e n = record {
    valid = record {
      attached = rw e (rw e at v.attached);
      at_least = v.at_least;
      at_most = v.at_most;
    };
    balanced = λ g. rw e (omega arith);
    calm = λ h. tt;
    reported = inl refl;
  }

abbrev begun : Connector → Connector
begun c = record c { state = disconnected; retry_delay_ms = 500; connect = true }

begun-IsValid : (c : Connector) → c.registered ≡ false → IsValid (begun c)
begun-IsValid c idle = record { attached = idle; at_least = omega arith; at_most = omega arith }

module _ (c : Connector) (v : IsValid c) where
  restart-Total :
      (e : Errno) (fd : ℕ) → c.state ≢ connecting → c.chnnel ≡ none → Total c v (restart e fd c)
  unfolding restart
  restart-Total e fd s o =
      let (idle, none_held) = forgets_at c v c.state refl s in
      let (r, h, g) = start_in_loop-Total (begun c) (begun-IsValid c idle) e fd refl o in
      (
        r,
        h,
        record {
          valid = g.valid;
          balanced = λ x. omega (arith, none_held x, g.balanced x);
          calm = g.calm;
          reported = g.reported;
        },
      )

  -- Whatever is called or happens where the assertions of its callers hold, in a valid connector:
  -- no handler fails; the connector stays valid, with a channel that the poller watches exactly
  -- while an attempt is under way and a delay from 500 to 30000 ms; every socket created is held by
  -- the attempt under way, or has been closed or given to the user, once; and when the connector is
  -- stopped it only closes: no socket is created, no retry set, no connection reported. At most one
  -- connection is reported at a time, and then the connector is connected.
  pub happens-Good : (e : Event) → Ready e c → Total c v (happens e c)
  unfolding happens start stop stop_in_loop handle_error reset_chnnel
  happens-Good starts h = (_, refl, flag-Good c v true)
  happens-Good stops h = (_, refl, flag-Good c v false)
  happens-Good stops_in_loop h = stop_in_loop_by c v c.state refl
  happens-Good handles_error h = stop_in_loop_by c v c.state refl
  happens-Good resets h = (_, refl, reset_at c v c.state refl h)
  happens-Good (starts_in_loop e fd) h = start_in_loop-Total c v e fd h.0 h.1
  happens-Good (restarts e fd) h = restart-Total e fd h.0 h.1
  happens-Good (handles_write s t) h = handle_write_by c v s t c.state refl
