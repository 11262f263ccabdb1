-- ===== src/Connector/Handlers.antt =====
-- netlib/net/Connector.cc: no handler loses a descriptor or closes it twice, none fails, and one
-- that was stopped only closes.
use netlib.Base.{
  ℕ, ◌≤◌, ◌≡◌, ◌≢◌, refl, inl, inr, Bool, true, false, Bool-cases, Option, none, some, ◌>>=◌, List,
  [], ◌∷◌, arith,
}
use netlib.Connector.{
  State, disconnected, connecting, connected, Errno, Answer, proceeds, retries, gives_up, answer,
  Effect, opened, closed, retry_after, Connector, Handled, next_delay, retry, connecting_on,
  with_effect, connect_result, do_connect, remove_and_reset_chnnel, remove_and_retry,
  stop_in_loop_at, established, handle_write_at, handle_write,
}
use netlib.Connector.Ledger.{held, Attached, IsValid, Good}

next_delay-bounds : (d : ℕ) → 500 ≤ d → d ≤ 30000 → (500 ≤ next_delay d) × (next_delay d ≤ 30000)
unfolding next_delay
next_delay-bounds d l u = (omega arith, omega arith)

module _ (c : Connector) (v : IsValid c) where
  module _ (fd : ℕ) (state : c.state ≡ connecting) (chnnel : c.chnnel ≡ some fd) where
    abbrev detached : Connector
    detached = record c { registered = false }

    retry-Good : Good c (retry fd detached)
    unfolding retry
    retry-Good = elim (Bool-cases c.connect) [
      | inl on ↦
          let (l, u) = next_delay-bounds c.retry_delay_ms v.at_least v.at_most in
          rw on (record {
            valid = record { attached = refl; at_least = l; at_most = u };
            balanced = λ g. rw (state, chnnel) (omega arith);
            calm = λ h. absurd (cc h);
            reported = inl refl;
          })
      | inr off ↦ rw off (record {
        valid = record { attached = refl; at_least = v.at_least; at_most = v.at_most };
        balanced = λ g. rw (state, chnnel) (omega arith);
        calm = λ h. (refl, tt);
        reported = inl refl;
      })
    ]

    established-Good : Good c (established fd detached)
    unfolding established
    established-Good = elim (Bool-cases c.connect) [
      | inl on ↦ rw on (record {
        valid = record { attached = refl; at_least = v.at_least; at_most = v.at_most };
        balanced = λ g. rw (state, chnnel) (omega arith);
        calm = λ h. absurd (cc h);
        reported = inr (refl, refl);
      })
      | inr off ↦ rw off (record {
        valid = record { attached = refl; at_least = v.at_least; at_most = v.at_most };
        balanced = λ g. rw (state, chnnel) (omega arith);
        calm = λ h. (refl, tt);
        reported = inl refl;
      })
    ]

  Attached-channel : (o : Option ℕ) (r : Bool) → Attached connecting o r → (fd : ℕ) × (o ≡ some fd)
  Attached-channel none r h = absurd (cc h)
  Attached-channel (some fd) r h = (fd, refl)

  channel_of : c.state ≡ connecting → (fd : ℕ) × (c.chnnel ≡ some fd)
  channel_of s = Attached-channel c.chnnel c.registered (rw s at v.attached)

  abbrev pub Total : Handled → Type 0
  Total h = (r : Connector × List Effect) × (h ≡ some r) × Good c r

  pub nothing-Good : Good c (c, [])
  nothing-Good = record {
    valid = v;
    balanced = λ g. omega arith;
    calm = λ h. tt;
    reported = inl refl;
  }

  pub forgets_at :
      (s : State)
      → c.state ≡ s
      → s ≢ connecting
      → (c.registered ≡ false) × ((fd : ℕ) → held c fd ≡ 0)
  forgets_at connecting e n = absurd (n refl)
  forgets_at disconnected e n = (rw e at v.attached, λ fd. rw e refl)
  forgets_at connected e n = (rw e at v.attached, λ fd. rw e refl)

  forgets-Good :
      (s : State) → c.state ≡ s → s ≢ connecting → Good c (record c { state = disconnected }, [])
  forgets-Good s e n =
      let (idle, none_held) = forgets_at s e n in
      record {
        valid = record { attached = idle; at_least = v.at_least; at_most = v.at_most };
        balanced = λ g. omega (arith, none_held g);
        calm = λ h. tt;
        reported = inl refl;
      }

  remove_and_retry-Total : c.state ≡ connecting → Total (remove_and_retry c)
  unfolding remove_and_retry remove_and_reset_chnnel
  remove_and_retry-Total s =
      let (fd, o) = channel_of s in
      (retry fd (record c { registered = false }), rw o refl, retry-Good fd s o)

  handle_write_connecting :
      (so_error self_connect : Bool)
      → c.state ≡ connecting
      → Total (handle_write so_error self_connect c)
  unfolding handle_write handle_write_at remove_and_reset_chnnel
  handle_write_connecting true self_connect s =
      let (fd, o) = channel_of s in
      (retry fd (record c { registered = false }), rw (s, o) refl, retry-Good fd s o)
  handle_write_connecting false true s =
      let (fd, o) = channel_of s in
      (retry fd (record c { registered = false }), rw (s, o) refl, retry-Good fd s o)
  handle_write_connecting false false s =
      let (fd, o) = channel_of s in
      (established fd (record c { registered = false }), rw (s, o) refl, established-Good fd s o)

  pub stop_in_loop_by : (s : State) → c.state ≡ s → Total (stop_in_loop_at s c)
  unfolding stop_in_loop_at
  stop_in_loop_by connecting e = remove_and_retry-Total e
  stop_in_loop_by disconnected e = ((c, []), refl, nothing-Good)
  stop_in_loop_by connected e = ((c, []), refl, nothing-Good)

  pub handle_write_by :
      (so_error self_connect : Bool) (s : State)
      → c.state ≡ s
      → Total (handle_write so_error self_connect c)
  unfolding handle_write handle_write_at
  handle_write_by so_error self_connect connecting e =
      handle_write_connecting so_error self_connect e
  handle_write_by so_error self_connect disconnected e =
      ((record c { state = disconnected }, []), rw e refl, forgets-Good disconnected e (λ h. cc))
  handle_write_by so_error self_connect connected e =
      ((record c { state = disconnected }, []), rw e refl, forgets-Good connected e (λ h. cc))

  -- A fresh socket, in a connector that is disconnected, without a channel, and to connect.
  module _ (fd : ℕ) (state : c.state ≡ disconnected) (chnnel : c.chnnel ≡ none)
      (on : c.connect ≡ true) where
    abbrev fresh : Handled → Handled
    fresh h = h >>= (λ r. some (with_effect (opened fd) r))

    connects : Total (fresh (connecting_on fd c))
    unfolding connecting_on
    connects = (
      (record c { state = connecting; chnnel = some fd; registered = true }, opened fd ∷ []),
      rw chnnel refl,
      record {
        valid = record { attached = refl; at_least = v.at_least; at_most = v.at_most };
        balanced = λ g. rw state (omega arith);
        calm = λ h. absurd (cc (on, h));
        reported = inl refl;
      },
    )

    retried : Total (fresh (some (retry fd c)))
    unfolding retry
    retried =
        let (l, u) = next_delay-bounds c.retry_delay_ms v.at_least v.at_most in
        (
          (
            record c { state = disconnected; retry_delay_ms = next_delay c.retry_delay_ms },
            opened fd ∷ closed fd ∷ retry_after c.retry_delay_ms ∷ [],
          ),
          rw on refl,
          record {
            valid = record { attached = rw state at v.attached; at_least = l; at_most = u };
            balanced = λ g. rw state (omega arith);
            calm = λ h. absurd (cc (on, h));
            reported = inl refl;
          },
        )

    gave_up : Total (fresh (some (c, closed fd ∷ [])))
    gave_up = (
      (c, opened fd ∷ closed fd ∷ []),
      refl,
      record {
        valid = v;
        balanced = λ g. rw state (omega arith);
        calm = λ h. absurd (cc (on, h));
        reported = inl refl;
      },
    )

    result-Total : (a : Answer) → Total (fresh (connect_result a fd c))
    unfolding connect_result
    result-Total proceeds = connects
    result-Total retries = retried
    result-Total gives_up = gave_up

    pub do_connect-Total : (e : Errno) → Total (do_connect e fd c)
    unfolding do_connect
    do_connect-Total e = result-Total (answer e)
