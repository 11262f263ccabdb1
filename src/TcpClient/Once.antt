-- ===== src/TcpClient/Once.antt =====
-- netlib/net/TcpClient.cc: a client has one connection at a time, and each is destroyed once.
use netlib.Base.{
  ℕ, ◌+◌, ◌≡◌, refl, ap, subst, inl, inr, Bool, true, false, ◌&&◌, ==_refl, Bool-cases,
  Option-cases, Option, none, some, List, [], ◌∷◌, ◌++◌, ◌>>=◌, arith,
}
use netlib.Connector.{
  State, connected, Errno, Connector, start as connector_start, stop as connector_stop,
  reset_chnnel, stop_in_loop,
}
use netlib.Connector.Ledger.{IsValid, Attached}
use netlib.Connector.Events.{
  Event, starts, stops, restarts, stops_in_loop, handles_error, resets, starts_in_loop,
  handles_write, happens, happens-Good, Ready,
}
use netlib.TcpClient.{
  Client, handed, connector_does, connect, stop, disconnect, remove_connection, Farewell, alone,
  leave, destroy, remove_after,
}
use netlib.TcpClient.Single.{one, count, born, Sound, Succeeds, count-snoc, alone_does}

-- What reaches a connector beside the client's own calls: the events of its channel while the
-- poller watches it. Only the client restarts it.
abbrev pub Available : Event → Connector → Type 0
Available (restarts e fd) k = true ≡ false
Available (handles_write a b) k = k.registered ≡ true
Available handles_error k = k.registered ≡ true
Available starts k = Unit {0}
Available stops k = Unit {0}
Available stops_in_loop k = Unit {0}
Available resets k = Unit {0}
Available (starts_in_loop e fd) k = Unit {0}

unregistered : (t : State) (o : Option ℕ) (r : Bool) → t ≡ connected → Attached t o r → r ≡ false
unregistered t o r e h = rw e at h

module _ (c : Client) (s : Sound c) (i : ℕ) (has : c.connection ≡ some i) where
  is_connected : c.connector.state ≡ connected
  is_connected = s.linked (λ n. cc (n, has))

  idle : c.connector.registered ≡ false
  idle =
      unregistered c.connector.state c.connector.chnnel c.connector.registered is_connected
        s.valid.attached

  kept :
      (e : Event) (k : Connector)
      → Ready e c.connector
      → happens e c.connector ≡ some (k, [])
      → k.state ≡ connected
      → Succeeds (connector_does e c)
  unfolding connector_does handed
  kept e k ready h u =
      let (r, done, g) = happens-Good c.connector s.valid e ready in
      let same : r.0 ≡ k = cc (done, h) in
      (
        record c { connector = k },
        rw h refl,
        record {
          valid = subst IsValid same g.valid;
          linked = λ _. u;
          numbered = s.numbered;
          once = s.once;
        },
      )

  -- With a connection the connector rests.
  busy_does :
      (e : Event) → Ready e c.connector → Available e c.connector → Succeeds (connector_does e c)
  unfolding happens connector_start connector_stop reset_chnnel stop_in_loop
  busy_does starts ready a = kept starts _ ready refl is_connected
  busy_does stops ready a = kept stops _ ready refl is_connected
  busy_does resets ready a = kept resets _ ready refl is_connected
  busy_does stops_in_loop ready a =
      kept stops_in_loop c.connector ready (rw is_connected refl) is_connected
  busy_does handles_error ready a = absurd (cc (a, idle))
  busy_does (handles_write t u) ready a = absurd (cc (a, idle))
  busy_does (restarts e fd) ready a = absurd (cc a)
  busy_does (starts_in_loop e fd) ready a = absurd (cc (ready.0, is_connected))

-- Calls and events of a client.
pub data Call : Type 0 where
  connects stops_all disconnects : Call
  connector : Event → Call
  removes : ℕ → Errno → ℕ → Call
  dies : Bool → Call
  removes_after : ℕ → Call

abbrev kept_client : Client × List Farewell → Option Client
kept_client r = some r.0

unfoldable pub call : Call → Client → Option Client
unfolding connect stop disconnect connector_does remove_connection destroy remove_after
call connects c = connect c
call stops_all c = stop c
call disconnects c = some (disconnect c).0
call (connector e) c = connector_does e c
call (removes i e fd) c = remove_connection i e fd c
call (dies unique) c = destroy unique c >>= kept_client
call (removes_after i) c = some (remove_after i c)

-- Calls are made in any order, but what `connect` queues runs as an event; an event of the
-- connector comes when the connector is ready for it; the connection that is closed is the
-- client's, and the channel that made it was reset.
abbrev pub Comes : Call → Client → Type 0
Comes connects c = Unit {0}
Comes stops_all c = Unit {0}
Comes disconnects c = Unit {0}
Comes (connector e) c = Ready e c.connector × Available e c.connector
Comes (removes i e fd) c = (c.connection ≡ some i) × (c.connector.chnnel ≡ none)
Comes (dies unique) c = Unit {0}
Comes (removes_after i) c = c.connection ≡ some i

module _ (c : Client) (s : Sound c) where
  connector_does-Succeeds :
      (e : Event) → Ready e c.connector → Available e c.connector → Succeeds (connector_does e c)
  connector_does-Succeeds e r a = elim (Option-cases c.connection) [
    | inl alone ↦ alone_does c s e r alone
    | inr (i, has) ↦ busy_does c s i has e r a
  ]

with_flag-Sound : (c : Client) (b : Bool) → Sound c → Sound (record c { connect = b })
with_flag-Sound c b s = record {
  valid = s.valid;
  linked = s.linked;
  numbered = s.numbered;
  once = s.once;
}

abbrev without : ℕ → Client → Client
without i c = record c { connection = none; destroys = c.destroys ++ i ∷ [] }

without-Sound : (c : Client) (i : ℕ) → Sound c → c.connection ≡ some i → Sound (without i c)
without-Sound c i s has = record {
  valid = s.valid;
  linked = λ h. absurd (h refl);
  numbered = s.numbered;
  once = λ j.
      let before : count j c.destroys + one j i ≡ born j c.next_conn_id = rw has at (s.once j) in
      omega (arith, before, count-snoc j c.destroys i);
}

remove_connection-Succeeds :
    (c : Client) (s : Sound c) (i : ℕ) (e : Errno) (fd : ℕ)
    → c.connection ≡ some i
    → c.connector.chnnel ≡ none
    → Succeeds (remove_connection i e fd c)
unfolding remove_connection
remove_connection-Succeeds c s i e fd has clear =
    let left = without-Sound c i s has in
    let up = is_connected c s i has in
    elim (Bool-cases (c.retry && c.connect)) [
      | inl again ↦
          let (d, done, sound) =
            alone_does (without i c) left (restarts e fd) ((λ h. cc (h, up)), clear) refl in
          (d, rw (has, ==_refl i, again) done, sound)
      | inr last ↦ (without i c, rw (has, ==_refl i, last) refl, left)
    ]

leave-Succeeds :
    (o : Option ℕ) (unique : Bool) (c : Client)
    → Sound c
    → Succeeds (leave o unique c >>= kept_client)
unfolding leave
leave-Succeeds none unique c s =
    let (d, done, sound) = connector_does-Succeeds c s stops tt tt in
    (d, ap (λ (o : Option Client). (o >>= alone) >>= kept_client) done, sound)
leave-Succeeds (some i) true c s = (c, refl, s)
leave-Succeeds (some i) false c s = (c, refl, s)

-- Whatever is called or happens, in whatever order, where the loop starts an attempt only when the
-- connector is disconnected and has no channel, starts one again only when none is under way and no
-- channel is left, resets a channel only when it is not connecting, and closes only the client's
-- connection: no assertion fails, of the client or of its connector; while there is a connection the
-- connector is connected, so that no other is made; and every connection that was made is the
-- current one or its end was queued, each once. The destructor keeps that too, with the close
-- callback that it leaves to its connection. A second `connect()` does not meet the first condition.
pub call-Succeeds : (k : Call) (c : Client) → Sound c → Comes k c → Succeeds (call k c)
unfolding call connect stop disconnect destroy remove_after
call-Succeeds connects c s h =
    connector_does-Succeeds (record c { connect = true }) (with_flag-Sound c true s) starts tt tt
call-Succeeds stops_all c s h =
    connector_does-Succeeds (record c { connect = false }) (with_flag-Sound c false s) stops tt tt
call-Succeeds disconnects c s h = (record c { connect = false }, refl, with_flag-Sound c false s)
call-Succeeds (connector e) c s h = connector_does-Succeeds c s e h.0 h.1
call-Succeeds (removes i e fd) c s h = remove_connection-Succeeds c s i e fd h.0 h.1
call-Succeeds (dies unique) c s h = leave-Succeeds c.connection unique c s
call-Succeeds (removes_after i) c s h = (without i c, refl, without-Sound c i s h)
