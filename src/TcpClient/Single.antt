-- ===== src/TcpClient/Single.antt =====
-- netlib/net/TcpClient.cc: one connection at a time, and what a new one changes.
use netlib.Base.{
  ℕ, ◌+◌, ◌≤◌, ◌≡◌, ◌≢◌, refl, ap, inl, inr, ◌==◌, ltb, leb, if◌then◌else◌, Option, none, some,
  List, [], ◌∷◌, ◌++◌, arith,
}
use netlib.Connector.{connected, Effect, opened, closed, handed_over, retry_after, Connector}
use netlib.Connector.Ledger.{IsValid, hands}
use netlib.Connector.Events.{Event, happens-Good, Ready}
use netlib.TcpClient.{Client, new_connection, handed, connector_does}

abbrev pub one : ℕ → ℕ → ℕ
one i j = if i == j then 1 else 0

abbrev pub count : ℕ → List ℕ → ℕ
count i [] = 0
count i (j ∷ js) = one i j + count i js

abbrev current : ℕ → Option ℕ → ℕ
current i none = 0
current i (some j) = one i j

-- The numbers given to connections so far.
abbrev pub born : ℕ → ℕ → ℕ
born i next = if leb 1 i then (if ltb i next then 1 else 0) else 0

-- While there is a connection the connector is connected; every connection that was ever made is
-- the current one or its end was queued, once.
pub record Sound (c : Client) : Type 0 where
  pub valid : IsValid c.connector
  pub linked : c.connection ≢ none → c.connector.state ≡ connected
  pub numbered : 1 ≤ c.next_conn_id
  pub once : (i : ℕ) → count i c.destroys + current i c.connection ≡ born i c.next_conn_id

-- What a call does, if it does not fail.
abbrev pub Succeeds : Option Client → Type 0
Succeeds o = (d : Client) × (o ≡ some d) × Sound d

pub count-snoc : (i : ℕ) (js : List ℕ) (j : ℕ) → count i (js ++ j ∷ []) ≡ count i js + one i j
count-snoc i [] j = omega arith
count-snoc i (k ∷ js) j = omega (arith, count-snoc i js j)

-- A callback that is not made changes nothing.
handed_none : (fs : List Effect) (c : Client) → hands fs ≡ 0 → handed fs c ≡ c
unfolding handed
handed_none [] c h = refl
handed_none (handed_over fd ∷ fs) c h = absurd (omega arith)
handed_none (opened fd ∷ fs) c h = handed_none fs c h
handed_none (closed fd ∷ fs) c h = handed_none fs c h
handed_none (retry_after d ∷ fs) c h = handed_none fs c h

abbrev with_new : Client → Client
with_new c = record c { next_conn_id = c.next_conn_id + 1; connection = some c.next_conn_id }

handed_one : (fs : List Effect) (c : Client) → hands fs ≡ 1 → handed fs c ≡ with_new c
unfolding handed new_connection
handed_one [] c h = absurd (omega arith)
handed_one (handed_over fd ∷ fs) c h = handed_none fs (with_new c) (omega arith)
handed_one (opened fd ∷ fs) c h = handed_one fs c h
handed_one (closed fd ∷ fs) c h = handed_one fs c h
handed_one (retry_after d ∷ fs) c h = handed_one fs c h

module _ (c : Client) (s : Sound c) where
  with_new-Sound :
      (k : Connector)
      → IsValid k
      → k.state ≡ connected
      → c.connection ≡ none
      → Sound (with_new (record c { connector = k }))
  with_new-Sound k v e n = record {
    valid = v;
    linked = λ _. e;
    numbered = omega arith;
    once = λ i.
        let before : count i c.destroys + 0 ≡ born i c.next_conn_id = rw n at (s.once i) in
        ground (arith, before, s.numbered);
  }

  -- Without a connection the connector may do anything.
  pub alone_does :
      (e : Event) → Ready e c.connector → c.connection ≡ none → Succeeds (connector_does e c)
  unfolding connector_does
  alone_does e ready n =
      let (r, done, g) = happens-Good c.connector s.valid e ready in
      elim g.reported [
        | inl none_handed ↦ (
          record c { connector = r.0 },
          rw done (ap some (handed_none r.1 _ none_handed)),
          record {
            valid = g.valid;
            linked = λ h. absurd (h n);
            numbered = s.numbered;
            once = s.once;
          },
        )
        | inr (one_handed, is_up) ↦ (
          with_new (record c { connector = r.0 }),
          rw done (ap some (handed_one r.1 _ one_handed)),
          with_new-Sound r.0 g.valid is_up n,
        )
      ]
