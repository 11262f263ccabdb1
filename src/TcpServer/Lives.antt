-- ===== src/TcpServer/Lives.antt =====
-- netlib/net/TcpServer.cc: each connection is in the map while it lives, and is removed once.
use netlib.Base.{
  ℕ, ◌+◌, ◌≤◌, ◌<◌, ◌≡◌, ◌≢◌, refl, sym, ap, ◌∙◌, inl, inr, true, ◌==◌, ==_refl, ==_ne, leb,
  if◌then◌else◌, Bool-cases, same_or_not, Option, some, ◌>>◌, assert, List, [], ◌∷◌, length,
  get_elem?_lt, set_at, set_at_same, set_at_other, arith,
}
use netlib.EventLoopThreadPool.{Pool, get_next_loop, take_next}
use netlib.TcpServer.{
  Life, absent, created, up, closing, leaving, gone, Conn, Server, set_life, put, erase,
  new_connection, remove_connection, remove_connection_in_loop,
}

abbrev one : ℕ → ℕ → ℕ
one i j = if j == i then 1 else 0

abbrev pub count : ℕ → List ℕ → ℕ
count i [] = 0
count i (j ∷ js) = one i j + count i js

-- How often the map holds a connection.
abbrev pub listed : Life → ℕ
listed absent = 0
listed created = 1
listed up = 1
listed closing = 1
listed leaving = 0
listed gone = 0

-- A started pool whose turn is that of one of its loops, if it has any.
pub record IsTurn (p : Pool) : Type 0 where
  pub is_started : p.started ≡ true
  pub in_range : 0 < length p.loops → p.next < length p.loops

pub record Sound (s : Server) : Type 0 where
  pub turn : IsTurn s.pool
  pub mapped : (i : ℕ) → count i s.connections ≡ listed (s.conns i).life
  pub fresh : (i : ℕ) → s.next_conn_id ≤ i → (s.conns i).life ≡ absent

take_next-IsTurn :
    (ls : List ℕ) (p : Pool)
    → p.loops ≡ ls
    → IsTurn p
    → (q : Pool) × (l : ℕ) × (take_next ls p ≡ some (q, l)) × IsTurn q
take_next-IsTurn [] p e t = (p, p.base_loop, refl, t)
take_next-IsTurn (l ∷ ls) p e t =
    let n : length p.loops ≡ length (l ∷ ls) = ap length e in
    let lt = t.in_range (omega (arith, n)) in
    let (x, h) = get_elem?_lt (l ∷ ls) p.next (omega (arith, n, lt)) in
    (
      record p { next = if leb (length (l ∷ ls)) (p.next + 1) then 0 else p.next + 1 },
      x,
      rw h refl,
      record { is_started = t.is_started; in_range = λ _. ground (arith, n, lt) },
    )

count-erase :
    (i : ℕ) (js : List ℕ)
    → ((erase i js).0 ≡ count i js)
      × ((k : ℕ) → count k (erase i js).1 ≡ (if k == i then 0 else count k js))
count-erase i [] = (refl, λ k. ground arith)
count-erase i (j ∷ js) =
    let (taken, left) = count-erase i js in
    elim (Bool-cases (j == i)) [
      | inl same ↦ rw same (omega (arith, taken), λ k. ground (arith, left k, same))
      | inr other ↦ rw other (omega (arith, taken), λ k. ground (arith, left k, other))
    ]

count-put : (i : ℕ) (js : List ℕ) (k : ℕ) → count k (put i js) ≡ count k js + one k i
count-put i [] k = omega arith
count-put i (j ∷ js) k = omega (arith, count-put i js k)

get_next_loop-IsTurn :
    (p : Pool) → IsTurn p → (q : Pool) × (l : ℕ) × (get_next_loop p ≡ some (q, l)) × IsTurn q
unfolding get_next_loop
get_next_loop-IsTurn p t =
    let (q, l, h, u) = take_next-IsTurn p.loops p refl t in
    (q, l, ap (λ b. assert b >> take_next p.loops p) t.is_started ∙ h, u)

-- What the two loops may find to do, and a new connection.
pub data Event : Type 0 where
  accepts : Event
  establishes closes removes destroys : ℕ → Event

unfoldable pub happens : Event → Server → Option Server
unfolding new_connection remove_connection remove_connection_in_loop
happens accepts s = new_connection s
happens (establishes i) s = some (set_life i up s)
happens (closes i) s = some (remove_connection i s)
happens (removes i) s = remove_connection_in_loop i s
happens (destroys i) s = some (set_life i gone s)

-- What has to be in the loops: a connection closes only after it was established, and the functors
-- run that were queued.
abbrev pub Comes : Event → Server → Type 0
Comes accepts s = Unit {0}
Comes (establishes i) s = (s.conns i).life ≡ created
Comes (closes i) s = (s.conns i).life ≡ up
Comes (removes i) s = (s.conns i).life ≡ closing
Comes (destroys i) s = (s.conns i).life ≡ leaving

abbrev pub Succeeds : Option Server → Type 0
Succeeds o = (t : Server) × (o ≡ some t) × Sound t

module _ (s : Server) (v : Sound s) where
  accepts-Succeeds : Succeeds (new_connection s)
  unfolding new_connection
  accepts-Succeeds =
      let (q, l, h, t) = get_next_loop-IsTurn s.pool v.turn in
      let n = s.next_conn_id in
      let conn : Conn = record { life = created; loop = l } in
      (
        record s {
          pool = q;
          next_conn_id = n + 1;
          connections = put n s.connections;
          conns = set_at n conn s.conns;
        },
        rw h refl,
        record {
          turn = t;
          mapped = λ i. elim (same_or_not i n) [
            | inl same ↦
                let none_yet = v.mapped n ∙ ap listed (v.fresh n (omega arith)) in
                rw (same, set_at_same n conn s.conns)
                  (count-put n s.connections n
                    ∙ ap (λ k. k + one n n) none_yet
                    ∙ rw (==_refl n) refl)
            | inr other ↦
                let apart : one i n ≡ 0 = rw (==_ne n i (λ e. other (sym e))) refl in
                rw (set_at_other n conn s.conns i other)
                  (count-put n s.connections i ∙ omega (arith, apart, v.mapped i))
          ];
          fresh = λ i above.
              rw (set_at_other n conn s.conns i (λ e. omega arith)) (v.fresh i (omega arith));
        },
      )

  -- A connection moves on without a change of the map.
  moved :
      (i : ℕ) (l : Life)
      → listed l ≡ listed (s.conns i).life
      → (s.conns i).life ≢ absent
      → Sound (set_life i l s)
  moved i l same made = record {
    turn = v.turn;
    mapped = λ j. elim (same_or_not j i) [
      | inl here ↦
          rw (here, set_at_same i (record (s.conns i) { life = l }) s.conns) (v.mapped i ∙ sym same)
      | inr other ↦
          rw (set_at_other i (record (s.conns i) { life = l }) s.conns j other) (v.mapped j)
    ];
    fresh = λ j above.
        let other : j ≢ i = λ e. made (ap (λ k. (s.conns k).life) (sym e) ∙ v.fresh j above) in
        rw (set_at_other i (record (s.conns i) { life = l }) s.conns j other) (v.fresh j above);
  }

  moves :
      (i : ℕ) (l m : Life)
      → (s.conns i).life ≡ m
      → listed l ≡ listed m
      → m ≢ absent
      → Succeeds (some (set_life i l s))
  moves i l m e same made =
      (set_life i l s, refl, moved i l (same ∙ ap listed (sym e)) (λ h. made (sym e ∙ h)))

  -- The assertion that exactly one entry was erased holds.
  removes-Succeeds : (i : ℕ) → (s.conns i).life ≡ closing → Succeeds (remove_connection_in_loop i s)
  unfolding remove_connection_in_loop
  removes-Succeeds i e =
      let (taken, left) = count-erase i s.connections in
      let one_taken : (erase i s.connections).0 ≡ 1 = taken ∙ v.mapped i ∙ ap listed e in
      let gone_now : Conn = record (s.conns i) { life = leaving } in
      (
        set_life i leaving (record s { connections = (erase i s.connections).1 }),
        rw one_taken refl,
        record {
          turn = v.turn;
          mapped = λ j. elim (same_or_not j i) [
            | inl here ↦ rw (here, set_at_same i gone_now s.conns) (left i ∙ rw (==_refl i) refl)
            | inr other ↦
                rw (set_at_other i gone_now s.conns j other)
                  (left j ∙ rw (==_ne j i other) (v.mapped j))
          ];
          fresh = λ j above.
              let other : j ≢ i = λ h. cc (ap (λ k. (s.conns k).life) h, v.fresh j above, e) in
              rw (set_at_other i gone_now s.conns j other) (v.fresh j above);
        },
      )

  -- Whatever the loops find to do, in whatever order: no assertion fails, a new connection always
  -- gets a loop, and the map holds exactly the connections that were made and not yet removed,
  -- each once, under numbers that were not used before.
  pub happens-Succeeds : (e : Event) → Comes e s → Succeeds (happens e s)
  unfolding happens remove_connection
  happens-Succeeds accepts c = accepts-Succeeds
  happens-Succeeds (establishes i) c = moves i up created c refl (λ h. cc)
  happens-Succeeds (closes i) c = moves i closing up c refl (λ h. cc)
  happens-Succeeds (removes i) c = removes-Succeeds i c
  happens-Succeeds (destroys i) c = moves i gone leaving c refl (λ h. cc)
