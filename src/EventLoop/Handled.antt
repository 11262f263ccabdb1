-- ===== src/EventLoop/Handled.antt =====
-- netlib/net/EventLoop.cc: no channel is handled that was removed before, in the same round.
use netlib.Base.{
  ℕ, ◌≡◌, ◌≢◌, refl, sym, ap, ◌∙◌, Bool, true, false, not, ◌||◌, ◌==◌, ==_refl, ==_ne, Option,
  if◌then◌else◌, none, some, ◌>>=◌, List, [], ◌∷◌, length, set_at, set_at_same, set_at_other,
  same_or_not, Bool-cases, inl, inr, All, arith,
}
use netlib.EventLoop.Dispatch.{
  unknown, idle, asking, in_map, is_idle, Registered, is_in, remove_chnnel, update_chnnel, Ask,
  removes, updates, ask_all, dispatch,
}

abbrev pub Unique : List ℕ → Type 0
Unique [] = Unit {0}
Unique (c ∷ cs) = (is_in c cs ≡ false) × Unique cs

-- Unless an assertion failed, every channel was handled, and in the map when it was.
abbrev pub Handles : List ℕ → Option (Registered × List Bool) → Type 0
Handles cs none = Unit {0}
Handles cs (some (s, log)) = (length log ≡ length cs) × All (λ b. b ≡ true) log

-- What a callback keeps in the map: the other channels of the round.
abbrev Keeps : ℕ → List ℕ → Registered → Registered → Type 0
Keeps c active r q =
    (y : ℕ) → y ≢ c → is_in y active ≡ true → in_map (r y) ≡ true → in_map (q y) ≡ true

abbrev Stays : ℕ → List ℕ → Registered → Option Registered → Type 0
Stays c active r none = Unit {0}
Stays c active r (some q) = Keeps c active r q

module _ (active : List ℕ) (c : ℕ) where
  Stays-after :
      (r q : Registered) (o : Option Registered)
      → Keeps c active r q
      → Stays c active q o
      → Stays c active r o
  Stays-after r q none k l = tt
  Stays-after r q (some s) k l = λ y n i h. l y n i (k y n i h)

  -- A removal that the assertion lets pass.
  removed-Keeps :
      (x : ℕ) (r : Registered)
      → (x == c || not (is_in x active)) ≡ true
      → Keeps c active r (set_at x unknown r)
  removed-Keeps x r passes y n i h = elim (same_or_not y x) [
    | inl same ↦
        let other : (x == c) ≡ false = ==_ne x c (λ e. n (same ∙ e)) in
        let listed : is_in x active ≡ true = ap (λ z. is_in z active) (sym same) ∙ i in
        absurd (cc (ap (λ b. b || not (is_in x active)) (sym other) ∙ passes, ap not listed))
    | inr other ↦ rw (set_at_other x unknown r y other) h
  ]

  asked-in_map : (b : Bool) → in_map (if b then asking else idle) ≡ true
  asked-in_map true = refl
  asked-in_map false = refl

  updated-Keeps :
      (x : ℕ) (b : Bool) (r : Registered)
      → Keeps c active r (set_at x (if b then asking else idle) r)
  updated-Keeps x b r y n i h = elim (same_or_not y x) [
    | inl same ↦ rw (same, set_at_same x (if b then asking else idle) r) (asked-in_map b)
    | inr other ↦ rw (set_at_other x (if b then asking else idle) r y other) h
  ]

  ask_all-Stays :
      (calls : List Ask) (r : Registered)
      → Stays c active r
          (ask_all (record { event_handle = true; current = some c; chnnels = active }) calls r)
  unfolding ask_all remove_chnnel update_chnnel
  ask_all-Stays [] r = λ y n i h. h
  ask_all-Stays (removes x ∷ more) r = elim (Bool-cases (x == c || not (is_in x active))) [
    | inl passes ↦ elim (Bool-cases (in_map (r x))) [
      | inl there ↦ elim (Bool-cases (is_idle (r x))) [
        | inl quiet ↦
            rw (passes, there, quiet)
              (Stays-after r (set_at x unknown r) _ (removed-Keeps x r passes)
                (ask_all-Stays more (set_at x unknown r)))
        | inr asks ↦ rw (passes, there, asks) tt
      ]
      | inr missing ↦ rw (passes, missing) tt
    ]
    | inr fails ↦ rw fails tt
  ]
  ask_all-Stays (updates x b ∷ more) r =
      Stays-after r (set_at x (if b then asking else idle) r) _ (updated-Keeps x b r)
        (ask_all-Stays more (set_at x (if b then asking else idle) r))

-- The channels that are still to be handled are active, and in the map.
abbrev Live : List ℕ → List ℕ → Registered → Type 0
Live active cs r = (y : ℕ) → is_in y cs ≡ true → (is_in y active ≡ true) × (in_map (r y) ≡ true)

recorded-Handles :
    (c : ℕ) (cs : List ℕ) (live : Bool) (o : Option (Registered × List Bool))
    → live ≡ true
    → Handles cs o
    → Handles (c ∷ cs) (o >>= (λ x. some (x.0, live ∷ x.1)))
recorded-Handles c cs live none e h = tt
recorded-Handles c cs live (some (s, log)) e (n, a) = (omega (arith, n), (e, a))

asked-Handles :
    (c : ℕ) (active cs : List ℕ) (r : Registered) (o : Option Registered)
    (rest : Registered → Option (Registered × List Bool))
    → Stays c active r o
    → ((q : Registered) → Keeps c active r q → Handles cs (rest q))
    → Handles cs (o >>= rest)
asked-Handles c active cs r none rest k f = tt
asked-Handles c active cs r (some q) rest k f = f q k

-- A channel that is still to come is not the one at hand.
later :
    (c y : ℕ) (cs : List ℕ)
    → is_in c cs ≡ false
    → is_in y cs ≡ true
    → (y ≢ c) × (is_in y (c ∷ cs) ≡ true)
later c y cs fresh i =
    let other : y ≢ c = λ e. cc (sym (ap (λ z. is_in z cs) e) ∙ i, fresh) in
    (other, rw (==_ne y c other) i)

module _ (callback : ℕ → List Ask) (active : List ℕ) where
  dispatch-Live :
      (cs : List ℕ) (r : Registered)
      → Unique cs
      → Live active cs r
      → Handles cs (dispatch callback active cs r)
  unfolding dispatch
  dispatch-Live [] r u l = (refl, tt)
  dispatch-Live (c ∷ cs) r (fresh, u) l =
      let (_, here) = l c (rw (==_refl c) refl) in
      asked-Handles c active (c ∷ cs) r _ _ (ask_all-Stays active c (callback c) r) (λ q k.
        recorded-Handles c cs (in_map (r c)) (dispatch callback active cs q) here (
          dispatch-Live cs q u (λ y i.
            let (other, among) = later c y cs fresh i in
            let (still, was) = l y among in (still, k y other still was))))

-- A round over channels that are in the poller's map, each once, whatever the callbacks remove and
-- update: unless one of the assertions on removing fails, every channel is handled, and is still in
-- the map when its events are. The assertion of `EventLoop::removeChnnel` is what keeps it there.
pub dispatch-Handles :
    (callback : ℕ → List Ask) (active : List ℕ) (r : Registered)
    → Unique active
    → ((y : ℕ) → is_in y active ≡ true → in_map (r y) ≡ true)
    → Handles active (dispatch callback active active r)
dispatch-Handles callback active r u live =
    dispatch-Live callback active active r u (λ y i. (i, live y i))
