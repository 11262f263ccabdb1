-- ===== src/TimeZone/Transitions.antt =====
-- netlib/base/TimeZone.cc: `findLocalTime` against a walk through the transitions.
use netlib.Base.{
  ℕ, suc, ◌-◌, ◌<◌, ◌≡◌, refl, sym, ap, ◌∙◌, subst, inl, inr, ℤ, ltb_ℤ, Bool, true, false, ◌==◌,
  if◌then◌else◌, ==_ne, Bool-cases, Option, none, some, ◌>>=◌, List, [], ◌∷◌, ◌++◌, append-nil, All,
  All-map, length, get_elem?, get_elem?_lt, arith,
}
use netlib.TimeZone.{
  Transition, LocalTime, Data, key, comp, equal, LowerBound, step_back, find_index, find_local_time,
}

-- The rule in force at time `t`: that of the last transition not after `t`, and the first rule
-- before all transitions.
abbrev pub in_force : Bool → ℤ → ℕ → List Transition → ℕ
in_force gmt t current [] = current
in_force gmt t current (x ∷ xs) =
    if ltb_ℤ t (key gmt x) then current else in_force gmt t x.localtime_idx xs

-- Each transition is later than the one before.
abbrev pub Sorted : Bool → List Transition → Type 0
Sorted gmt [] = Unit {0}
Sorted gmt (x ∷ xs) = All (λ y. comp gmt x y ≡ true) xs × Sorted gmt xs

-- What is documented of `std::lower_bound`: in a sorted vector the elements before its result
-- are those that compare less than the value.
pub record Bound (before : Transition → Transition → Bool) (ts : List Transition) (v : Transition)
    (i : ℕ) : Type 0 where
  pub less : List Transition
  pub others : List Transition
  pub parts : ts ≡ less ++ others
  pub index : i ≡ length less
  pub all_less : All (λ x. before x v ≡ true) less
  pub none_less : All (λ x. before x v ≡ false) others

abbrev pub FindsBound : LowerBound → Type 0
FindsBound lower_bound =
    (gmt : Bool) (ts : List Transition) (v : Transition)
    → Sorted gmt ts
    → Bound (comp gmt) ts v (lower_bound (comp gmt) ts v)

abbrev last_index : ℕ → List Transition → ℕ
last_index current [] = current
last_index current (x ∷ xs) = last_index x.localtime_idx xs

asymmetric : (s t : ℤ) → ltb_ℤ s t ≡ true → ltb_ℤ t s ≡ false
asymmetric s t h = ground arith

in_force-append :
    (gmt : Bool) (v : Transition) (current : ℕ) (less others : List Transition)
    → All (λ x. comp gmt x v ≡ true) less
    → in_force gmt (key gmt v) current (less ++ others)
      ≡ in_force gmt (key gmt v) (last_index current less) others
in_force-append gmt v current [] others a = refl
in_force-append gmt v current (x ∷ less) others a =
    rw (asymmetric (key gmt x) (key gmt v) a.0)
      (in_force-append gmt v x.localtime_idx less others a.1)

-- The last of the transitions before the bound.
last_less :
    (x : Transition) (less others : List Transition)
    → (z : Transition) × (get_elem? (x ∷ (less ++ others)) (length less) ≡ some z)
      × (z.localtime_idx ≡ last_index x.localtime_idx less)
last_less x [] others = (x, refl, refl)
last_less x (y ∷ less) others = last_less y less others

get_elem?-bound :
    (less : List Transition) (y : Transition) (rest : List Transition)
    → get_elem? (less ++ y ∷ rest) (length less) ≡ some y
get_elem?-bound [] y rest = refl
get_elem?-bound (x ∷ less) y rest = get_elem?-bound less y rest

get_elem?-end : (ts : List Transition) → get_elem? ts (length ts) ≡ none
get_elem?-end [] = refl
get_elem?-end (x ∷ ts) = get_elem?-end ts

-- The walk stops at a transition that is later.
stops :
    (gmt : Bool) (v : Transition) (current : ℕ) (others : List Transition)
    → All (λ x. comp gmt v x ≡ true) others
    → in_force gmt (key gmt v) current others ≡ current
stops gmt v current [] a = refl
stops gmt v current (x ∷ others) a = rw a.0 refl

-- The index that `find_index` reads, once `lower_bound` has returned.
abbrev found : Bool → Transition → List Transition → ℕ → Option ℕ
found gmt v ts i = step_back gmt v ts i (get_elem? ts i) >>= (λ t. some t.localtime_idx)

found_last :
    (gmt : Bool) (v x : Transition) (less : List Transition)
    → found gmt v (x ∷ less) (suc (length less)) ≡ some (last_index x.localtime_idx less)
found_last gmt v x less =
    let (z, here, idx) = last_less x less [] in
    let one_less : suc (length less) - 1 ≡ length less = omega arith in
    let there = ap (λ ts. get_elem? (x ∷ ts) (length less)) (sym (append-nil less)) ∙ here in
    rw (get_elem?-end less, one_less, there) (ap some idx)

found_before :
    (gmt : Bool) (v x y : Transition) (less rest : List Transition)
    → equal gmt v y ≡ false
    → found gmt v (x ∷ (less ++ y ∷ rest)) (suc (length less))
      ≡ some (last_index x.localtime_idx less)
found_before gmt v x y less rest e =
    let (z, here, idx) = last_less x less (y ∷ rest) in
    let one_less : suc (length less) - 1 ≡ length less = omega arith in
    let not_first : (suc (length less) == 0) ≡ false =
      ==_ne (suc (length less)) 0 (λ (q : suc (length less) ≡ 0). omega arith) in
    rw (get_elem?-bound less y rest, e, not_first, one_less, here) (ap some idx)

found_at :
    (gmt : Bool) (v y : Transition) (less rest : List Transition)
    → equal gmt v y ≡ true
    → found gmt v (less ++ y ∷ rest) (length less) ≡ some y.localtime_idx
found_at gmt v y less rest e = rw (get_elem?-bound less y rest, e) refl

-- The order of a transition that is neither before the value nor equal to it.
later :
    (gmt : Bool) (v y : Transition)
    → comp gmt y v ≡ false
    → equal gmt v y ≡ false
    → comp gmt v y ≡ true
later gmt v y n e = ground (arith, n, e)

-- Past a transition at the very time, all others are later.
All-later :
    (gmt : Bool) (v y : Transition) (rest : List Transition)
    → comp gmt v y ≡ false
    → comp gmt y v ≡ false
    → All (λ x. comp gmt y x ≡ true) rest
    → All (λ x. comp gmt v x ≡ true) rest
All-later gmt v y rest a b h = All-map (λ x g. ground (arith, a, b, g)) rest h

equal-both : (gmt : Bool) (v y : Transition) → equal gmt v y ≡ true → comp gmt v y ≡ false
equal-both gmt v y e = ground (arith, e)

Sorted-tail :
    (gmt : Bool) (less : List Transition) (y : Transition) (rest : List Transition)
    → Sorted gmt (less ++ y ∷ rest)
    → All (λ x. comp gmt y x ≡ true) rest
Sorted-tail gmt [] y rest s = s.0
Sorted-tail gmt (x ∷ less) y rest s = Sorted-tail gmt less y rest s.1

hit :
    (gmt : Bool) (v y : Transition) (less rest : List Transition)
    → Sorted gmt (less ++ y ∷ rest)
    → All (λ x. comp gmt x v ≡ true) less
    → comp gmt y v ≡ false
    → equal gmt v y ≡ true
    → found gmt v (less ++ y ∷ rest) (length less)
      ≡ some (in_force gmt (key gmt v) 0 (less ++ y ∷ rest))
hit gmt v y less rest s a n e =
    let not_before = equal-both gmt v y e in
    let after = All-later gmt v y rest not_before n (Sorted-tail gmt less y rest s) in
    let walk : in_force gmt (key gmt v) (last_index 0 less) (y ∷ rest) ≡ y.localtime_idx =
      rw not_before (stops gmt v y.localtime_idx rest after) in
    found_at gmt v y less rest e ∙ ap some (sym (in_force-append gmt v 0 less (y ∷ rest) a ∙ walk))

miss :
    (gmt : Bool) (v x y : Transition) (less rest : List Transition)
    → All (λ u. comp gmt u v ≡ true) (x ∷ less)
    → comp gmt y v ≡ false
    → equal gmt v y ≡ false
    → found gmt v (x ∷ (less ++ y ∷ rest)) (suc (length less))
      ≡ some (in_force gmt (key gmt v) 0 (x ∷ (less ++ y ∷ rest)))
miss gmt v x y less rest a n e =
    let walk : in_force gmt (key gmt v) (last_index x.localtime_idx less) (y ∷ rest)
        ≡ last_index x.localtime_idx less =
      rw (later gmt v y n e) refl in
    found_before gmt v x y less rest e
    ∙ ap some (sym (in_force-append gmt v 0 (x ∷ less) (y ∷ rest) a ∙ walk))

-- What the code finds at a bound is what the walk finds, unless the time is before all.
found_lem :
    (gmt : Bool) (v first : Transition) (rest : List Transition) (less others : List Transition)
    → Sorted gmt (less ++ others)
    → All (λ x. comp gmt x v ≡ true) less
    → All (λ x. comp gmt x v ≡ false) others
    → first ∷ rest ≡ less ++ others
    → comp gmt v first ≡ false
    → found gmt v (less ++ others) (length less)
      ≡ some (in_force gmt (key gmt v) 0 (less ++ others))
found_lem gmt v first rest [] [] s a n p f = absurd (cc p)
found_lem gmt v first rest (x ∷ less) [] s a n p f =
    ap (λ ts. found gmt v (x ∷ ts) (suc (length less))) (append-nil less)
    ∙ found_last gmt v x less
    ∙ ap some (sym (in_force-append gmt v 0 (x ∷ less) [] a))
found_lem gmt v first rest [] (y ∷ ys) s a n p f =
    let is_first : first ≡ y = cc p in
    let at_y : comp gmt v y ≡ false = subst (λ z. comp gmt v z ≡ false) is_first f in
    hit gmt v y [] ys s a n.0 (rw (at_y, n.0) refl)
found_lem gmt v first rest (x ∷ less) (y ∷ ys) s a n p f = elim (Bool-cases (equal gmt v y)) [
  | inl same ↦ hit gmt v y (x ∷ less) ys s a n.0 same
  | inr other ↦ miss gmt v x y less ys a n.0 other
]

-- The rule in force is one of `n`, where every transition names one.
in_force-lt :
    (gmt : Bool) (t : ℤ) (n i : ℕ) (ts : List Transition)
    → i < n
    → All (λ (x : Transition). x.localtime_idx < n) ts
    → in_force gmt t i ts < n
in_force-lt gmt t n i [] h a = h
in_force-lt gmt t n i (x ∷ xs) h (b, a) = elim (Bool-cases (ltb_ℤ t (key gmt x))) [
  | inl before ↦ rw before h
  | inr after ↦ rw after (in_force-lt gmt t n x.localtime_idx xs b a)
]

module _ (lower_bound : LowerBound) (finds : FindsBound lower_bound) where
  find_index-in_force :
      (gmt : Bool) (ts : List Transition) (v : Transition)
      → Sorted gmt ts
      → find_index lower_bound ts v gmt ≡ some (in_force gmt (key gmt v) 0 ts)
  find_index-in_force gmt [] v s = refl
  find_index-in_force gmt (first ∷ rest) v s = elim (Bool-cases (comp gmt v first)) [
    | inl before_all ↦ rw before_all refl
    | inr after ↦
        let b = finds gmt (first ∷ rest) v s in
        let same =
          found_lem gmt v first rest b.less b.others (subst (Sorted gmt) b.parts s) b.all_less
            b.none_less b.parts after in
        let there =
          subst (λ ts. found gmt v ts (length b.less) ≡ some (in_force gmt (key gmt v) 0 ts))
            (sym b.parts) same in
        let first_passed : in_force gmt (key gmt v) 0 (first ∷ rest)
            ≡ in_force gmt (key gmt v) first.localtime_idx rest =
          rw after refl in
        rw (after, b.index) (there ∙ ap some first_passed)
  ]

  -- In a zone with local times, whose transitions are in order and name local times that it has:
  -- `findLocalTime` gives the rule in force, that of the last transition not after the time, and before
  -- all of them the first rule; nothing is read out of range.
  pub find_local_time-in_force :
      (d : Data) (v : Transition) (gmt : Bool)
      → Sorted gmt d.transitions
      → 0 < length d.localtimes
      → All (λ (x : Transition). x.localtime_idx < length d.localtimes) d.transitions
      → (l : LocalTime) × (find_local_time lower_bound d v gmt ≡ some l)
        × (get_elem? d.localtimes (in_force gmt (key gmt v) 0 d.transitions) ≡ some l)
  unfolding find_local_time
  find_local_time-in_force d v gmt s some_rule named =
      let i = in_force gmt (key gmt v) 0 d.transitions in
      let lt = in_force-lt gmt (key gmt v) (length d.localtimes) 0 d.transitions some_rule named in
      let (l, there) = get_elem?_lt d.localtimes i lt in
      (
        l,
        ap (λ o. o >>= (λ j. get_elem? d.localtimes j)) (find_index-in_force gmt d.transitions v s)
            ∙ there,
        there,
      )
