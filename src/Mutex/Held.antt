-- ===== src/Mutex/Held.antt =====
-- netlib/base/Mutex.h: `isLockedByThisThread` tells the truth, also around a wait.
use netlib.Base.{
  ℕ, ◌<◌, ◌≡◌, ◌≢◌, refl, sym, ap, ◌∙◌, inl, inr, Bool, true, false, ◌==◌, ==_refl, ==_ne, ==_iff,
  Option, none, some, set_at, set_at_same, set_at_other, same_or_not, arith,
}
use netlib.Mutex.{
  Where, outside, entering, inside, leaving, dozing, asleep, Mutex, construct,
  is_locked_by_this_thread, lock, get_holder, unget_holder, unlock, Step, locks, records, unlocks,
  leaves, waits, sleeps, awakes, Reach, here, next,
}

-- Who has the mutex, and who is between its recording and the end of that.
abbrev has : Where → Bool
has outside = false
has entering = true
has inside = true
has leaving = true
has dozing = true
has asleep = false

abbrev pub recorded : Where → Bool
recorded outside = false
recorded entering = false
recorded inside = true
recorded leaving = false
recorded dozing = false
recorded asleep = false

abbrev is_owner : ℕ → Option ℕ → Bool
is_owner t none = false
is_owner t (some u) = t == u

pub record IsHeld (m : Mutex) : Type 0 where
  pub owned : (t : ℕ) → has (m.at t) ≡ is_owner t m.owner
  pub tells : (t : ℕ) → 0 < t → is_locked_by_this_thread t m ≡ recorded (m.at t)

owner_only : (t u : ℕ) (o : Option ℕ) → is_owner t o ≡ true → u ≢ t → is_owner u o ≡ false
owner_only t u none e n = absurd (cc e)
owner_only t u (some w) e n = ==_ne u w (λ (h : u ≡ w). n (h ∙ sym ((==_iff t w).0 e)))

without : (w : Where) → has w ≡ false → recorded w ≡ false
without outside e = refl
without entering e = absurd (cc e)
without inside e = absurd (cc e)
without leaving e = absurd (cc e)
without dozing e = absurd (cc e)
without asleep e = refl

module _ (m : Mutex) (v : IsHeld m) (t : ℕ) where
  moved :
      (w : Where) (o : Option ℕ) (h : ℕ)
      → has w ≡ is_owner t o
      → ((u : ℕ) → u ≢ t → is_owner u m.owner ≡ is_owner u o)
      → (0 < t → (t == h) ≡ recorded w)
      → ((u : ℕ) → u ≢ t → 0 < u → recorded (m.at u) ≡ (u == h))
      → IsHeld (record { owner = o; holder = h; at = set_at t w m.at })
  unfolding is_locked_by_this_thread
  moved w o h a b c d = record {
    owned = λ u. elim (same_or_not u t) [
      | inl e ↦ rw (e, set_at_same t w m.at) a
      | inr n ↦ rw (set_at_other t w m.at u n) (v.owned u ∙ b u n)
    ];
    tells = λ u p. elim (same_or_not u t) [
      | inl e ↦ rw (e, set_at_same t w m.at) (c (omega (arith, e, p)))
      | inr n ↦ rw (set_at_other t w m.at u n) (sym (d u n p))
    ];
  }

  -- While `t` has the mutex no other thread is recorded.
  alone : has (m.at t) ≡ true → (u : ℕ) → u ≢ t → recorded (m.at u) ≡ false
  alone e u n = without (m.at u) (v.owned u ∙ owner_only t u m.owner (sym (v.owned t) ∙ e) n)

  take_free : (w : Where) → m.owner ≡ none → m.at t ≡ w → recorded w ≡ false → IsHeld (lock t m)
  unfolding lock is_locked_by_this_thread
  take_free w free e r =
      moved entering (some t) m.holder (sym (==_refl t))
        (λ u n. ap (is_owner u) free ∙ sym (==_ne u t n)) (λ p. v.tells t p ∙ ap recorded e ∙ r)
        (λ u n p. sym (v.tells u p))

  recorded_now : m.at t ≡ entering → IsHeld (get_holder t m)
  unfolding get_holder
  recorded_now e =
      moved inside m.owner t (sym (ap has e) ∙ v.owned t) (λ u n. refl) (λ p. ==_refl t)
        (λ u n p. alone (ap has e) u n ∙ sym (==_ne u t n))

  cleared :
      (w : Where)
      → m.at t ≡ inside
      → has w ≡ true
      → recorded w ≡ false
      → IsHeld (unget_holder w t m)
  unfolding unget_holder
  cleared w e a r =
      moved w m.owner 0 (a ∙ sym (ap has e) ∙ v.owned t) (λ u n. refl)
        (λ p. ==_ne t 0 (λ (h : t ≡ 0). omega (arith, h, p)) ∙ sym r)
        (λ u n p. alone (ap has e) u n ∙ sym (==_ne u 0 (λ (h : u ≡ 0). omega (arith, h, p))))

  released :
      (w x : Where)
      → m.at t ≡ x
      → has x ≡ true
      → recorded x ≡ false
      → has w ≡ false
      → IsHeld (unlock w t m)
  unfolding unlock is_locked_by_this_thread
  released w x e a r g =
      moved w none m.holder g (λ u n. owner_only t u m.owner (sym (v.owned t) ∙ ap has e ∙ a) n)
        (λ p. v.tells t p ∙ ap recorded e ∙ r ∙ sym (without w g)) (λ u n p. sym (v.tells u p))

Step-IsHeld : {m n : Mutex} → Step m n → IsHeld m → IsHeld n
Step-IsHeld {m} (locks t free e) v = take_free m v t outside free e refl
Step-IsHeld {m} (records t e) v = recorded_now m v t e
Step-IsHeld {m} (unlocks t e) v = cleared m v t leaving e refl refl
Step-IsHeld {m} (leaves t e) v = released m v t outside leaving e refl refl refl
Step-IsHeld {m} (waits t e) v = cleared m v t dozing e refl refl
Step-IsHeld {m} (sleeps t e) v = released m v t asleep dozing e refl refl refl
Step-IsHeld {m} (awakes t free e) v = take_free m v t asleep free e refl

-- Whatever threads lock a new mutex, and unlock it and wait while they have it, in whatever order, with
-- awakenings for no reason, where pthreads gives it to one at a time: a thread is behind `lock` or a
-- wait, as far as the part that records it, and before the end of `unlock` or the sleep of a wait, only
-- while it has the mutex; and `isLockedByThisThread` is true for a thread, whose number is not 0, exactly
-- from where `lock` or a wait records it up to its next `unlock` or wait.
pub Reach-IsHeld : {m : Mutex} → Reach m → IsHeld m
unfolding construct is_locked_by_this_thread
Reach-IsHeld here = record {
  owned = λ t. refl;
  tells = λ t p. ==_ne t 0 (λ (h : t ≡ 0). omega (arith, h, p));
}
Reach-IsHeld (next r s) = Step-IsHeld s (Reach-IsHeld r)
