-- ===== src/EventLoop/Owned.antt =====
-- netlib/net/EventLoop.cc: one loop for a thread.
use netlib.Base.{
  ℕ, ◌≡◌, ◌≢◌, refl, sym, ap, ◌∙◌, inl, inr, Option, Option-cases, none, some, set_at, set_at_same,
  set_at_other, same_or_not,
}
use netlib.EventLoop.Owner.{Process, construct, destroy, Reach, here, constructs, destroys}

-- A thread's loop is the one that belongs to it.
pub record IsOwned (p : Process) : Type 0 where
  pub own : (t l : ℕ) → p.loop_in_thread t ≡ some l → p.owner l ≡ some t
  pub known : (t l : ℕ) → p.owner l ≡ some t → p.loop_in_thread t ≡ some l

abbrev pub Owns : Option Process → Type 0
Owns (some p) = IsOwned p
Owns none = Unit {0}

module _ (p : Process) (v : IsOwned p) (t l : ℕ) where
  claimed-IsOwned :
      p.loop_in_thread t ≡ none
      → p.owner l ≡ none
      → IsOwned (record {
        loop_in_thread = set_at t (some l) p.loop_in_thread;
        owner = set_at l (some t) p.owner;
      })
  claimed-IsOwned free fresh = record {
    own = λ u m e. elim (same_or_not u t) [
      | inl at ↦
          let h : some l ≡ some m =
            sym (set_at_same t (some l) p.loop_in_thread)
            ∙ ap (set_at t (some l) p.loop_in_thread) (sym at)
            ∙ e in
          let same : m ≡ l = cc h in rw (same, at, set_at_same l (some t) p.owner) refl
      | inr other ↦
          let old = v.own u m (sym (set_at_other t (some l) p.loop_in_thread u other) ∙ e) in
          let apart : m ≢ l = λ h. cc (ap p.owner h, old, fresh) in
          set_at_other l (some t) p.owner m apart ∙ old
    ];
    known = λ u m e. elim (same_or_not m l) [
      | inl at ↦
          let h : some t ≡ some u =
            sym (set_at_same l (some t) p.owner) ∙ ap (set_at l (some t) p.owner) (sym at) ∙ e in
          let same : u ≡ t = cc h in rw (same, at, set_at_same t (some l) p.loop_in_thread) refl
      | inr other ↦
          let old = v.known u m (sym (set_at_other l (some t) p.owner m other) ∙ e) in
          let apart : u ≢ t = λ h. cc (ap p.loop_in_thread h, old, free) in
          set_at_other t (some l) p.loop_in_thread u apart ∙ old
    ];
  }

  construct-Owns : p.owner l ≡ none → Owns (construct t l p)
  unfolding construct
  construct-Owns fresh = elim (Option-cases (p.loop_in_thread t)) [
    | inl free ↦ rw free (claimed-IsOwned free fresh)
    | inr (m, taken) ↦ rw taken tt
  ]

  destroy-IsOwned : p.owner l ≡ some t → IsOwned (destroy t l p)
  unfolding destroy
  destroy-IsOwned mine = record {
    own = λ u m e. elim (same_or_not u t) [
      | inl at ↦ absurd (
          cc (
            sym (set_at_same t none p.loop_in_thread)
            ∙ ap (set_at t none p.loop_in_thread) (sym at)
            ∙ e))
      | inr other ↦
          let old = v.own u m (sym (set_at_other t none p.loop_in_thread u other) ∙ e) in
          let apart : m ≢ l = λ h. other (cc (ap p.owner h, old, mine)) in
          set_at_other l none p.owner m apart ∙ old
    ];
    known = λ u m e. elim (same_or_not m l) [
      | inl at ↦
          absurd (cc (sym (set_at_same l none p.owner) ∙ ap (set_at l none p.owner) (sym at) ∙ e))
      | inr other ↦
          let old = v.known u m (sym (set_at_other l none p.owner m other) ∙ e) in
          let apart : u ≢ t = λ h. other (cc (ap p.loop_in_thread h, old, v.known t l mine)) in
          set_at_other t none p.loop_in_thread u apart ∙ old
    ];
  }

-- However loops are made and destroyed: a thread's loop is the one whose `_tid` is the thread's, so
-- that no thread has two, unless a fatal log statement has ended the process.
Reach-Owns : {o : Option Process} → Reach o → Owns o
Reach-Owns here = record { own = λ t l e. absurd (cc e); known = λ t l e. absurd (cc e) }
Reach-Owns (constructs {p} t l r e) = construct-Owns p (Reach-Owns r) t l e
Reach-Owns (destroys {p} t l r e) = destroy-IsOwned p (Reach-Owns r) t l e
