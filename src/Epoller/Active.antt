-- ===== src/Epoller/Active.antt =====
-- netlib/net/Epoller.cc: `poll` and `fillActiveChnnels`.
use netlib.Base.{
  ℕ, ◌≤◌, ◌<◌, arith, All-map, ◌≡◌, ◌≢◌, refl, sym, ap, ◌∙◌, inl, inr, not, ◌&&◌, ◌==◌, ==_refl,
  ==_ne, Bool-cases, Option-cases, Option, some, List, [], ◌∷◌, map, All, length, set_at,
  set_at_same, set_at_other, same_or_not,
}
use netlib.Chnnel.{Mask, Flag, new, added, deleted, Chnnel}
use netlib.Epoller.{Kernel, Epoller, fill_active_chnnels, poll}
use netlib.Epoller.Mirror.{Mirrored, IsMirror}

module _ (k : Kernel) where
  abbrev pub Event : Type 0
  Event = ℕ × Mask

  abbrev pointer : Event → ℕ
  pointer (c, m) = c

  -- No two events are of one channel, as in what `epoll_wait` returns.
  abbrev pub Apart : List Event → Type 0
  Apart [] = Unit
  Apart ((c, m) ∷ rest) = All (λ (v : Event). v.0 ≢ c) rest × Apart rest

  fill_untouched :
      (c : ℕ) (events : List Event) (e : Epoller k)
      → All (λ (v : Event). v.0 ≢ c) events
      → (fill_active_chnnels k events e).0.store c ≡ e.store c
  unfolding fill_active_chnnels
  fill_untouched c [] e a = refl
  fill_untouched c ((b, m) ∷ rest) e a =
      fill_untouched c rest _ a.1
      ∙ set_at_other b (record (e.store b) { revents = m }) e.store c (λ h. a.0 (sym h))

  fill-pointers :
      (events : List Event) (e : Epoller k)
      → (fill_active_chnnels k events e).1 ≡ map pointer events
  unfolding fill_active_chnnels
  fill-pointers [] e = refl
  fill-pointers ((c, m) ∷ rest) e = ap (λ cs. c ∷ cs) (fill-pointers rest _)

  fill-size :
      (events : List Event) (e : Epoller k)
      → (fill_active_chnnels k events e).0.events_size ≡ e.events_size
  unfolding fill_active_chnnels
  fill-size [] e = refl
  fill-size ((c, m) ∷ rest) e = fill-size rest _

  -- Nothing changes but what happened on the channels.
  pub record Alike (x y : Chnnel) : Type 0 where
    pub fd : y.fd ≡ x.fd
    pub events : y.events ≡ x.events
    pub flag : y.flag ≡ x.flag

  pub record OnlyRevents (e e' : Epoller k) : Type 0 where
    pub store : (c : ℕ) → Alike (e.store c) (e'.store c)
    pub same_map : e'.chnnels ≡ e.chnnels
    pub same_kernel : e'.interest ≡ e.interest

  Alike-refl : (x : Chnnel) → Alike x x
  Alike-refl x = record { fd = refl; events = refl; flag = refl }

  Alike-trans : (x y z : Chnnel) → Alike x y → Alike y z → Alike x z
  Alike-trans x y z a b = record {
    fd = b.fd ∙ a.fd;
    events = b.events ∙ a.events;
    flag = b.flag ∙ a.flag;
  }

  set_revents-Alike :
      (c : ℕ) (m : Mask) (store : ℕ → Chnnel) (b : ℕ)
      → Alike (store b) (set_at c (record (store c) { revents = m }) store b)
  set_revents-Alike c m store b = elim (same_or_not b c) [
    | inl same ↦ rw (same, ==_refl c) (record { fd = refl; events = refl; flag = refl })
    | inr other ↦ rw (==_ne b c other) (Alike-refl (store b))
  ]

  fill-OnlyRevents :
      (events : List Event) (e : Epoller k) → OnlyRevents e (fill_active_chnnels k events e).0
  unfolding fill_active_chnnels
  fill-OnlyRevents [] e = record {
    store = λ c. Alike-refl (e.store c);
    same_map = refl;
    same_kernel = refl;
  }
  fill-OnlyRevents ((c, m) ∷ rest) e =
      let next =
        fill-OnlyRevents rest
          (record e { store = set_at c (record (e.store c) { revents = m }) e.store }) in
      record {
        store = λ b. Alike-trans _ _ _ (set_revents-Alike c m e.store b) (next.store b);
        same_map = next.same_map;
        same_kernel = next.same_kernel;
      }

  fill-revents :
      (events : List Event) (e : Epoller k)
      → Apart events
      → All (λ (v : Event). ((fill_active_chnnels k events e).0.store v.0).revents ≡ v.1) events
  unfolding fill_active_chnnels
  fill-revents [] e a = tt
  fill-revents ((c, m) ∷ rest) e a = (
    ap (λ (x : Chnnel). x.revents)
        (fill_untouched c rest _ a.0 ∙ set_at_same c (record (e.store c) { revents = m }) e.store),
    fill-revents rest _ a.1,
  )

  Mirrored_alike :
      (f : Flag) (chnnels : ℕ → Option ℕ) (i : k.Interest) (c : ℕ) (x y : Chnnel)
      → Alike x y
      → Mirrored k f chnnels i c x
      → Mirrored k f chnnels i c y
  Mirrored_alike new chnnels i c x y a h = tt
  Mirrored_alike added chnnels i c x y a h = rw (a.fd, a.events) h
  Mirrored_alike deleted chnnels i c x y a h = rw a.fd h

  Mirrored_moved :
      (f g : Flag) (chnnels chnnels' : ℕ → Option ℕ) (i j : k.Interest) (c : ℕ) (x y : Chnnel)
      → g ≡ f
      → chnnels' ≡ chnnels
      → j ≡ i
      → Alike x y
      → Mirrored k f chnnels i c x
      → Mirrored k g chnnels' j c y
  Mirrored_moved f g chnnels chnnels' i j c x y p q r a h =
      rw (p, q, r) (Mirrored_alike f chnnels i c x y a h)

  OnlyRevents-IsMirror : (e e' : Epoller k) → OnlyRevents e e' → IsMirror k e → IsMirror k e'
  OnlyRevents-IsMirror e e' o v = record {
    each = λ c.
        let a = o.store c in
        Mirrored_moved _ _ _ _ _ _ c _ _ a.flag o.same_map o.same_kernel a (v.each c);
    known = λ fd c h.
        let (same, not_new) = v.known fd c (sym (ap (λ f. f fd) o.same_map) ∙ h) in
        ((o.store c).fd ∙ same, λ n. not_new (sym (o.store c).flag ∙ n));
    silent = λ fd h.
        ap (λ i. k.watched i fd) o.same_kernel ∙ v.silent fd (sym (ap (λ f. f fd) o.same_map) ∙ h);
  }

  -- The pointer of an event is that of a watched descriptor, as the manual of `epoll_wait` says.
  abbrev pub Delivered : Epoller k → Event → Type 0
  Delivered e v = (fd : ℕ) × (m : Mask) × (k.watched e.interest fd ≡ some (m, v.0))

  entry_watched :
      (f : Flag) (chnnels : ℕ → Option ℕ) (i : k.Interest) (b c : ℕ) (x : Chnnel) (m : Mask)
      → f ≢ new
      → Mirrored k f chnnels i b x
      → k.watched i x.fd ≡ some (m, c)
      → (f ≡ added) × (b ≡ c) × (chnnels x.fd ≡ some b)
  entry_watched new chnnels i b c x m n h w = absurd (n refl)
  entry_watched added chnnels i b c x m n h w = (refl, cc (h.1, w), h.0)
  entry_watched deleted chnnels i b c x m n h w = absurd (cc (h.1, w))

  watched-added :
      (e : Epoller k)
      → IsMirror k e
      → (v : Event) → Delivered e v
      → ((e.store v.0).flag ≡ added) × (e.chnnels (e.store v.0).fd ≡ some v.0)
  watched-added e mirror v (fd, m, w) = elim (Option-cases (e.chnnels fd)) [
    | inl absent ↦ absurd (cc (mirror.silent fd absent, w))
    | inr (b, there) ↦
        let (same, not_new) = mirror.known fd b there in
        let (is_added, is_v, held) =
          entry_watched (e.store b).flag e.chnnels e.interest b v.0 (e.store b) m not_new
            (mirror.each b) (ap (k.watched e.interest) same ∙ w) in
        (
          sym (ap (λ a. (e.store a).flag) is_v) ∙ is_added,
          sym (ap (λ a. e.chnnels (e.store a).fd) is_v) ∙ held ∙ ap some is_v,
        )
  ]

  pub record Served (events : List Event) (e : Epoller k) (r : Epoller k × List ℕ) : Type 0 where
    pub active : r.1 ≡ map pointer events
    pub revents : All (λ (v : Event). (r.0.store v.0).revents ≡ v.1) events
    pub registered :
        All
          (λ (v : Event).
            ((r.0.store v.0).flag ≡ added) × (r.0.chnnels (r.0.store v.0).fd ≡ some v.0))
          events
    pub is_mirror : IsMirror k r.0
    pub only_revents : OnlyRevents e r.0
    pub has_room : length events < r.0.events_size

  module _ (events : List Event) (e : Epoller k) (mirror : IsMirror k e)
      (delivered : All (Delivered e) events) where
    abbrev filled : ℕ → Epoller k
    filled n = record (fill_active_chnnels k events e).0 { events_size = n }

    filled-OnlyRevents : (n : ℕ) → OnlyRevents e (filled n)
    filled-OnlyRevents n =
        let o = fill-OnlyRevents events e in
        record { store = o.store; same_map = o.same_map; same_kernel = o.same_kernel }

    filled-Served :
        (n : ℕ)
        → Apart events
        → length events < n
        → Served events e (filled n, (fill_active_chnnels k events e).1)
    filled-Served n apart room =
        let o = filled-OnlyRevents n in
        record {
          active = fill-pointers events e;
          revents = fill-revents events e apart;
          registered =
              All-map
                (λ v d.
                  let (is_added, held) = watched-added e mirror v d in
                  let a = o.store v.0 in
                  (
                    a.flag ∙ is_added,
                    ap (filled n).chnnels a.fd ∙ ap (λ f. f (e.store v.0).fd) o.same_map ∙ held,
                  ))
                events delivered;
          is_mirror = OnlyRevents-IsMirror e (filled n) o mirror;
          only_revents = o;
          has_room = room;
        }

    -- `poll`, when `epoll_wait` returned as many events as there was room for, or fewer, each of a
    -- watched descriptor and no two of one channel: exactly these channels become
    -- active, in this order, each is told what happened on it and is still registered, so that no
    -- dangling pointer is among them; map, flags and kernel stay in step, and there is room for one
    -- event more at the next call.
    pub poll-Served :
        Apart events
        → length events ≤ e.events_size
        → 0 < e.events_size
        → Served events e (poll k (some events) e)
    unfolding poll
    poll-Served apart fits some_room =
        let same = fill-size events e in
        elim (Bool-cases (length events == e.events_size && not (length events == 0))) [
          | inl full ↦ rw full (filled-Served _ apart (omega arith))
          | inr not_full ↦ rw not_full (filled-Served _ apart (ground (arith, not_full)))
        ]
