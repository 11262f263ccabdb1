-- ===== src/Epoller/Mirror.antt =====
-- netlib/net/Epoller.cc: the kernel watches exactly what the channels that were added ask for.
use netlib.Base.{ℕ, ◌≡◌, ◌≢◌, refl, sym, ap, ◌∙◌, inl, inr, Option, none, some, same_or_not}
use netlib.Chnnel.{Mask, Flag, new, added, deleted, Chnnel}
use netlib.Epoller.{ctl_add, ctl_mod, ctl_del, Kernel, Epoller}

-- What the manual of `epoll_ctl` promises: when it succeeds it changes what is watched of this
-- descriptor and nothing else, and it changes or removes what is there without fail. To
-- add may fail.
pub record Sets (k : Kernel) (i : k.Interest) (j : k.Interest) (fd : ℕ) (v : Option (Mask × ℕ))
    : Type 0 where
  pub now : k.watched j fd ≡ v
  pub others : (g : ℕ) → g ≢ fd → k.watched j g ≡ k.watched i g

pub record KernelLaws (k : Kernel) : Type 0 where
  pub adds :
      (fd : ℕ) (m : Mask) (c : ℕ) (i j : k.Interest)
      → k.epoll_ctl ctl_add fd m c i ≡ some j
      → Sets k i j fd (some (m, c))
  pub modifies :
      (fd : ℕ) (m : Mask) (c : ℕ) (i : k.Interest) (v : Mask × ℕ)
      → k.watched i fd ≡ some v
      → (j : k.Interest) × (k.epoll_ctl ctl_mod fd m c i ≡ some j) × Sets k i j fd (some (m, c))
  pub deletes :
      (fd : ℕ) (m : Mask) (c : ℕ) (i : k.Interest) (v : Mask × ℕ)
      → k.watched i fd ≡ some v
      → (j : k.Interest) × (k.epoll_ctl ctl_del fd m c i ≡ some j) × Sets k i j fd none

module _ (k : Kernel) where
  -- What the map and the kernel hold of the channel `x` at address `c`, by its flag.
  abbrev pub Mirrored : Flag → (ℕ → Option ℕ) → k.Interest → ℕ → Chnnel → Type 0
  Mirrored new chnnels i c x = Unit
  Mirrored added chnnels i c x = (chnnels x.fd ≡ some c) × (k.watched i x.fd ≡ some (x.events, c))
  Mirrored deleted chnnels i c x = (chnnels x.fd ≡ some c) × (k.watched i x.fd ≡ none)

  pub record IsMirror (e : Epoller k) : Type 0 where
    pub each : (c : ℕ) → Mirrored (e.store c).flag e.chnnels e.interest c (e.store c)
    pub known :
        (fd c : ℕ) → e.chnnels fd ≡ some c → ((e.store c).fd ≡ fd) × ((e.store c).flag ≢ new)
    pub silent : (fd : ℕ) → e.chnnels fd ≡ none → k.watched e.interest fd ≡ none

  -- No other channel has the descriptor of `c`.
  abbrev pub Owns : ℕ → Epoller k → Type 0
  Owns c e = (d : ℕ) → e.chnnels (e.store c).fd ≡ some d → d ≡ c

  Mirrored_held :
      (f : Flag) (chnnels : ℕ → Option ℕ) (i : k.Interest) (c : ℕ) (x : Chnnel)
      → f ≢ new
      → Mirrored f chnnels i c x
      → chnnels x.fd ≡ some c
  Mirrored_held new chnnels i c x n h = absurd (n refl)
  Mirrored_held added chnnels i c x n h = h.0
  Mirrored_held deleted chnnels i c x n h = h.0

  -- `e'` differs from `e` in the channel `c`, now `x`, and in what the map and the kernel hold of
  -- its descriptor.
  pub record Differs (c : ℕ) (x : Chnnel) (e : Epoller k) (e' : Epoller k) : Type 0 where
    pub same_fd : x.fd ≡ (e.store c).fd
    pub changed : e'.store c ≡ x
    pub unchanged : (d : ℕ) → d ≢ c → e'.store d ≡ e.store d
    pub map_rest : (g : ℕ) → g ≢ x.fd → e'.chnnels g ≡ e.chnnels g
    pub kernel_rest : (g : ℕ) → g ≢ x.fd → k.watched e'.interest g ≡ k.watched e.interest g

  module _ (c : ℕ) (x : Chnnel) (e e' : Epoller k) (mirror : IsMirror e) (d : Differs c x e e')
      (owns : Owns c e) where
    elsewhere : (b : ℕ) → b ≢ c → e.chnnels (e.store b).fd ≡ some b → (e.store b).fd ≢ x.fd
    elsewhere b n h same = n (owns b (ap e.chnnels (sym d.same_fd) ∙ ap e.chnnels (sym same) ∙ h))

    moved :
        (f : Flag) (b : ℕ)
        → b ≢ c
        → Mirrored f e.chnnels e.interest b (e.store b)
        → Mirrored f e'.chnnels e'.interest b (e.store b)
    moved new b n h = tt
    moved added b n h = let g = elsewhere b n h.0 in (d.map_rest _ g ∙ h.0, d.kernel_rest _ g ∙ h.1)
    moved deleted b n h =
        let g = elsewhere b n h.0 in (d.map_rest _ g ∙ h.0, d.kernel_rest _ g ∙ h.1)

    pub differs-IsMirror :
        Mirrored x.flag e'.chnnels e'.interest c x
        → ((b : ℕ) → e'.chnnels x.fd ≡ some b → (b ≡ c) × (x.flag ≢ new))
        → (e'.chnnels x.fd ≡ none → k.watched e'.interest x.fd ≡ none)
        → IsMirror e'
    differs-IsMirror here keeps quiet = record {
      each = λ b. elim (same_or_not b c) [
        | inl same ↦ rw (same, d.changed) here
        | inr other ↦ rw (d.unchanged b other) (moved (e.store b).flag b other (mirror.each b))
      ];
      known = λ g b h. elim (same_or_not g x.fd) [
        | inl same ↦
            let (is_c, flag) = keeps b (ap e'.chnnels (sym same) ∙ h) in
            rw (is_c, d.changed) (sym same, flag)
        | inr other ↦
            let (fd, flag) = mirror.known g b (sym (d.map_rest g other) ∙ h) in
            let apart : b ≢ c =
              λ is_c. other (sym fd ∙ ap (λ a. (e.store a).fd) is_c ∙ sym d.same_fd) in
            rw (d.unchanged b apart) (fd, flag)
      ];
      silent = λ g h. elim (same_or_not g x.fd) [
        | inl same ↦ rw same (quiet (ap e'.chnnels (sym same) ∙ h))
        | inr other ↦ d.kernel_rest g other ∙ mirror.silent g (sym (d.map_rest g other) ∙ h)
      ];
    }
