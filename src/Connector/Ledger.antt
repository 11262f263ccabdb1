-- ===== src/Connector/Ledger.antt =====
-- netlib/net/Connector.cc: the descriptors that a connector holds and what its effects do to them.
use netlib.Base.{
  ℕ, ◌+◌, ◌≤◌, ◌≡◌, ◌⊎◌, Bool, true, false, ◌==◌, if◌then◌else◌, Option, none, some, List, [], ◌∷◌,
  All,
}
use netlib.Connector.{
  State, disconnected, connecting, connected, Effect, opened, closed, handed_over, retry_after,
  Connector,
}

abbrev one : ℕ → ℕ → ℕ
one g fd = if g == fd then 1 else 0

-- How often `fd` is the descriptor of the attempt under way.
abbrev held_at : State → Option ℕ → ℕ → ℕ
held_at connecting (some g) fd = one g fd
held_at connecting none fd = 0
held_at disconnected o fd = 0
held_at connected o fd = 0

abbrev pub held : Connector → ℕ → ℕ
held c fd = held_at c.state c.chnnel fd

-- How often the effects create `fd`, and how often they close it or give it to the user.
abbrev opens : ℕ → List Effect → ℕ
opens fd [] = 0
opens fd (opened g ∷ es) = one g fd + opens fd es
opens fd (closed g ∷ es) = opens fd es
opens fd (handed_over g ∷ es) = opens fd es
opens fd (retry_after d ∷ es) = opens fd es

abbrev ends : ℕ → List Effect → ℕ
ends fd [] = 0
ends fd (opened g ∷ es) = ends fd es
ends fd (closed g ∷ es) = one g fd + ends fd es
ends fd (handed_over g ∷ es) = one g fd + ends fd es
ends fd (retry_after d ∷ es) = ends fd es

-- How often the effects give a socket to the user.
abbrev pub hands : List Effect → ℕ
hands [] = 0
hands (opened g ∷ es) = hands es
hands (closed g ∷ es) = hands es
hands (handed_over g ∷ es) = 1 + hands es
hands (retry_after d ∷ es) = hands es

abbrev is_closing : Effect → Bool
is_closing (opened g) = false
is_closing (closed g) = true
is_closing (handed_over g) = false
is_closing (retry_after d) = false

-- While an attempt is under way there is a channel and the poller watches it; otherwise it does not.
abbrev pub Attached : State → Option ℕ → Bool → Type 0
Attached connecting (some fd) r = r ≡ true
Attached connecting none r = true ≡ false
Attached disconnected o r = r ≡ false
Attached connected o r = r ≡ false

pub record IsValid (c : Connector) : Type 0 where
  pub attached : Attached c.state c.chnnel c.registered
  pub at_least : 500 ≤ c.retry_delay_ms
  pub at_most : c.retry_delay_ms ≤ 30000

pub record Good (c : Connector) (r : Connector × List Effect) : Type 0 where
  pub valid : IsValid r.0
  pub balanced : (fd : ℕ) → held c fd + opens fd r.1 ≡ ends fd r.1 + held r.0 fd
  pub calm : r.0.connect ≡ false → All (λ e. is_closing e ≡ true) r.1
  pub reported : (hands r.1 ≡ 0) ⊎ ((hands r.1 ≡ 1) × (r.0.state ≡ connected))
