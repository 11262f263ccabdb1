-- ===== src/TcpServer/Destroyed.antt =====
-- netlib/net/TcpServer.cc: what the destructor leaves in the loops.
use netlib.Base.{
  ℕ, ◌≡◌, ◌∙◌, ap, same_or_not, ==_refl, ==_ne, if◌then◌else◌, ◌&&◌, ◌+◌, List, [], ◌∷◌, map, ◌==◌,
  inl, inr, arith,
}
use netlib.TcpServer.{Server, destroy}
use netlib.TcpServer.Lives.{count, listed, Sound}

-- How often `conncetDestoryed` goes to the loop `l` for the connection `i`.
abbrev pub sent : ℕ → ℕ → List (ℕ × ℕ) → ℕ
sent l i [] = 0
sent l i ((k, j) ∷ fs) = (if k == l && j == i then 1 else 0) + sent l i fs

sent-map :
    (f : ℕ → ℕ) (l i : ℕ) (is : List ℕ)
    → sent l i (map (λ j. (f j, j)) is) ≡ (if f i == l then count i is else 0)
sent-map f l i [] = ground arith
sent-map f l i (j ∷ js) =
    let rest = sent-map f l i js in
    elim (same_or_not j i) [
      | inl same ↦ rw (same, ==_refl i) (ground (arith, rest))
      | inr other ↦ rw (==_ne j i other) (ground (arith, rest))
    ]

-- The destructor sends `conncetDestoryed` once for each connection that was made and not yet removed,
-- to the connection's own loop, and for no other.
destroy-Sound :
    (s : Server)
    → Sound s
    → (l i : ℕ)
    → sent l i (destroy s) ≡ (if (s.conns i).loop == l then listed (s.conns i).life else 0)
unfolding destroy
destroy-Sound s v l i =
    sent-map (λ j. (s.conns j).loop) l i s.connections
    ∙ ap (λ n. if (s.conns i).loop == l then n else 0) (v.mapped i)
