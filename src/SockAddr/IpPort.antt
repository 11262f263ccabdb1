-- ===== src/SockAddr/IpPort.antt =====
-- netlib/net/SockAddr.cc: the text of an address and its port.
use netlib.Base.{
  both, ℕ, ◌-◌, ◌≤◌, ◌<◌, ◌≡◌, ◌↔◌, refl, sym, ap, Bool-cases, inl, inr, ==_iff, ==_refl, ◌&&◌, ◌∙◌,
  true, false, lt→ltb, ◌==◌, Option, some, [], ◌∷◌, ◌++◌, length, take_all, arith,
}
use netlib.Buffer.Endian.{be_value-be_bytes}
use netlib.LogStream.{convert}
use netlib.LogStream.Decimal.{length-convert_lt}
use netlib.SockAddr.{
  Bytes, SockAddr, stored, same, is_self_connect, construct_ip, tp_port, to_ip_in, to_ip_port_in,
  to_ip_port, network_to_host16, host_to_network16, af_inet,
}

network-host : (port : ℕ) → port < 65536 → network_to_host16 (host_to_network16 port) ≡ port
network-host port h = be_value-be_bytes 2 port (omega arith)

construct_ip-of :
    (inet_aton : Bytes → Option Bytes) (ip a : Bytes) (port : ℕ)
    → inet_aton ip ≡ some a
    → construct_ip inet_aton ip port
      ≡ record { family = af_inet; port = host_to_network16 port; addr = a }
unfolding construct_ip
construct_ip-of inet_aton ip a port e =
    ap
      (λ o. record {
        family = af_inet;
        port = host_to_network16 port;
        addr = stored o (0 ∷ 0 ∷ 0 ∷ 0 ∷ []);
      })
      e

module _ (inet_aton : Bytes → Option Bytes) (inet_ntop : Bytes → Bytes)
    -- A dotted quad has 15 characters at most.
    (inet_ntop-short : (a : Bytes) → length a ≡ 4 → length (inet_ntop a) ≤ 15) where
  -- An address of four bytes, made from its text: port and text come back from it, whole and without a
  -- failed assertion.
  to_ip_port-construct_ip :
      (ip a : Bytes) (port : ℕ)
      → inet_aton ip ≡ some a
      → length a ≡ 4
      → port < 65536
      → (to_ip_port inet_ntop (construct_ip inet_aton ip port)
          ≡ some (inet_ntop a ++ 58 ∷ convert false port))
        × (tp_port (construct_ip inet_aton ip port) ≡ port)
  unfolding to_ip_port to_ip_port_in to_ip_in tp_port
  to_ip_port-construct_ip ip a port e four h =
      let back = network-host port h in
      let short = inet_ntop-short a four in
      let digits = length-convert_lt 4 port (omega arith) in
      let room =
        take_all (64 - length (inet_ntop a) - 1) (58 ∷ convert false port)
          (omega (arith, short, digits)) in
      (
        rw
            (
              construct_ip-of inet_aton ip a port e,
              back,
              lt→ltb (length (inet_ntop a)) 64 (omega arith),
              room,
            )
            refl,
        ap tp_port (construct_ip-of inet_aton ip a port e) ∙ back,
      )

same-equal : (xs ys : Bytes) → same xs ys ≡ true → xs ≡ ys
same-equal [] [] h = refl
same-equal [] (y ∷ ys) h = absurd (cc h)
same-equal (x ∷ xs) [] h = absurd (cc h)
same-equal (x ∷ xs) (y ∷ ys) h = elim (Bool-cases (x == y)) [
  | inl at ↦
      let head : x ≡ y = (==_iff x y).0 at in
      let rest : same xs ys ≡ true = ap (λ b. b && same xs ys) (sym at) ∙ h in
      cc (head, same-equal xs ys rest)
  | inr off ↦ absurd (cc (ap (λ b. b && same xs ys) (sym off) ∙ h))
]

same_refl : (xs : Bytes) → same xs xs ≡ true
same_refl [] = refl
same_refl (x ∷ xs) = rw (==_refl x) (same_refl xs)

-- A connection counts as one with itself where both ends have the address and the port of an IPv4
-- address, and only there.
is_self_connect-Equal :
    (local peer : SockAddr)
    → local.family ≡ af_inet
    → is_self_connect local peer ≡ true ↔ (local.addr ≡ peer.addr) × (local.port ≡ peer.port)
unfolding is_self_connect
is_self_connect-Equal local peer inet = rw inet (
  λ h.
      let (x, y) = both (same local.addr peer.addr) (same local.port peer.port) h in
      (same-equal local.addr peer.addr x, same-equal local.port peer.port y),
  λ (x, y). rw (x, y, same_refl peer.addr, same_refl peer.port) refl,
)
