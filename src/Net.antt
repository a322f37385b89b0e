-- ===== src/Net.antt =====
-- Addresses and endpoints: `std::net` as far as the program uses it, and
-- bingle_core/src/api/network_endpoint.rs in the child.
pub mod Endpoint
use bingle_rust.Base.{ℕ, ◌/◌, ◌^◌, ◌≡◌, refl, ◌↔◌, Bool, true, false, ◌==◌, if◌then◌else◌, arith}
use bingle_rust.Base.Eq.{Eq}

-- `IpAddr`: an IPv4 address as a u32, an IPv6 address as a u128.
pub data IpAddr : Type 0 where
  v4 : ℕ → IpAddr
  v6 : ℕ → IpAddr

-- `SocketAddr`: address and port; an IPv6 one has a flow label and a scope too.
pub data SocketAddr : Type 0 where
  sock4 : ℕ → ℕ → SocketAddr
  sock6 : ℕ → ℕ → ℕ → ℕ → SocketAddr

unfoldable pub ip : SocketAddr → IpAddr
ip (sock4 a port) = v4 a
ip (sock6 a port flowinfo scope) = v6 a

-- 127.0.0.0/8 and ::1.
unfoldable pub is_loopback : IpAddr → Bool
is_loopback (v4 a) = a / 2 ^ 24 == 127
is_loopback (v6 a) = a == 1

unfoldable pub ip_beq : IpAddr → IpAddr → Bool
ip_beq (v4 a) (v4 b) = a == b
ip_beq (v6 a) (v6 b) = a == b
ip_beq _ _ = false

pub ip_beq_iff : (a b : IpAddr) → (ip_beq a b ≡ true) ↔ (a ≡ b)
unfolding ip_beq
ip_beq_iff (v4 a) (v4 b) = ground arith
ip_beq_iff (v6 a) (v6 b) = ground arith
ip_beq_iff _ _ = (λ h. cc, λ h. cc)

instance abbrev pub ip_eq : Eq IpAddr
ip_eq = record { beq = ip_beq; beq_iff = ip_beq_iff }

unfoldable pub sock_beq : SocketAddr → SocketAddr → Bool
sock_beq (sock4 a p) (sock4 b q) = if a == b then p == q else false
sock_beq (sock6 a p f s) (sock6 b q g t) =
    if a == b then if p == q then if f == g then s == t else false else false else false
sock_beq _ _ = false

pub sock_beq_iff : (a b : SocketAddr) → (sock_beq a b ≡ true) ↔ (a ≡ b)
unfolding sock_beq
sock_beq_iff (sock4 a p) (sock4 b q) = ground arith
sock_beq_iff (sock6 a p f s) (sock6 b q g t) = ground arith
sock_beq_iff _ _ = (λ h. cc, λ h. cc)

instance abbrev pub sock_eq : Eq SocketAddr
sock_eq = record { beq = sock_beq; beq_iff = sock_beq_iff }
