-- ===== src/Relays/Corner.antt =====
-- bingle_core/src/relay/corner_exclusion.rs.
use bingle_rust.Base.{
  ◌≡◌, ◌≢◌, ◌↔◌, refl, ap, Bool, true, false, ◌&&◌, List, [], ◌∷◌, any, All, if◌then◌else◌, arith,
}
use bingle_rust.Base.Eq.{◌=?◌}
use bingle_rust.Net.{SocketAddr, ip, is_loopback, sock_eq, ip_eq, sock_beq_iff, ip_beq_iff}

unfoldable pub is_excluded_corner : SocketAddr → List SocketAddr → Bool
is_excluded_corner candidate exclude =
    any
      (λ seen.
        if is_loopback (ip seen) && is_loopback (ip candidate)
        then seen =? candidate
        else ip seen =? ip candidate)
      exclude

-- The endpoint is another one, and has another address unless the candidate is on loopback.
abbrev Apart : SocketAddr → SocketAddr → Type 0
Apart candidate seen =
    (seen ≢ candidate) × (ip seen ≡ ip candidate → is_loopback (ip candidate) ≡ true)

-- A candidate is let through exactly when every endpoint of the list is another one, and none has
-- the candidate's address unless that is a loopback address.
is_excluded_corner_lem :
    (candidate : SocketAddr) (exclude : List SocketAddr)
    → (is_excluded_corner candidate exclude ≡ false) ↔ All (Apart candidate) exclude
unfolding is_excluded_corner any
is_excluded_corner_lem candidate [] = (λ h. tt, λ h. refl)
is_excluded_corner_lem candidate (seen ∷ exclude) =
    let rest = is_excluded_corner_lem candidate exclude in
    (
      (λ h. (
        (
          (λ e. ground (
            arith,
            sock_beq_iff seen candidate,
            ip_beq_iff (ip seen) (ip candidate),
            ap ip e,
            ap (λ a. is_loopback (ip a)) e,
          )),
          (λ e. ground (arith, ip_beq_iff (ip seen) (ip candidate))),
        ),
        rest.0 (ground arith),
      )),
      (λ h. ground (
        arith,
        rest.1 h.1,
        h.0.0,
        h.0.1,
        sock_beq_iff seen candidate,
        ip_beq_iff (ip seen) (ip candidate),
      )),
    )
