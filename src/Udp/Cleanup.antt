-- ===== src/Udp/Cleanup.antt =====
-- src/udp.c: the descriptors behind `udp_bind` and `udp_close`.
use mathlib.Core.Path.{subst}
use edgar_vpn.Prelude.{false, ℕ, ◌≡◌, Bool, Option, none, some, inl, inr, Option-cases}
use edgar_vpn.System.{System}
use edgar_vpn.System.Hoare.{Ends, Triple, bind-Triple}
use edgar_vpn.System.Laws.{Laws}
use edgar_vpn.System.Cleanup.{Back, Held, Holds, or_close-Held, Held-close, socket-Held}
use edgar_vpn.Udp.{UdpSocket, udp_request, opened_udp, udp_bind, udp_close}

module _ (sys : System) (laws : Laws sys) (f : ℕ → Bool) where
  udp_request-Held :
      (port : ℕ) → Triple (Back sys f) (Back sys f) (udp_request sys port) (Held sys f)
  unfolding udp_request
  udp_request-Held port = bind-Triple (socket-Held sys f laws) (λ fd.
      bind-Triple (or_close-Held sys f laws _ (laws.bind-Same fd _))
        (λ bound. record { run = λ s held. held }))

  opened_udp-Holds :
      (r : Option ℕ × sys.State)
      → Ends (Back sys f) (Held sys f) r
      → let o = opened_udp sys r in Holds sys f o.1.0.fd o.1.1 × (o.0 ≡ false → Back sys f o.1.1)
  unfolding opened_udp
  opened_udp-Holds (none, s) v = (v, λ e. v)
  opened_udp-Holds (some fd, s) v = (v, λ e. cc)

  -- The socket that `udp_bind` leaves holds its descriptor besides those that were open, or none.
  pub udp_bind-Holds :
      (port : ℕ) (s : sys.State)
      → Back sys f s
      → let o = udp_bind sys port s in Holds sys f o.1.0.fd o.1.1 × (o.0 ≡ false → Back sys f o.1.1)
  unfolding udp_bind
  udp_bind-Holds port s back =
      opened_udp-Holds (udp_request sys port s) ((udp_request-Held port).run s back)

  pub udp_close-Back :
      (sock : UdpSocket) (s : sys.State)
      → Holds sys f sock.fd s
      → Back sys f (udp_close sys sock s).1
  unfolding udp_close
  udp_close-Back sock s holds = elim (Option-cases sock.fd) [
    | inl shut ↦ rw (shut, udp_close) (subst (λ d. Holds sys f d s) shut holds)
    | inr (fd, is_open) ↦
        rw (is_open, udp_close)
          (Held-close sys f laws fd s (subst (λ d. Holds sys f d s) is_open holds))
  ]
