-- ===== src/Tun/Configured.antt =====
-- src/tun.c: what `tun_configure` makes of the interface.
use edgar_vpn.Prelude.{
  ℕ, ◌%◌, ◌-◌, ◌≡◌, refl, sym, ap, ◌∙◌, true, Option, none, some, inl, inr, Bytes, bit_or, take,
  ◌==◌, Option-cases, arith,
}
use mathlib.Core.Path.{subst}
use edgar_vpn.Prelude.Bits.{or_lowest}
use edgar_vpn.Config.Values.{Inet}
use edgar_vpn.Config.Load.{ifnamsiz}
use edgar_vpn.System.{
  System, Ifreq, ifr_addr, ifr_flags, Request, siocsifaddr, siocsifnetmask, siocgifflags,
  siocsifflags, or_close,
}
use edgar_vpn.System.Hoare.{Ends, Triple, bind-Triple, or_close-Triple}
use edgar_vpn.System.Laws.{Laws, KeepsName, Configures}
use edgar_vpn.Tun.{TunDevice, set_ifreq_ipv4, tun_configure, flags_of, iff_up_running}

or_up_running : (flags : ℕ) → (bit_or flags iff_up_running % 2 == 1) ≡ true
or_up_running flags = ground (arith, or_lowest flags iff_up_running)

module _ (sys : System) (laws : Laws sys) where
  abbrev Anything : sys.State → Type 0
  Anything s = Unit

  Ends-imply :
      {A : Type 0} {Q R : A → sys.State → Type 0} (r : Option A × sys.State)
      → Ends Anything Q r
      → ((a : A) (s : sys.State) → Q a s → R a s)
      → Ends Anything R r
  Ends-imply (none, s) v imply = tt
  Ends-imply (some a, s) v imply = imply a s v

  abbrev Left : ℕ → Request → Ifreq → sys.State → Ifreq → sys.State → Type 0
  Left fd request ifr s after s' =
      KeepsName sys request ifr after
      × Configures sys request ifr.ifr_name ifr.ifr_data s s'
      × (sys.is_socket s' fd ≡ sys.is_socket s fd)

  Ends-some :
      {A : Type 0} (R : sys.State → Type 0) (a : A) (r : Option A × sys.State)
      → r.0 ≡ some a
      → Ends Anything (λ b. R) r
      → R r.1
  Ends-some R a (none, s) e v = cc
  Ends-some R a (some b, s) e v = v

  ioctl-Triple :
      {P : sys.State → Type 0} {Q : Ifreq → sys.State → Type 0} (fd : ℕ) (request : Request)
      (ifr : Ifreq)
      → ((s s' : sys.State) (after : Ifreq) → P s → Left fd request ifr s after s' → Q after s')
      → Triple Anything P (or_close sys fd (sys.ioctl fd request ifr)) Q
  ioctl-Triple fd request ifr step =
      or_close-Triple sys fd
        (record {
          run = λ s p.
              Ends-imply (sys.ioctl fd request ifr s) (laws.ioctl-Configures fd request ifr s)
                (λ after s' v. step s s' after p v);
        })
        (λ s v. tt)

  set_ifreq_ipv4-Triple :
      {P : sys.State → Type 0} (fd : ℕ) (inet : Inet) (text : Bytes)
      → Triple Anything P
          (or_close sys fd (set_ifreq_ipv4 sys inet text))
          (λ a s. (inet.inet_pton text ≡ some a) × P s)
  unfolding set_ifreq_ipv4
  set_ifreq_ipv4-Triple fd inet text =
      or_close-Triple sys {E = Anything} fd
        (record {
          run = λ s p. elim (Option-cases (inet.inet_pton text)) [
            | inl bad ↦ rw (bad, set_ifreq_ipv4) tt
            | inr (a, good) ↦ rw (good, set_ifreq_ipv4) (refl, p)
          ];
        })
        (λ s v. tt)

  module _ (inet : Inet) (name ipv4_address netmask : Bytes) where
    -- The socket is there, and the address is set.
    abbrev Addressed : ℕ → sys.State → Type 0
    Addressed sock s =
        (sys.is_socket s sock ≡ true)
        × (inet.inet_pton ipv4_address ≡ some (sys.interface s name).address)

    abbrev Masked : ℕ → sys.State → Type 0
    Masked sock s =
        Addressed sock s × (inet.inet_pton netmask ≡ some (sys.interface s name).netmask)

    abbrev Raised : sys.State → Type 0
    Raised s =
        (inet.inet_pton ipv4_address ≡ some (sys.interface s name).address)
        × (inet.inet_pton netmask ≡ some (sys.interface s name).netmask)
        × ((sys.interface s name).up ≡ true)

  tun_configure-Raised :
      (inet : Inet) (dev : TunDevice) (ipv4_address netmask : Bytes)
      → Triple Anything Anything
          (tun_configure sys inet dev ipv4_address netmask)
          (λ done. Raised inet (take (ifnamsiz - 1) dev.name) ipv4_address netmask)
  unfolding tun_configure
  tun_configure-Raised inet dev ipv4_address netmask =
      let name = take (ifnamsiz - 1) dev.name in
      let At : ℕ → sys.State → Type 0 = Addressed inet name ipv4_address netmask in
      let Both : ℕ → sys.State → Type 0 = Masked inet name ipv4_address netmask in
      bind-Triple {Q = λ sock s. sys.is_socket s sock ≡ true}
        (record { run = λ s v. laws.socket_is_socket s })
        (λ sock. bind-Triple (set_ifreq_ipv4-Triple sock inet ipv4_address) (λ addr.
          bind-Triple {Q = λ ifr s. (ifr.ifr_name ≡ name) × At sock s}
            (ioctl-Triple sock siocsifaddr _
              (λ s s' after p (named, is, kept). (named, (kept ∙ p.1, p.0 ∙ ap some (sym is)))))
            (λ ifr. bind-Triple (set_ifreq_ipv4-Triple sock inet netmask) (λ mask.
              bind-Triple {Q = λ masked s. (masked.ifr_name ≡ name) × Both sock s}
                (ioctl-Triple sock siocsifnetmask _ (λ s s' after p (named, is, kept).
                  let v =
                    subst (λ n. Configures sys siocsifnetmask n (ifr_addr mask) s s') p.1.0 is in
                  (
                    named ∙ p.1.0,
                    ((kept ∙ p.1.1.0, p.1.1.1 ∙ ap some (sym v.1)), p.0 ∙ ap some (sym v.0)),
                  )))
                (λ masked.
                  bind-Triple {Q = λ got s. (got.ifr_name ≡ name) × Both sock s}
                    (ioctl-Triple sock siocgifflags _ (λ s s' after p (named, is, kept).
                      let v = subst (λ n. sys.interface s' n ≡ sys.interface s n) p.0 is in
                      (
                        named ∙ p.0,
                        (
                          (kept ∙ p.1.0.0, p.1.0.1 ∙ ap (λ i. some i.address) (sym v)),
                          p.1.1 ∙ ap (λ i. some i.netmask) (sym v),
                        ),
                      )))
                    (λ got.
                      bind-Triple
                        {Q = λ raised s.
                          (sys.is_socket s sock ≡ true) × Raised inet name ipv4_address netmask s}
                        (ioctl-Triple sock siocsifflags _ (λ s s' after p (named, is, kept).
                          let flags = bit_or (flags_of got.ifr_data) iff_up_running in
                          let v =
                            subst (λ n. Configures sys siocsifflags n (ifr_flags flags) s s') p.0
                              is in
                          (
                            kept ∙ p.1.0.0,
                            (
                              p.1.0.1 ∙ ap some (sym v.1),
                              p.1.1 ∙ ap some (sym v.2),
                              v.0 ∙ or_up_running (flags_of got.ifr_data),
                            ),
                          )))
                        (λ raised. record {
                          run = λ s p. let same = laws.close_socket sock s p.0 name in rw same p.1;
                        })))))))

-- Where `tun_configure` succeeds, the interface of the device's name has the address and the
-- netmask of the two texts, and it is up.
pub tun_configure_lem :
    (sys : System) (laws : Laws sys) (inet : Inet) (dev : TunDevice) (ipv4_address netmask : Bytes)
    (s : sys.State)
    → (tun_configure sys inet dev ipv4_address netmask s).0 ≡ some 0
    → let i =
        sys.interface
          (tun_configure sys inet dev ipv4_address netmask s).1
          (take (ifnamsiz - 1) dev.name) in
      (inet.inet_pton ipv4_address ≡ some i.address)
      × (inet.inet_pton netmask ≡ some i.netmask)
      × (i.up ≡ true)
tun_configure_lem sys laws inet dev ipv4_address netmask s done =
    Ends-some sys laws (Raised sys laws inet (take (ifnamsiz - 1) dev.name) ipv4_address netmask) 0
      (tun_configure sys inet dev ipv4_address netmask s) done
      ((tun_configure-Raised sys laws inet dev ipv4_address netmask).run s tt)
