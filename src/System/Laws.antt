-- ===== src/System/Laws.antt =====
-- What the manual pages of the system promise, as named hypotheses.
use edgar_vpn.Prelude.{ℕ, ◌%◌, ◌≡◌, Bool, true, false, not, ◌&&◌, ◌||◌, Bytes, List, ◌==◌}
use edgar_vpn.Peer.State.{SockAddr, Effect}
use edgar_vpn.System.{
  System, Ifreq, IfrData, ifr_addr, ifr_flags, Request, tunsetiff, siocsifaddr, siocsifnetmask,
  siocgifflags, siocsifflags,
}
use edgar_vpn.System.Hoare.{Ends}

-- The same descriptors are open.
abbrev pub Same : (ℕ → Bool) → (ℕ → Bool) → Type 0
Same f g = (fd : ℕ) → g fd ≡ f fd

-- One more is open.
abbrev pub with : ℕ → (ℕ → Bool) → ℕ → Bool
with fd f x = (x == fd) || f x

module _ (sys : System) where
  -- A descriptor that was not open, and is.
  abbrev pub Fresh : sys.State → ℕ → sys.State → Type 0
  Fresh s fd s' = (sys.is_open s fd ≡ false) × Same (with fd (sys.is_open s)) (sys.is_open s')

  -- What a request other than TUNSETIFF, for this name and with this data, does to the interface.
  abbrev pub Configures : Request → Bytes → IfrData → sys.State → sys.State → Type 0
  Configures siocsifaddr name (ifr_addr a) s s' = (sys.interface s' name).address ≡ a
  Configures siocsifnetmask name (ifr_addr m) s s' =
      ((sys.interface s' name).netmask ≡ m)
      × ((sys.interface s' name).address ≡ (sys.interface s name).address)
  Configures siocgifflags name data_before s s' = sys.interface s' name ≡ sys.interface s name
  Configures siocsifflags name (ifr_flags flags) s s' =
      ((sys.interface s' name).up ≡ (flags % 2 == 1))
      × ((sys.interface s' name).address ≡ (sys.interface s name).address)
      × ((sys.interface s' name).netmask ≡ (sys.interface s name).netmask)
  Configures _ name data_before s s' = Unit

  -- The name in the structure is kept, except by TUNSETIFF.
  abbrev pub KeepsName : Request → Ifreq → Ifreq → Type 0
  KeepsName tunsetiff ifr after = Unit
  KeepsName _ ifr after = after.ifr_name ≡ ifr.ifr_name

  pub record Laws : Type 0 where
    pub errno-set_errno : (e : ℕ) (s : sys.State) → sys.errno (sys.set_errno e s) ≡ e
    pub set_errno-Same :
        (e : ℕ) (s : sys.State) → Same (sys.is_open s) (sys.is_open (sys.set_errno e s))
    -- A new descriptor is one that was not open.
    pub open_tun-Fresh :
        (s : sys.State)
        → Ends
            (λ s'. Same (sys.is_open s) (sys.is_open s'))
            (λ fd s'. Fresh s fd s')
            (sys.open_tun s)
    pub socket-Fresh :
        (s : sys.State)
        → Ends (λ s'. Same (sys.is_open s) (sys.is_open s')) (λ fd s'. Fresh s fd s') (sys.socket s)
    pub socket_is_socket :
        (s : sys.State) → Ends (λ s'. Unit) (λ fd s'. sys.is_socket s' fd ≡ true) (sys.socket s)
    pub ioctl-Same :
        (fd : ℕ) (request : Request) (ifr : Ifreq) (s : sys.State)
        → Same (sys.is_open s) (sys.is_open (sys.ioctl fd request ifr s).1)
    pub bind-Same :
        (fd : ℕ) (addr : SockAddr) (s : sys.State)
        → Same (sys.is_open s) (sys.is_open (sys.bind fd addr s).1)
    -- Closing is promised for a descriptor that is open, and to no other.
    pub close_open :
        (fd : ℕ) (s : sys.State)
        → sys.is_open s fd ≡ true
        → (x : ℕ) → sys.is_open (sys.close fd s) x ≡ (not (x == fd) && sys.is_open s x)
    pub traffic-Same :
        (out : List Effect) (s : sys.State) → Same (sys.is_open s) (sys.is_open (sys.traffic out s))
    pub ioctl-Configures :
        (fd : ℕ) (request : Request) (ifr : Ifreq) (s : sys.State)
        → Ends
            (λ s'. Unit)
            (λ after s'.
              KeepsName request ifr after
              × Configures request ifr.ifr_name ifr.ifr_data s s'
              × (sys.is_socket s' fd ≡ sys.is_socket s fd))
            (sys.ioctl fd request ifr s)
    -- An interface does not depend on a socket.
    pub close_socket :
        (fd : ℕ) (s : sys.State)
        → sys.is_socket s fd ≡ true
        → (name : Bytes) → sys.interface (sys.close fd s) name ≡ sys.interface s name
