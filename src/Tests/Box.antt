-- ===== src/Tests/Box.antt =====
-- A stand-in for the operating system that satisfies `Laws`: descriptors are handed out in turn,
-- and there is one interface.
use edgar_vpn.Prelude.{
  ℕ, suc, ◌≡◌, refl, ◌%◌, Bool, true, false, not, ◌&&◌, none, some, inl, inr, [], Bytes, ◌==◌,
  if◌then◌else◌, Bool-cases,
}
use edgar_vpn.System.{
  Call, IfrData, ifr_zero, ifr_flags, ifr_addr, Ifreq, Request, tunsetiff, siocsifaddr,
  siocsifnetmask, siocgifflags, siocsifflags, Interface, System,
}
use edgar_vpn.System.Hoare.{Ends}
use edgar_vpn.System.Laws.{Laws, Same, with, KeepsName, Configures}

pub record Box : Type 0 where
  pub last_errno : ℕ
  pub next : ℕ
  pub live : ℕ → Bool
  pub face : Interface

abbrev pub first_box : Box
first_box = record {
  last_errno = 0;
  next = 3;
  live = λ fd. fd == 1;
  face = record { address = 0; netmask = 0; up = false };
}

-- The next descriptor, or EMFILE where it is taken.
unfoldable pub hand_out : Call Box ℕ
hand_out s =
    if s.live s.next
    then (none, record s { last_errno = 24 })
    else (some s.next, record s { next = suc s.next; live = with s.next s.live })

unfoldable pub apply : Request → IfrData → Interface → Interface
apply siocsifaddr (ifr_addr a) face = record face { address = a }
apply siocsifnetmask (ifr_addr m) face = record face { netmask = m }
apply siocsifflags (ifr_flags flags) face = record face { up = flags % 2 == 1 }
apply _ _ face = face

abbrev pub box : System
box = record {
  State = Box;
  errno = λ s. s.last_errno;
  is_open = λ s. s.live;
  is_socket = λ s fd. true;
  interface = λ s name. s.face;
  set_errno = λ e s. record s { last_errno = e };
  open_tun = hand_out;
  socket = hand_out;
  ioctl = λ fd request ifr s. (some ifr, record s { face = apply request ifr.ifr_data s.face });
  bind = λ fd addr s. (some 0, s);
  close = λ fd s. record s { live = λ x. not (x == fd) && s.live x };
  read = λ fd room s. (some [], s);
  write = λ fd bytes s. (some 0, s);
  recvfrom = λ fd room s. (none, record s { last_errno = 4 });
  sendto = λ fd bytes addr s. (some 0, s);
  getaddrinfo = λ host s. (none, s);
  traffic = λ out s. s;
}

hand_out-Fresh :
    (s : Box)
    → Ends
        (λ s'. Same s.live s'.live)
        (λ fd s'. (s.live fd ≡ false) × Same (with fd s.live) s'.live)
        (hand_out s)
unfolding hand_out
hand_out-Fresh s = elim (Bool-cases (s.live s.next)) [
  | inl taken ↦ rw (taken, hand_out) (λ x. refl)
  | inr free ↦ rw (free, hand_out) (free, λ x. refl)
]

hand_out_any : (s : Box) → Ends (λ s'. Unit) (λ fd s'. true ≡ true) (hand_out s)
unfolding hand_out
hand_out_any s = elim (Bool-cases (s.live s.next)) [
  | inl taken ↦ rw (taken, hand_out) tt
  | inr free ↦ rw (free, hand_out) refl
]

apply-Configures :
    (request : Request) (name : Bytes) (d : IfrData) (s : Box)
    → Configures box request name d s (record s { face = apply request d s.face })
unfolding apply
apply-Configures tunsetiff name d s = tt
apply-Configures siocsifaddr name ifr_zero s = tt
apply-Configures siocsifaddr name (ifr_flags flags) s = tt
apply-Configures siocsifaddr name (ifr_addr a) s = refl
apply-Configures siocsifnetmask name ifr_zero s = tt
apply-Configures siocsifnetmask name (ifr_flags flags) s = tt
apply-Configures siocsifnetmask name (ifr_addr a) s = (refl, refl)
apply-Configures siocgifflags name d s = refl
apply-Configures siocsifflags name ifr_zero s = tt
apply-Configures siocsifflags name (ifr_flags flags) s = (refl, refl, refl)
apply-Configures siocsifflags name (ifr_addr a) s = tt

keeps_name : (request : Request) (ifr : Ifreq) → KeepsName box request ifr ifr
keeps_name tunsetiff ifr = tt
keeps_name siocsifaddr ifr = refl
keeps_name siocsifnetmask ifr = refl
keeps_name siocgifflags ifr = refl
keeps_name siocsifflags ifr = refl

pub box-Laws : Laws box
box-Laws = record {
  errno-set_errno = λ e s. refl;
  set_errno-Same = λ e s x. refl;
  open_tun-Fresh = hand_out-Fresh;
  socket-Fresh = hand_out-Fresh;
  socket_is_socket = hand_out_any;
  ioctl-Same = λ fd request ifr s x. refl;
  bind-Same = λ fd addr s x. refl;
  close_open = λ fd s is_open x. refl;
  traffic-Same = λ out s x. refl;
  ioctl-Configures = λ fd request ifr s.
      (keeps_name request ifr, apply-Configures request ifr.ifr_name ifr.ifr_data s, refl);
  close_socket = λ fd s is_socket name. refl;
}
