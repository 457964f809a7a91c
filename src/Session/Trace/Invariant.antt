-- ===== src/Session/Trace/Invariant.antt =====
-- What every operation keeps of a session and of the counters that were used so far.
use edgar_vpn.Prelude.{
  ℕ, suc, ◌≤◌, ◌<◌, ◌≡◌, refl, ◌⊎◌, ◌↔◌, inl, inr, Bool, true, false, List, [], ◌∷◌, Bytes, arith,
  elem, Bool-cases,
}
use edgar_vpn.Sodium.{Sodium, SessionKeys}
use edgar_vpn.Crypto.{Role, initiator, responder}
use edgar_vpn.Session.State.{
  Session, SessionState, handshake_pending, established, is_established, start_handshake,
}
use edgar_vpn.Session.Replay.Refines.{Stands, reset-Stands}
use edgar_vpn.Session.Handshake.Agreement.{refreshed}
use edgar_vpn.Session.Trace.{Event, Ledger, enter_all, IsUnique}

abbrev pub AllBelow : ℕ → List ℕ → Type 0
AllBelow n [] = Unit
AllBelow n (c ∷ cs) = (c < n) × AllBelow n cs

pub AllBelow-elem : (n : ℕ) (cs : List ℕ) → AllBelow n cs → elem n cs ≡ false
AllBelow-elem n [] h = refl
AllBelow-elem n (c ∷ cs) h = ground (arith, AllBelow-elem n cs h.1)

pub AllBelow-mono : (n m : ℕ) (cs : List ℕ) → n ≤ m → AllBelow n cs → AllBelow m cs
AllBelow-mono n m [] le h = tt
AllBelow-mono n m (c ∷ cs) le h = (omega arith, AllBelow-mono n m cs le h.1)

-- The data channel, by its counter and its window: reset while the handshake is pending, and
-- afterwards past every counter that was used under the keys in force.
abbrev pub ChannelFits : SessionState → ℕ → Bytes → Bool → ℕ → List ℕ → List ℕ → Type 0
ChannelFits handshake_pending tx w any high sealed accepted = (tx ≡ 0) × Stands w any high []
ChannelFits established tx w any high sealed accepted =
    AllBelow tx sealed × Stands w any high accepted

-- The handshake counters: an initiator's next one is past those it used, and a responder used
-- none above the highest one that it has seen.
abbrev pub HandshakeFits : Role → ℕ → Bool → ℕ → List ℕ → Type 0
HandshakeFits initiator next seen high used = AllBelow next used
HandshakeFits responder next seen high used =
    (used ≡ []) ⊎ ((seen ≡ true) × AllBelow (suc high) used)

-- The cases of the two, at a role and a state that are known by an equation.
pub initiator_fits :
    (r : Role) (next : ℕ) (seen : Bool) (high : ℕ) (used : List ℕ)
    → r ≡ initiator
    → HandshakeFits r next seen high used ↔ AllBelow next used
initiator_fits initiator next seen high used e = ((λ h. h), (λ h. h))
initiator_fits responder next seen high used e = absurd (cc)

pub responder_fits :
    (r : Role) (next : ℕ) (seen : Bool) (high : ℕ) (used : List ℕ)
    → r ≡ responder
    → HandshakeFits r next seen high used
      ↔ ((used ≡ []) ⊎ ((seen ≡ true) × AllBelow (suc high) used))
responder_fits initiator next seen high used e = absurd (cc)
responder_fits responder next seen high used e = ((λ h. h), (λ h. h))

pub pending_fits :
    (st : SessionState) (tx : ℕ) (w : Bytes) (any : Bool) (high : ℕ) (sealed accepted : List ℕ)
    → st ≡ handshake_pending
    → ChannelFits st tx w any high sealed accepted
    → (tx ≡ 0) × Stands w any high []
pending_fits handshake_pending tx w any high sealed accepted e h = h
pending_fits established tx w any high sealed accepted e h = absurd (cc)

pub established_fits :
    (st : SessionState) (tx : ℕ) (w : Bytes) (any : Bool) (high : ℕ) (sealed accepted : List ℕ)
    → st ≡ established
    → ChannelFits st tx w any high sealed accepted
      ↔ (AllBelow tx sealed × Stands w any high accepted)
established_fits handshake_pending tx w any high sealed accepted e = absurd (cc)
established_fits established tx w any high sealed accepted e = ((λ h. h), (λ h. h))

-- `n` bounds the counters, so that none has wrapped.
pub record Inv (s : Session) (l : Ledger) (n : ℕ) : Type 0 where
  pub channel :
      ChannelFits s.state s.tx_counter s.replay_window s.have_received_any s.highest_rx_counter
        l.sealed l.accepted
  pub handshake :
      HandshakeFits s.role s.handshake_counter s.have_seen_handshake
        s.highest_handshake_counter_seen l.static_sealed
  pub tx_bound : s.tx_counter ≤ n
  pub handshake_bound : s.handshake_counter ≤ n

-- The invariant after the events of one step, none of which uses a counter twice.
abbrev pub Keeps : Session × List Event → Ledger → ℕ → Type 0
Keeps (s, es) l n = IsUnique l es × Inv s (enter_all l es) n

module _ {s : Session} {l : Ledger} {n : ℕ} (v : Inv s l n) where
  pub Inv-suc : Inv s l (suc n)
  Inv-suc = record {
    channel = v.channel;
    handshake = v.handshake;
    tx_bound = omega arith;
    handshake_bound = omega arith;
  }

  pub start_handshake-Inv : (lib : Sodium) (seed : ℕ) → Inv (start_handshake lib seed s) l (suc n)
  unfolding start_handshake
  start_handshake-Inv lib seed = record {
    channel = (refl, reset-Stands s.highest_rx_counter);
    handshake = v.handshake;
    tx_bound = omega arith;
    handshake_bound = omega arith;
  }

  -- Only fields that the invariant does not read are changed.
  pub rekeyed-Inv :
      (keys : SessionKeys) (sk : Bytes) → Inv (record s { data_keys = keys; local_eph_sk = sk }) l n
  rekeyed-Inv keys sk = record {
    channel = v.channel;
    handshake = v.handshake;
    tx_bound = v.tx_bound;
    handshake_bound = v.handshake_bound;
  }

module _ (lib : Sodium) (s : Session) (l : Ledger) (n : ℕ) (v : Inv s l n) where
  pub refreshed-Inv : (seed : ℕ) → Inv (refreshed lib seed s) l (suc n)
  refreshed-Inv seed = elim (Bool-cases (is_established s.state)) [
    | inl on ↦ rw on (start_handshake-Inv v lib seed)
    | inr off ↦ rw off (Inv-suc v)
  ]
