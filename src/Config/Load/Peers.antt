-- ===== src/Config/Load/Peers.antt =====
-- The list of peers while `config_load` fills it: every peer but the last is complete, and the
-- last one is as far as the flags say.
use edgar_vpn.Prelude.{
  suc, ◌≤◌, ◌<◌, ◌≡◌, refl, ap, Bool, true, false, List, [], ◌∷◌, ◌++◌, arith, length,
}
use edgar_vpn.Crypto.{public_key_bytes}
use edgar_vpn.Config.{ConfigPeer, config_max_host}
use edgar_vpn.Config.Load.{update_last, zero_peer}

abbrev pub EndpointValid : ConfigPeer → Type 0
EndpointValid p =
    (0 < length p.host) × (length p.host < config_max_host) × (0 < p.port) × (p.port ≤ 65535)

abbrev pub KeyValid : ConfigPeer → Type 0
KeyValid p = length p.public_key ≡ public_key_bytes

abbrev pub RangeValid : ConfigPeer → Type 0
RangeValid p = p.allowed_prefix ≤ 32

-- A peer that came out of a complete [Peer] section.
abbrev pub PeerValid : ConfigPeer → Type 0
PeerValid p = EndpointValid p × KeyValid p × RangeValid p

abbrev pub AllValid : List ConfigPeer → Type 0
AllValid [] = Unit
AllValid (p ∷ peers) = PeerValid p × AllValid peers

abbrev pub Given : Bool → Type 0 → Type 0
Given true A = A
Given false A = Unit

abbrev pub LastFits : Bool → Bool → Bool → ConfigPeer → Type 0
LastFits e k a p = Given e (EndpointValid p) × Given k (KeyValid p) × Given a (RangeValid p)

abbrev pub PeersFit : Bool → Bool → Bool → List ConfigPeer → Type 0
PeersFit e k a [] = Unit
PeersFit e k a (p ∷ []) = LastFits e k a p
PeersFit e k a (p ∷ q ∷ peers) = PeerValid p × PeersFit e k a (q ∷ peers)

given : (b : Bool) {A : Type 0} → A → Given b A
given true x = x
given false x = tt

PeersFit-cons :
    (e k a : Bool) (p : ConfigPeer) (peers : List ConfigPeer)
    → PeerValid p
    → PeersFit e k a peers
    → PeersFit e k a (p ∷ peers)
PeersFit-cons e k a p [] v fits = (given e v.0, given k v.1, given a v.2)
PeersFit-cons e k a p (q ∷ peers) v fits = (v, fits)

pub PeersFit-update_last :
    (e k a e' k' a' : Bool) (f : ConfigPeer → ConfigPeer)
    → ((p : ConfigPeer) → LastFits e k a p → LastFits e' k' a' (f p))
    → (peers : List ConfigPeer) → PeersFit e k a peers
    → PeersFit e' k' a' (update_last f peers)
unfolding update_last
PeersFit-update_last e k a e' k' a' f step [] fits = tt
PeersFit-update_last e k a e' k' a' f step (p ∷ []) fits = step p fits
PeersFit-update_last e k a e' k' a' f step (p ∷ q ∷ peers) fits =
    PeersFit-cons e' k' a' p (update_last f (q ∷ peers)) fits.0
      (PeersFit-update_last e k a e' k' a' f step (q ∷ peers) fits.1)

pub length-update_last :
    (f : ConfigPeer → ConfigPeer) (peers : List ConfigPeer)
    → length (update_last f peers) ≡ length peers
unfolding update_last
length-update_last f [] = refl
length-update_last f (p ∷ []) = refl
length-update_last f (p ∷ q ∷ peers) = ap suc (length-update_last f (q ∷ peers))

-- Once every flag is set, all peers are complete, and a new one may begin.
PeersFit-AllValid : (peers : List ConfigPeer) → PeersFit true true true peers → AllValid peers
PeersFit-AllValid [] fits = tt
PeersFit-AllValid (p ∷ []) fits = (fits, tt)
PeersFit-AllValid (p ∷ q ∷ peers) fits = (fits.0, PeersFit-AllValid (q ∷ peers) fits.1)

pub complete-AllValid :
    (e k a : Bool) (peers : List ConfigPeer)
    → PeersFit e k a peers
    → e ≡ true
    → k ≡ true
    → a ≡ true
    → AllValid peers
complete-AllValid true true true peers fits he hk ha = PeersFit-AllValid peers fits
complete-AllValid false k a peers fits he hk ha = absurd (ground arith)
complete-AllValid true false a peers fits he hk ha = absurd (ground arith)
complete-AllValid true true false peers fits he hk ha = absurd (ground arith)

pub PeersFit-begin :
    (peers : List ConfigPeer)
    → AllValid peers
    → PeersFit false false false (peers ++ (zero_peer ∷ []))
PeersFit-begin [] valid = (tt, tt, tt)
PeersFit-begin (p ∷ peers) valid =
    PeersFit-cons false false false p (peers ++ (zero_peer ∷ [])) valid.0
      (PeersFit-begin peers valid.1)
