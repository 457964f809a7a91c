-- ===== src/Session/Trace.antt =====
-- A session in the hands of src/main.c and of the network: any sequence of its operations, with
-- whatever arguments, and the uses of keys that it makes visible.
pub mod Invariant
pub mod Steps
pub mod Sealed
pub mod Replayed
pub mod Unique
use edgar_vpn.Prelude.{
  ℕ, ◌≡◌, Bool, true, false, Option, none, some, List, [], ◌∷◌, ◌++◌, Bytes, drop, if◌then◌else◌,
  elem,
}
use edgar_vpn.Sodium.{Sodium}
use edgar_vpn.Crypto.{build_nonce, counter_bytes, get_counter}
use edgar_vpn.Session.State.{Session, start_handshake}
use edgar_vpn.Session.Handshake.{build_init, handle_init, handle_response}
use edgar_vpn.Session.Channel.{Opened, seal_data, open_data}

pub data Op : Type 0 where
  starts : ℕ → Op
  builds_init : ℕ → Op
  takes_init : ℕ → Bytes → ℕ → Op
  takes_response : Bytes → Op
  seals : Bytes → ℕ → Op
  opens : Bytes → ℕ → Op

-- `handshake_sealed c`: a message that carries the counter `c` was sealed under the static key.
-- `keyed`: new data keys are in force. `data_sealed c`, `data_accepted c`: a packet that carries
-- `c` was sealed under the data key to send with, or accepted under the one to receive with.
pub data Event : Type 0 where
  handshake_sealed : ℕ → Event
  keyed : Event
  data_sealed : ℕ → Event
  data_accepted : ℕ → Event

abbrev from_message : Option Bytes → (Bytes → List Event) → List Event
from_message none es = []
from_message (some message) es = es message

abbrev when_some {ℓ} : {A : Type ℓ} → Option A → List Event → List Event
when_some none es = []
when_some (some a) es = es

-- The counter that a message carries behind its type byte.
unfoldable pub wire_counter : Bytes → ℕ
wire_counter message = get_counter counter_bytes 0 (drop 1 message) 0

module _ (lib : Sodium) where
  -- The counters are read from the messages themselves, as the receiver reads its nonce.
  unfoldable pub step : Session → Op → Session × List Event
  step s (starts seed) = (start_handshake lib seed s, [])
  step s (builds_init n) =
      let (s', message) = build_init lib s n in
      (s', from_message message (λ m. handshake_sealed (wire_counter m) ∷ []))
  step s (takes_init seed input n) =
      let (s', reply) = handle_init lib seed s input n in
      (s', from_message reply (λ m. handshake_sealed (wire_counter m) ∷ keyed ∷ []))
  step s (takes_response input) =
      let (s', accepted) = handle_response lib s input in (s', if accepted then keyed ∷ [] else [])
  step s (seals text n) =
      let (s', message) = seal_data lib s text n in
      (s', from_message message (λ m. data_sealed (wire_counter m) ∷ []))
  step s (opens input n) =
      let o = open_data lib s input n in
      (o.session, when_some o.result (data_accepted (wire_counter input) ∷ []))

  unfoldable pub run : Session → List Op → Session × List Event
  run s [] = (s, [])
  run s (op ∷ ops) = let (s', es) = step s op in let (s'', rest) = run s' ops in (s'', es ++ rest)

-- The counters used so far: under the static key, and under the data keys in force.
pub record Ledger : Type 0 where
  pub static_sealed : List ℕ
  pub sealed : List ℕ
  pub accepted : List ℕ

abbrev pub enter : Ledger → Event → Ledger
enter l (handshake_sealed c) = record l { static_sealed = c ∷ l.static_sealed }
enter l keyed = record l { sealed = []; accepted = [] }
enter l (data_sealed c) = record l { sealed = c ∷ l.sealed }
enter l (data_accepted c) = record l { accepted = c ∷ l.accepted }

abbrev pub IsNew : Ledger → Event → Type 0
IsNew l (handshake_sealed c) = elem c l.static_sealed ≡ false
IsNew l keyed = Unit
IsNew l (data_sealed c) = elem c l.sealed ≡ false
IsNew l (data_accepted c) = elem c l.accepted ≡ false

-- No counter is used twice under one key, and no data packet is accepted twice under one key.
abbrev pub IsUnique : Ledger → List Event → Type 0
IsUnique l [] = Unit
IsUnique l (e ∷ es) = IsNew l e × IsUnique (enter l e) es

abbrev pub enter_all : Ledger → List Event → Ledger
enter_all l [] = l
enter_all l (e ∷ es) = enter_all (enter l e) es

abbrev pub empty_ledger : Ledger
empty_ledger = record { static_sealed = []; sealed = []; accepted = [] }

-- What was encrypted into the message, under this key and the nonce of the counter that it carries.
abbrev pub SealedUnder : Sodium → Bytes → Option Bytes → Type 0
SealedUnder lib key none = Unit
SealedUnder lib key (some m) =
    (text : Bytes) × (lib.aead_encrypt text (build_nonce (wire_counter m)) key ≡ some (drop 9 m))

-- A message that the operation builds is sealed under the key of its kind.
abbrev pub IsSealed : Sodium → Session → Op → Type 0
IsSealed lib s (starts seed) = Unit
IsSealed lib s (builds_init n) = SealedUnder lib s.static_keys.tx (build_init lib s n).1
IsSealed lib s (takes_init seed input n) =
    SealedUnder lib s.static_keys.tx (handle_init lib seed s input n).1
IsSealed lib s (takes_response input) = Unit
IsSealed lib s (seals text n) = SealedUnder lib s.data_keys.tx (seal_data lib s text n).1
IsSealed lib s (opens input n) = Unit

abbrev pub AllSealed : Sodium → Session → List Op → Type 0
AllSealed lib s [] = Unit
AllSealed lib s (op ∷ ops) = IsSealed lib s op × AllSealed lib (step lib s op).0 ops
