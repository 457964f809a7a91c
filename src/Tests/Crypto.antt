-- ===== src/Tests/Crypto.antt =====
-- The packet format at concrete values.
use edgar_vpn.Prelude.{
  ◌≡◌, refl, some, none, [], ◌∷◌, ◌++◌, Bytes, arith, replicate, AreBytes, are_bytes,
  are_bytes-AreBytes,
}
use edgar_vpn.Crypto.{counter_bytes, seal, crypto_open, get_counter, build_nonce, put_counter}
use edgar_vpn.Crypto.Counter.{octets, octets-get_counter, get_counter-octets}
use edgar_vpn.Crypto.Packet.{open-seal, seal-open}
use edgar_vpn.Tests.Toy.{toy, toy-Laws}

abbrev key : Bytes
key = replicate 32 7

abbrev text : Bytes
text = 104 ∷ 105 ∷ []

-- The counter 258 under that key.
abbrev packet : Bytes
packet =
    2 ∷ 1 ∷ 0 ∷ 0 ∷ 0 ∷ 0 ∷ 0 ∷ 0 ∷ 2 ∷ 1 ∷ 0 ∷ 0 ∷ 0 ∷ 0 ∷ 0 ∷ 0 ∷ 7 ∷ 7 ∷ 7 ∷ 7 ∷ 0 ∷ 0 ∷ 0 ∷ 0
    ∷ text

sealed_packet : seal toy key 258 text 26 ≡ some packet
unfolding seal build_nonce put_counter
sealed_packet = refl

too_small : seal toy key 258 text 25 ≡ none
unfolding seal
too_small = refl

opened_packet : crypto_open toy key packet 2 ≡ some (text, 258)
unfolding crypto_open get_counter build_nonce put_counter
opened_packet = refl

open-seal_example : crypto_open toy key packet 2 ≡ some (text, 258)
open-seal_example =
    open-seal toy toy-Laws key 258 text 26 2 (omega arith) (omega arith) sealed_packet

packet-AreBytes : AreBytes packet
unfolding are_bytes
packet-AreBytes = are_bytes-AreBytes packet refl

seal-open_example : seal toy key 258 text 26 ≡ some packet
seal-open_example = seal-open toy toy-Laws key packet 2 packet-AreBytes opened_packet

octets-get_counter_example :
    octets (get_counter counter_bytes 0 (1 ∷ 2 ∷ 3 ∷ 4 ∷ 5 ∷ 6 ∷ 7 ∷ 8 ∷ []) 0) ++ []
    ≡ 1 ∷ 2 ∷ 3 ∷ 4 ∷ 5 ∷ 6 ∷ 7 ∷ 8 ∷ []
octets-get_counter_example =
    octets-get_counter 1 2 3 4 5 6 7 8 [] (omega arith) (omega arith) (omega arith) (omega arith)
      (omega arith) (omega arith) (omega arith) (omega arith)

get_counter-octets_example : get_counter counter_bytes 0 (octets 258 ++ 9 ∷ []) 0 ≡ 258
get_counter-octets_example = get_counter-octets 258 (9 ∷ []) (omega arith)
