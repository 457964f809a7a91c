-- ===== src/Config/Words.antt =====
-- The words of a configuration file, as src/config.c spells them.
use edgar_vpn.Prelude.{[], ◌∷◌, Bytes}

-- "Interface"
abbrev pub word_interface : Bytes
word_interface = 73 ∷ 110 ∷ 116 ∷ 101 ∷ 114 ∷ 102 ∷ 97 ∷ 99 ∷ 101 ∷ []

-- "Peer"
abbrev pub word_peer : Bytes
word_peer = 80 ∷ 101 ∷ 101 ∷ 114 ∷ []

-- "Name"
abbrev pub word_name : Bytes
word_name = 78 ∷ 97 ∷ 109 ∷ 101 ∷ []

-- "DeviceName"
abbrev pub word_device_name : Bytes
word_device_name = 68 ∷ 101 ∷ 118 ∷ 105 ∷ 99 ∷ 101 ∷ 78 ∷ 97 ∷ 109 ∷ 101 ∷ []

-- "Address"
abbrev pub word_address : Bytes
word_address = 65 ∷ 100 ∷ 100 ∷ 114 ∷ 101 ∷ 115 ∷ 115 ∷ []

-- "ListenPort"
abbrev pub word_listen_port : Bytes
word_listen_port = 76 ∷ 105 ∷ 115 ∷ 116 ∷ 101 ∷ 110 ∷ 80 ∷ 111 ∷ 114 ∷ 116 ∷ []

-- "PrivateKey"
abbrev pub word_private_key : Bytes
word_private_key = 80 ∷ 114 ∷ 105 ∷ 118 ∷ 97 ∷ 116 ∷ 101 ∷ 75 ∷ 101 ∷ 121 ∷ []

-- "Endpoint"
abbrev pub word_endpoint : Bytes
word_endpoint = 69 ∷ 110 ∷ 100 ∷ 112 ∷ 111 ∷ 105 ∷ 110 ∷ 116 ∷ []

-- "PublicKey"
abbrev pub word_public_key : Bytes
word_public_key = 80 ∷ 117 ∷ 98 ∷ 108 ∷ 105 ∷ 99 ∷ 75 ∷ 101 ∷ 121 ∷ []

-- "Role"
abbrev pub word_role : Bytes
word_role = 82 ∷ 111 ∷ 108 ∷ 101 ∷ []

-- "AllowedIPs"
abbrev pub word_allowed_ips : Bytes
word_allowed_ips = 65 ∷ 108 ∷ 108 ∷ 111 ∷ 119 ∷ 101 ∷ 100 ∷ 73 ∷ 80 ∷ 115 ∷ []

-- "initiator"
abbrev pub word_initiator : Bytes
word_initiator = 105 ∷ 110 ∷ 105 ∷ 116 ∷ 105 ∷ 97 ∷ 116 ∷ 111 ∷ 114 ∷ []

-- "responder"
abbrev pub word_responder : Bytes
word_responder = 114 ∷ 101 ∷ 115 ∷ 112 ∷ 111 ∷ 110 ∷ 100 ∷ 101 ∷ 114 ∷ []

-- "unnamed-peer"
abbrev pub default_name : Bytes
default_name = 117 ∷ 110 ∷ 110 ∷ 97 ∷ 109 ∷ 101 ∷ 100 ∷ 45 ∷ 112 ∷ 101 ∷ 101 ∷ 114 ∷ []

-- "edgar0"
abbrev pub default_device : Bytes
default_device = 101 ∷ 100 ∷ 103 ∷ 97 ∷ 114 ∷ 48 ∷ []
