-- ===== src/Client/Own/Examples.antt =====
-- The theorems on client/core/ownDevice.go at a concrete device.
use device.Common.{ℕ, String, true, false, none, some, List, [], ◌∷◌}
use device.Schema.Link.{Endpoint, ResourceLink}
use device.Schema.Endpoints.{AddrOps}
use device.Client.Own.Requests.{rfotm}
use device.Client.Own.Monad.{Peer, State}
use device.Client.Own.Transfer.{Ownership, OwnCfg, Env}

-- An address is the text of its URI, which is its scheme.
abbrev addr_ops : AddrOps String
addr_ops = record {
  parse = λ s. some s;
  scheme = λ a. a;
  port = λ a. 0;
  set_port = λ n a. a;
  set_scheme = λ s a. s;
  url = λ a. a;
  uri = λ s a. s;
  ip = λ a. none;
  contains = λ s t. false;
}

abbrev willing : Peer
willing sent = record {
  accepted = true;
  pending = false;
  state = rfotm;
  modes = 4;
  owner_id = "me";
  csr_is_der = false;
  csr = "";
}

abbrev key : List ℕ
key = 1 ∷ 2 ∷ 3 ∷ 4 ∷ 5 ∷ 6 ∷ 7 ∷ 8 ∷ 9 ∷ 10 ∷ 11 ∷ 12 ∷ 13 ∷ 14 ∷ 15 ∷ 16 ∷ []

abbrev cfg : OwnCfg
cfg = record { psk = key; sign = none; during = none; after = none }

abbrev nobody : Ownership
nobody = record { owned = false; owner_id = ""; methods = 2 ∷ [] }

abbrev env : Ownership → Env String
env o = record {
  ownership = some o;
  sdk_id = some "me";
  dial_udp = true;
  dial_owner = λ n a. true;
  dial_psk = λ k a. true;
  uuid_parses = true;
  random = none;
}

abbrev link : String → ResourceLink
link href = record {
  id = "";
  href = href;
  resource_types = [];
  interfaces = [];
  policy = none;
  endpoints = record { uri = "coaps"; priority = 0 } ∷ [];
  anchor = "";
  device_id = "d";
  instance_id = 0;
  title = "";
  supported_content_types = [];
}

abbrev endpoints : List Endpoint
endpoints = record { uri = "coap"; priority = 0 } ∷ []

abbrev unowned_device : State
unowned_device = record { sent = []; device_id = "d"; opened = 0; closed = 0 }
