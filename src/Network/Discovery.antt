-- ===== src/Network/Discovery.antt =====
-- src/network/peer_discovery.hpp and peer_discovery.cpp: the advertisement packet, and the peers that
-- a node knows by it. A sent or received packet is its 72 bytes; on the wire a number is big-endian.
pub mod Packet
pub mod Peers
pub mod Turns
pub mod Eviction
mod Tests
use edge_orchestrator_ai.Prelude.{
  ℕ, zero, suc, ◌+◌, ◌-◌, ◌*◌, ◌/◌, ◌%◌, ◌^◌, ◌<◌, ◌≡◌, Bool, true, false, List, [], ◌∷◌, ◌++◌,
  Option, none, some, String, length, take, drop, ltb, ◌==◌, ◌&&◌, if◌then◌else◌, string_key,
  String_discrete, ite,
}
use edge_orchestrator_ai.Prelude.HashMap.{find, assign}
use edge_orchestrator_ai.Core.Types.{NodeId, Timestamp, ResourceSnapshot}
use edge_orchestrator_ai.Scheduler.Plan.{PeerInfo}

-- A number in so many bytes, and back.
unfoldable pub to_be : ℕ → ℕ → List ℕ
to_be zero n = []
to_be (suc width) n = to_be width (n / 256) ++ n % 256 ∷ []

abbrev pub digits : ℕ → List ℕ → ℕ
digits n [] = n
digits n (b ∷ bytes) = digits (n * 256 + b) bytes

abbrev pub of_be : List ℕ → ℕ
of_be bytes = digits 0 bytes

-- "EORC"
abbrev pub magic : List ℕ
magic = 69 ∷ 79 ∷ 82 ∷ 67 ∷ []

abbrev pub protocol_version : ℕ
protocol_version = 2

pub record AdvertPacket : Type 0 where
  pub magic : List ℕ
  pub version : ℕ
  pub reserved : List ℕ
  pub node_id : List ℕ
  pub tcp_port_be : List ℕ
  pub padding : List ℕ
  pub cpu_usage_bits_be : List ℕ
  pub memory_available_be : List ℕ
  pub memory_total_be : List ℕ
  pub temperature_bits_be : List ℕ
  pub flags_be : List ℕ

abbrev pub join : List (List ℕ) → List ℕ
join [] = []
join (bytes ∷ rest) = bytes ++ join rest

-- The bytes of a packed struct, one member behind another: those up to the id, the id, the others.
abbrev pub head_bytes : AdvertPacket → List ℕ
head_bytes pkt = join (pkt.magic ∷ (pkt.version ∷ []) ∷ pkt.reserved ∷ [])

abbrev pub tail_bytes : AdvertPacket → List ℕ
tail_bytes pkt = join (
    pkt.tcp_port_be ∷ pkt.padding ∷ pkt.cpu_usage_bits_be ∷ pkt.memory_available_be
    ∷ pkt.memory_total_be ∷ pkt.temperature_bits_be ∷ pkt.flags_be ∷ [])

abbrev pub packet_bytes : AdvertPacket → List ℕ
packet_bytes pkt = head_bytes pkt ++ (pkt.node_id ++ tail_bytes pkt)

abbrev pub byte_at : List ℕ → ℕ
byte_at [] = 0
byte_at (b ∷ bytes) = b

-- The struct that recvfrom fills; it stores at most 72 bytes of a datagram.
abbrev pub packet_of : List ℕ → AdvertPacket
packet_of bytes = record {
  magic = take 4 bytes;
  version = byte_at (drop 4 bytes);
  reserved = take 3 (drop 5 bytes);
  node_id = take 32 (drop 8 bytes);
  tcp_port_be = take 2 (drop 40 bytes);
  padding = take 2 (drop 42 bytes);
  cpu_usage_bits_be = take 4 (drop 44 bytes);
  memory_available_be = take 8 (drop 48 bytes);
  memory_total_be = take 8 (drop 56 bytes);
  temperature_bits_be = take 4 (drop 64 bytes);
  flags_be = take 4 (drop 68 bytes);
}

abbrev pub zero_bytes : ℕ → List ℕ
zero_bytes zero = []
zero_bytes (suc n) = 0 ∷ zero_bytes n

-- The bytes before the first NUL, as strnlen counts them.
abbrev pub until_nul : List ℕ → List ℕ
until_nul [] = []
until_nul (zero ∷ bytes) = []
until_nul (suc b ∷ bytes) = suc b ∷ until_nul bytes

-- memcmp
abbrev pub same_bytes : List ℕ → List ℕ → Bool
same_bytes [] [] = true
same_bytes [] (c ∷ cs) = false
same_bytes (b ∷ bs) [] = false
same_bytes (b ∷ bs) (c ∷ cs) = b == c && same_bytes bs cs

-- The 32 bits of a float, which memcpy reads and writes.
pub record FloatBits (F : Type 0) : Type 0 where
  pub to_bits : F → ℕ
  pub of_bits : ℕ → F
  pub to_bits_lt : (x : F) → to_bits x < 2 ^ 32
  pub of_bits-to_bits : (x : F) → of_bits (to_bits x) ≡ x

pub record PeerRecord (F : Type 0) : Type 0 where
  pub info : PeerInfo F
  -- steady_clock, in nanoseconds
  pub last_seen : ℕ

-- What has been told to the callbacks that were registered, by number.
pub data Notice (F : Type 0) : Type 0 where
  discovered lost : List ℕ → PeerInfo F → Notice F

-- The members of PeerDiscovery, with what the two threads still have to tell and what has been told.
pub record PeerDiscovery (F : Type 0) : Type 0 where
  pub node_id : NodeId
  pub tcp_port : ℕ
  pub peer_timeout_ms : ℕ
  pub local_resources : ResourceSnapshot F
  pub known_peers : List (NodeId × PeerRecord F)
  pub on_discovered : List ℕ
  pub on_lost : List ℕ
  pub to_discover : Option (PeerInfo F)
  pub to_lose : List (PeerInfo F)
  pub notices : List (Notice F)

-- bytes gives a std::string's characters, and text the string of such.
module _ {F : Type 0} (float_bits : FloatBits F) where
  open float_bits use {to_bits, of_bits}

  abbrev pub float_to_wire : F → List ℕ
  float_to_wire value = to_be 4 (to_bits value)

  abbrev pub float_from_wire : List ℕ → F
  float_from_wire wire = of_bits (of_be wire)

  -- At most 31 bytes, padded with NULs.
  abbrev pub padded_id : List ℕ → List ℕ
  padded_id id = let copied = take 31 id in copied ++ zero_bytes (32 - length copied)

  unfoldable pub build_advert : (String → List ℕ) → PeerDiscovery F → AdvertPacket
  build_advert bytes s =
      let r = s.local_resources in
      record {
        magic = magic;
        version = protocol_version;
        reserved = 0 ∷ 0 ∷ 0 ∷ [];
        node_id = padded_id (bytes s.node_id);
        tcp_port_be = to_be 2 s.tcp_port;
        padding = 0 ∷ 0 ∷ [];
        cpu_usage_bits_be = float_to_wire r.cpu_usage_percent;
        memory_available_be = to_be 8 r.memory_available_bytes;
        memory_total_be = to_be 8 r.memory_total_bytes;
        temperature_bits_be = float_to_wire r.cpu_temperature_celsius;
        flags_be = to_be 4 (if r.is_throttled then 1 else 0);
      }

  -- zero_float is 0.0f, the default of the sensors that are not advertised.
  unfoldable pub parse_advert :
      (List ℕ → String) → F → AdvertPacket → String → Timestamp → PeerInfo F
  parse_advert text zero_float pkt sender_addr now =
      let id = text (until_nul pkt.node_id) in
      record {
        node_id = id;
        address = sender_addr;
        tcp_port = of_be pkt.tcp_port_be;
        reachable = true;
        resources = record {
          node_id = id;
          timestamp = now;
          cpu_usage_percent = float_from_wire pkt.cpu_usage_bits_be;
          per_core_cpu_percent = zero_float ∷ zero_float ∷ zero_float ∷ zero_float ∷ [];
          memory_available_bytes = of_be pkt.memory_available_be;
          memory_total_bytes = of_be pkt.memory_total_be;
          cpu_temperature_celsius = float_from_wire pkt.temperature_bits_be;
          gpu_temperature_celsius = zero_float;
          network_rx_bytes_sec = 0;
          network_tx_bytes_sec = 0;
          is_throttled = of_be pkt.flags_be % 2 == 1;
        };
      }

-- PeerDiscovery::PeerDiscovery; the resources are those of a new snapshot.
abbrev pub make_discovery : {F : Type 0} → NodeId → ℕ → ℕ → ResourceSnapshot F → PeerDiscovery F
make_discovery node_id tcp_port peer_timeout_ms resources = record {
  node_id = node_id;
  tcp_port = tcp_port;
  peer_timeout_ms = peer_timeout_ms;
  local_resources = record resources { node_id = node_id };
  known_peers = [];
  on_discovered = [];
  on_lost = [];
  to_discover = none;
  to_lose = [];
  notices = [];
}

-- The update of the map under its lock; a new peer is still to be told.
abbrev pub remember :
    {F : Type 0} → PeerInfo F → ℕ → Option (PeerRecord F) → PeerDiscovery F → PeerDiscovery F
remember peer now none s = record s {
  known_peers = assign peer.node_id (record { info = peer; last_seen = now }) s.known_peers;
  to_discover = some peer;
}
remember peer now (some old) s = record s {
  known_peers = assign peer.node_id (record { info = peer; last_seen = now }) s.known_peers;
}

unfoldable pub meet : {F : Type 0} → PeerInfo F → ℕ → PeerDiscovery F → PeerDiscovery F
meet peer now s =
    ite (String_discrete peer.node_id s.node_id) s
      (remember peer now (find peer.node_id s.known_peers) s)

-- The tests of what recvfrom gave, and what follows them.
abbrev pub take_advert :
    {F : Type 0}
    → FloatBits F
    → (List ℕ → String)
    → F
    → List ℕ
    → String
    → Timestamp
    → ℕ
    → PeerDiscovery F
    → PeerDiscovery F
take_advert float_bits text zero_float received sender_addr wall now s =
    let pkt = packet_of received in
    if (length received == 72) && same_bytes pkt.magic magic && (pkt.version == protocol_version)
    then meet (parse_advert float_bits text zero_float pkt sender_addr wall) now s
    else s

-- One turn of listen_loop, up to the end of the lock. recvfrom gives at most as many bytes as the packet has,
-- and drops the rest of the datagram.
unfoldable pub hear :
    {F : Type 0}
    → FloatBits F
    → (List ℕ → String)
    → F
    → List ℕ
    → String
    → Timestamp
    → ℕ
    → PeerDiscovery F
    → PeerDiscovery F
hear float_bits text zero_float datagram sender_addr wall now s =
    take_advert float_bits text zero_float (take 72 datagram) sender_addr wall now s

abbrev pub silent_too_long : {F : Type 0} → ℕ → ℕ → PeerRecord F → Bool
silent_too_long timeout_ms now r = ltb (r.last_seen + timeout_ms * 1000000) now

-- The evicted peers and those that stay.
unfoldable pub evict :
    {F : Type 0}
    → ℕ
    → ℕ
    → List (NodeId × PeerRecord F)
    → List (PeerInfo F) × List (NodeId × PeerRecord F)
evict timeout_ms now [] = ([], [])
evict timeout_ms now ((id, r) ∷ known) =
    let (evicted, kept) = evict timeout_ms now known in
    if silent_too_long timeout_ms now r then (r.info ∷ evicted, kept) else (evicted, (id, r) ∷ kept)

-- One turn of eviction_loop, up to the end of the lock.
unfoldable pub sweep : {F : Type 0} → ℕ → PeerDiscovery F → PeerDiscovery F
sweep now s =
    let (evicted, kept) = evict s.peer_timeout_ms now s.known_peers in
    record s { known_peers = kept; to_lose = evicted }

unfoldable pub notify_discovered : {F : Type 0} → PeerInfo F → PeerDiscovery F → PeerDiscovery F
notify_discovered peer s = record s { notices = discovered s.on_discovered peer ∷ s.notices }

unfoldable pub notify_lost : {F : Type 0} → PeerInfo F → PeerDiscovery F → PeerDiscovery F
notify_lost peer s = record s { notices = lost s.on_lost peer ∷ s.notices }

abbrev pub on_peer_discovered : {F : Type 0} → ℕ → PeerDiscovery F → PeerDiscovery F
on_peer_discovered callback s = record s { on_discovered = s.on_discovered ++ callback ∷ [] }

abbrev pub on_peer_lost : {F : Type 0} → ℕ → PeerDiscovery F → PeerDiscovery F
on_peer_lost callback s = record s { on_lost = s.on_lost ++ callback ∷ [] }

abbrev pub update_local_resources :
    {F : Type 0} → ResourceSnapshot F → PeerDiscovery F → PeerDiscovery F
update_local_resources snapshot s = record s { local_resources = snapshot }

abbrev pub known_peer_count : {F : Type 0} → PeerDiscovery F → ℕ
known_peer_count s = length s.known_peers
