-- ===== src/Network/Discovery/Packet.antt =====
-- The advertisement as a round trip: what one node builds, another node parses.
use native.Mathlib.Nat.{pow-suc}
use edge_orchestrator_ai.Prelude.{
  ℕ, zero, suc, ◌+◌, ◌-◌, ◌*◌, ◌/◌, ◌%◌, ◌^◌, ◌≤◌, ◌<◌, ◌≡◌, ◌≢◌, refl, sym, ap, ◌∙◌, Bool, true,
  false, List, [], ◌∷◌, ◌++◌, Option, none, some, String, length, take, drop, ◌==◌, ◌&&◌,
  if◌then◌else◌, arith, length-append, take-append, drop-append, elem, nat_key, ℕ_discrete,
  drop_add, string_key, if_pos, if_neg, String_discrete, length-take-le,
}
use edge_orchestrator_ai.Prelude.HashMap.{find, find-assign}
use edge_orchestrator_ai.Core.Types.{Timestamp}
use edge_orchestrator_ai.Scheduler.Plan.{PeerInfo}
use edge_orchestrator_ai.Network.Discovery.{
  magic, protocol_version, to_be, digits, of_be, AdvertPacket, packet_bytes, tail_bytes, packet_of,
  zero_bytes, until_nul, same_bytes, FloatBits, PeerRecord, PeerDiscovery, padded_id, build_advert,
  parse_advert, remember, meet, hear, take_advert,
}

length-to_be : (width n : ℕ) → length (to_be width n) ≡ width
unfolding to_be
length-to_be zero n = refl
length-to_be (suc width) n =
    length-append (to_be width (n / 256)) (n % 256 ∷ [])
    ∙ omega (arith, length-to_be width (n / 256))

digits-append : (n : ℕ) (xs ys : List ℕ) → digits n (xs ++ ys) ≡ digits (digits n xs) ys
digits-append n [] ys = refl
digits-append n (x ∷ xs) ys = digits-append (n * 256 + x) xs ys

of_be-to_be : (width n : ℕ) → n < 256 ^ width → of_be (to_be width n) ≡ n
unfolding to_be
of_be-to_be zero n h = omega arith
of_be-to_be (suc width) n h =
    let bound : n < 256 ^ width * 256 = rw (pow-suc 256 width) at h in
    let small : n / 256 < 256 ^ width = omega (arith, bound) in
    digits-append 0 (to_be width (n / 256)) (n % 256 ∷ [])
    ∙ omega (arith, of_be-to_be width (n / 256) small)

until_nul-padded :
    (id : List ℕ) (n : ℕ) → elem 0 id ≡ false → until_nul (id ++ zero_bytes (suc n)) ≡ id
unfolding elem ℕ_discrete
until_nul-padded [] n h = refl
until_nul-padded (zero ∷ id) n h = let bad : true ≡ false = h in cc
until_nul-padded (suc b ∷ id) n h =
    ap (λ l. suc b ∷ l)
      (until_nul-padded id n (sym (if_neg (ℕ_discrete 0 (suc b)) (λ e. omega (arith, e)) _ _) ∙ h))

take_all : {A : Type 0} (n : ℕ) (xs : List A) → length xs ≤ n → take n xs ≡ xs
take_all zero [] h = refl
take_all zero (x ∷ xs) h = absurd (omega arith)
take_all (suc n) [] h = refl
take_all (suc n) (x ∷ xs) h = ap (λ l. x ∷ l) (take_all n xs (omega arith))

length-zero_bytes : (n : ℕ) → length (zero_bytes n) ≡ n
length-zero_bytes zero = refl
length-zero_bytes (suc n) = ap suc (length-zero_bytes n)

length-padded_id :
    {F : Type 0} (float_bits : FloatBits F) (id : List ℕ) → length (padded_id float_bits id) ≡ 32
length-padded_id float_bits id =
    let copied = take 31 id in
    let short = length-take-le 31 id in
    length-append copied (zero_bytes (32 - length copied))
    ∙ omega (arith, length-zero_bytes (32 - length copied))

-- What stands behind the 32 bytes of an id.
take_behind : (id rest : List ℕ) → length id ≡ 32 → take 32 (id ++ rest) ≡ id
take_behind id rest e = ap (λ (n : ℕ). take n (id ++ rest)) (sym e) ∙ take-append id rest

drop_behind : (j : ℕ) (id rest : List ℕ) → length id ≡ 32 → drop (32 + j) (id ++ rest) ≡ drop j rest
drop_behind j id rest e =
    ap (λ (n : ℕ). drop (n + j) (id ++ rest)) (sym e)
    ∙ sym (drop_add (length id) j (id ++ rest))
    ∙ ap (λ l. drop j l) (drop-append id rest)

module _ {F : Type 0} (float_bits : FloatBits F) (bytes : String → List ℕ)
    (s : PeerDiscovery F) where
  abbrev pub advert : AdvertPacket
  advert = build_advert float_bits bytes s

  long : length (padded_id float_bits (bytes s.node_id)) ≡ 32
  long = length-padded_id float_bits (bytes s.node_id)

  packet_of-advert : packet_of (packet_bytes advert) ≡ advert
  unfolding build_advert to_be
  packet_of-advert =
      let at = λ (j : ℕ). drop_behind j advert.node_id (tail_bytes advert) long in
      λ i. record {
        magic = advert.magic;
        version = advert.version;
        reserved = advert.reserved;
        node_id = take_behind advert.node_id (tail_bytes advert) long i;
        tcp_port_be = ap (λ l. take 2 l) (at 0) i;
        padding = ap (λ l. take 2 l) (at 2) i;
        cpu_usage_bits_be = ap (λ l. take 4 l) (at 4) i;
        memory_available_be = ap (λ l. take 8 l) (at 8) i;
        memory_total_be = ap (λ l. take 8 l) (at 16) i;
        temperature_bits_be = ap (λ l. take 4 l) (at 24) i;
        flags_be = ap (λ l. take 4 l) (at 28) i;
      }

  length-packet_bytes : length (packet_bytes advert) ≡ 72
  unfolding build_advert to_be
  length-packet_bytes =
      let sum = length-append advert.node_id (tail_bytes advert) in omega (arith, sum, long)

same_bytes_refl : (xs : List ℕ) → same_bytes xs xs ≡ true
same_bytes_refl [] = refl
same_bytes_refl (x ∷ xs) = ground (arith, same_bytes_refl xs)

-- What fits the packet: an id of at most 31 bytes without a NUL, which is the string of its bytes, a
-- port of 16 bits and memory sizes of 64.
pub record IsAdvertisable {F : Type 0} (bytes : String → List ℕ) (text : List ℕ → String)
    (s : PeerDiscovery F) : Type 0 where
  pub id_text : text (bytes s.node_id) ≡ s.node_id
  pub id_short : length (bytes s.node_id) ≤ 31
  pub id_plain : elem 0 (bytes s.node_id) ≡ false
  pub port_lt : s.tcp_port < 2 ^ 16
  pub available_lt : s.local_resources.memory_available_bytes < 2 ^ 64
  pub total_lt : s.local_resources.memory_total_bytes < 2 ^ 64

-- What a node is to those that hear it.
abbrev pub advertised : {F : Type 0} → F → PeerDiscovery F → String → Timestamp → PeerInfo F
advertised zero_float s sender_addr wall = record {
  node_id = s.node_id;
  address = sender_addr;
  tcp_port = s.tcp_port;
  reachable = true;
  resources = record {
    node_id = s.node_id;
    timestamp = wall;
    cpu_usage_percent = s.local_resources.cpu_usage_percent;
    per_core_cpu_percent = zero_float ∷ zero_float ∷ zero_float ∷ zero_float ∷ [];
    memory_available_bytes = s.local_resources.memory_available_bytes;
    memory_total_bytes = s.local_resources.memory_total_bytes;
    cpu_temperature_celsius = s.local_resources.cpu_temperature_celsius;
    gpu_temperature_celsius = zero_float;
    network_rx_bytes_sec = 0;
    network_tx_bytes_sec = 0;
    is_throttled = s.local_resources.is_throttled;
  };
}

flag_back : (b : Bool) → (of_be (to_be 4 (if b then 1 else 0)) % 2 == 1) ≡ b
unfolding to_be
flag_back true = refl
flag_back false = refl

module _ {F : Type 0} (float_bits : FloatBits F) (bytes : String → List ℕ) (text : List ℕ → String)
    (zero_float : F) (s : PeerDiscovery F) (fits : IsAdvertisable bytes text s)
    (sender_addr : String) (wall : Timestamp) where
  open float_bits use {to_bits, of_bits, to_bits_lt, of_bits-to_bits}

  float_back : (x : F) → of_bits (of_be (to_be 4 (to_bits x))) ≡ x
  float_back x =
      ap (λ (n : ℕ). of_bits n) (of_be-to_be 4 (to_bits x) (omega (arith, to_bits_lt x)))
      ∙ of_bits-to_bits x

  id_back : text (until_nul (padded_id float_bits (bytes s.node_id))) ≡ s.node_id
  id_back =
      let id = bytes s.node_id in
      let whole = take_all 31 id fits.id_short in
      let room : 32 - length id ≡ suc (31 - length id) = omega (arith, fits.id_short) in
      rw (whole, room) (ap text (until_nul-padded id (31 - length id) fits.id_plain) ∙ fits.id_text)

  parse_advert-build_advert :
      parse_advert float_bits text zero_float (build_advert float_bits bytes s) sender_addr wall
      ≡ advertised zero_float s sender_addr wall
  unfolding parse_advert build_advert
  parse_advert-build_advert =
      let r = s.local_resources in
      λ i. record {
        node_id = id_back i;
        address = sender_addr;
        tcp_port = of_be-to_be 2 s.tcp_port (omega (arith, fits.port_lt)) i;
        reachable = true;
        resources = record {
          node_id = id_back i;
          timestamp = wall;
          cpu_usage_percent = float_back r.cpu_usage_percent i;
          per_core_cpu_percent = zero_float ∷ zero_float ∷ zero_float ∷ zero_float ∷ [];
          memory_available_bytes =
              of_be-to_be 8 r.memory_available_bytes (omega (arith, fits.available_lt)) i;
          memory_total_bytes = of_be-to_be 8 r.memory_total_bytes (omega (arith, fits.total_lt)) i;
          cpu_temperature_celsius = float_back r.cpu_temperature_celsius i;
          gpu_temperature_celsius = zero_float;
          network_rx_bytes_sec = 0;
          network_tx_bytes_sec = 0;
          is_throttled = flag_back r.is_throttled i;
        };
      }

  magic_and_version :
      (same_bytes (advert float_bits bytes s).magic magic
        && ((advert float_bits bytes s).version == protocol_version))
      ≡ true
  unfolding build_advert
  magic_and_version = refl

  hear-meet :
      (now : ℕ) (receiver : PeerDiscovery F)
      → hear float_bits text zero_float
          (packet_bytes (advert float_bits bytes s))
          sender_addr
          wall
          now
          receiver
        ≡ meet (advertised zero_float s sender_addr wall) now receiver
  unfolding hear build_advert meet
  hear-meet now receiver =
      ap
        (λ (received : List ℕ).
          take_advert float_bits text zero_float received sender_addr wall now receiver)
        (take_all 72 (packet_bytes (advert float_bits bytes s))
          (omega (arith, length-packet_bytes float_bits bytes s)))
      ∙ rw
          (
            length-packet_bytes float_bits bytes s,
            packet_of-advert float_bits bytes s,
            parse_advert-build_advert,
            magic_and_version,
          )
          refl

  find-meet :
      (peer : PeerInfo F) (now : ℕ) (receiver : PeerDiscovery F)
      → peer.node_id ≢ receiver.node_id
      → find peer.node_id (meet peer now receiver).known_peers
        ≡ some (record { info = peer; last_seen = now })
  unfolding meet
  find-meet peer now receiver other =
      ap (λ (r : PeerDiscovery F). find peer.node_id r.known_peers)
        (if_neg (String_discrete peer.node_id receiver.node_id) other _ _)
      ∙ written (find peer.node_id receiver.known_peers)
    where
      written :
          (o : Option (PeerRecord F))
          → find peer.node_id (remember peer now o receiver).known_peers
            ≡ some (record { info = peer; last_seen = now })
      written none =
          find-assign peer.node_id peer.node_id _ receiver.known_peers
          ∙ if_pos (String_discrete peer.node_id peer.node_id) refl _ _
      written (some old) =
          find-assign peer.node_id peer.node_id _ receiver.known_peers
          ∙ if_pos (String_discrete peer.node_id peer.node_id) refl _ _

  -- When a node's id has at most 31 bytes and no NUL and is the string of its bytes, its port is
  -- below 2 ^ 16 and its memory sizes are below 2 ^ 64, a node of another id that hears the
  -- packet which it builds knows it with its id, port, processor load, memory sizes, temperature
  -- and throttling, with the sender's address, as reachable and as seen now.
  pub hear-advert :
      (now : ℕ) (receiver : PeerDiscovery F)
      → s.node_id ≢ receiver.node_id
      → find s.node_id
          (hear float_bits text zero_float
            (packet_bytes (build_advert float_bits bytes s))
            sender_addr
            wall
            now
            receiver).known_peers
        ≡ some (record { info = advertised zero_float s sender_addr wall; last_seen = now })
  hear-advert now receiver other =
      rw (hear-meet now receiver)
        (find-meet (advertised zero_float s sender_addr wall) now receiver other)
