-- ===== src/Network/Discovery/Tests.antt =====
-- Discovery on small inputs, with a type of two values for floats, and the theorems at these.
use Prim.Native.String
use Prim.Native.Char
use edge_orchestrator_ai.Prelude.{
  ℕ, ◌^◌, ◌<◌, ◌≡◌, ◌≢◌, refl, ap, Bool, true, false, List, [], ◌∷◌, some, String, arith, elem,
  string_key, nat_key, ℕ_discrete, String_discrete, Distinct, ◌==◌, if◌then◌else◌, length,
}
use edge_orchestrator_ai.Prelude.HashMap.{find, assign, keys}
use edge_orchestrator_ai.Core.Types.{ResourceSnapshot}
use edge_orchestrator_ai.Network.Discovery.{
  to_be, packet_bytes, FloatBits, PeerDiscovery, make_discovery, build_advert, parse_advert, hear,
  meet, evict, sweep, notify_discovered, notify_lost, known_peer_count,
}
use edge_orchestrator_ai.Network.Discovery.Packet.{IsAdvertisable, advertised, hear-advert}
use edge_orchestrator_ai.Network.Discovery.Turns.{
  Turn, hears, tells_discovered, sweeps, tells_lost, turns,
}
use edge_orchestrator_ai.Network.Discovery.Peers.{IsConsistent, turns-IsConsistent}

abbrev pattern_of : Bool → ℕ
pattern_of true = 1
pattern_of false = 0

pattern_lt : (b : Bool) → pattern_of b < 2 ^ 32
pattern_lt true = omega arith
pattern_lt false = omega arith

pattern_back : (b : Bool) → (pattern_of b == 1) ≡ b
pattern_back true = refl
pattern_back false = refl

abbrev float_bits : FloatBits Bool
float_bits = record {
  to_bits = pattern_of;
  of_bits = λ n. n == 1;
  to_bits_lt = pattern_lt;
  of_bits-to_bits = pattern_back;
}

-- The codes of the characters, and the characters that the tests use.
abbrev bytes : String → List ℕ
bytes String.[] = []
bytes (String.◌∷◌ c s) = Char.code c ∷ bytes s

abbrev letter : ℕ → String
letter n = if n == 112 then "p" else if n == 113 then "q" else "1"

abbrev text : List ℕ → String
text [] = ""
text (b ∷ bs) = String.◌++◌ (letter b) (text bs)

abbrev resources : ResourceSnapshot Bool
resources = record {
  node_id = "";
  timestamp = 0;
  cpu_usage_percent = true;
  per_core_cpu_percent = [];
  memory_available_bytes = 70000;
  memory_total_bytes = 4294967297;
  cpu_temperature_celsius = false;
  gpu_temperature_celsius = false;
  network_rx_bytes_sec = 0;
  network_tx_bytes_sec = 0;
  is_throttled = true;
}

abbrev p : PeerDiscovery Bool
p = make_discovery "p1" 5201 6000 resources

abbrev q : PeerDiscovery Bool
q = make_discovery "q1" 5202 6000 resources

p-IsAdvertisable : IsAdvertisable bytes text p
unfolding elem ℕ_discrete
p-IsAdvertisable = record {
  id_text = refl;
  id_short = omega arith;
  id_plain = refl;
  port_lt = omega arith;
  available_lt = omega arith;
  total_lt = omega arith;
}

other : p.node_id ≢ q.node_id
unfolding elem String_discrete
other e = let bad : true ≡ false = ap (λ (id : String). elem id (p.node_id ∷ [])) e in cc

hear-advert_example :
    find "p1"
      (hear float_bits text false
        (packet_bytes (build_advert float_bits bytes p))
        "10.0.0.2"
        9
        5
        q).known_peers
    ≡ some (record { info = advertised false p "10.0.0.2" 9; last_seen = 5 })
hear-advert_example =
    hear-advert float_bits bytes text false p p-IsAdvertisable "10.0.0.2" 9 5 q other

-- q hears p twice, tells of it, and later loses it.
abbrev history : List (Turn Bool)
history =
    hears (packet_bytes (build_advert float_bits bytes p)) "10.0.0.2" 9 5
    ∷ tells_discovered
    ∷ hears (packet_bytes (build_advert float_bits bytes p)) "10.0.0.2" 11 7
    ∷ sweeps 6000000007
    ∷ sweeps 6000000008
    ∷ tells_lost
    ∷ []

turns-IsConsistent_example : IsConsistent (turns float_bits text false history q)
turns-IsConsistent_example =
    turns-IsConsistent float_bits text false "q1" 5202 6000 resources history

program : Unit {0}
unfolding to_be build_advert parse_advert hear meet evict sweep notify_discovered notify_lost find
    assign elem String_discrete ℕ_discrete
program = tt

history_runs :
    (length (turns float_bits text false history q).notices ≡ 2)
    × (known_peer_count (turns float_bits text false history q) ≡ 0)
unfolding program
history_runs = (refl, refl)

abbrev one_known : PeerDiscovery Bool
one_known = record q {
  known_peers = ("p1", record { info = advertised false p "10.0.0.2" 9; last_seen = 5 }) ∷ [];
}

one_known-Distinct : Distinct (keys one_known.known_peers)
unfolding elem
one_known-Distinct = (refl, tt)
