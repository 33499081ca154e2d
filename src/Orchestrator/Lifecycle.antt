-- ===== src/Orchestrator/Lifecycle.antt =====
-- src/orchestrator/orchestrator.hpp: start and stop, and the callbacks that start registers. The calls that
-- start and stop each part are counted apart, as are the callbacks that discovery holds.
use edge_orchestrator_ai.Prelude.{
  ℕ, ◌+◌, ◌≤◌, ◌≡◌, refl, ap, Bool, true, false, List, [], ◌∷◌, arith, one_if,
}
use edge_orchestrator_ai.Core.Result.{Result, ok, err, Error, error_of}
use edge_orchestrator_ai.Scheduler.Plan.{PeerInfo}
use edge_orchestrator_ai.Network.ClusterView.{update_peer, remove_peer}
use edge_orchestrator_ai.Orchestrator.Offloading.{Orchestrator, record_metric, peer_event}

-- The calls that a part has had.
pub record Part : Type 0 where
  pub start_count : ℕ
  pub stop_count : ℕ

abbrev pub new_part : Part
new_part = record { start_count = 0; stop_count = 0 }

abbrev pub part_started : Part → Part
part_started p = record p { start_count = p.start_count + 1 }

abbrev pub part_stopped : Part → Part
part_stopped p = record p { stop_count = p.stop_count + 1 }

pub record Lifecycle : Type 0 where
  pub running : Bool
  pub monitor : Part
  pub discovered_callbacks : ℕ
  pub lost_callbacks : ℕ
  pub server : Part
  pub discovery : Part
  pub resource_thread : Part

abbrev pub make_lifecycle : Lifecycle
make_lifecycle = record {
  running = false;
  monitor = new_part;
  discovered_callbacks = 0;
  lost_callbacks = 0;
  server = new_part;
  discovery = new_part;
  resource_thread = new_part;
}

-- The server serves if it can listen; the node starts without it otherwise.
abbrev pub serves : Result (Unit {0}) Error → Part → Part
serves (ok listening) p = part_started p
serves (err e) p = p

abbrev pub starts_up :
    Bool → Result (Unit {0}) Error → Lifecycle → Result (Unit {0}) Error × Lifecycle
starts_up true listen_result l = (err (error_of "Already running"), l)
starts_up false listen_result l = (
  ok tt,
  record l {
    running = true;
    monitor = part_started l.monitor;
    discovered_callbacks = l.discovered_callbacks + 1;
    lost_callbacks = l.lost_callbacks + 1;
    server = serves listen_result l.server;
    discovery = part_started l.discovery;
    resource_thread = part_started l.resource_thread;
  },
)

unfoldable pub start : Result (Unit {0}) Error → Lifecycle → Result (Unit {0}) Error × Lifecycle
start listen_result l = starts_up l.running listen_result l

abbrev pub stopped : Bool → Lifecycle → Lifecycle
stopped false l = l
stopped true l = record l {
  running = false;
  resource_thread = part_stopped l.resource_thread;
  discovery = part_stopped l.discovery;
  server = part_stopped l.server;
  monitor = part_stopped l.monitor;
}

unfoldable pub stop : Lifecycle → Lifecycle
stop l = stopped l.running l

pub data Command : Type 0 where
  starts : Result (Unit {0}) Error → Command
  stops : Command

unfoldable pub commands : List Command → Lifecycle → Lifecycle
commands [] l = l
commands (starts listen_result ∷ cs) l = commands cs (start listen_result l).1
commands (stops ∷ cs) l = commands cs (stop l)

module _ {F : Type 0} where
  unfoldable pub peer_discovered : PeerInfo F → Orchestrator F → Orchestrator F
  peer_discovered peer s =
      record_metric (peer_event peer.node_id "discovered")
        (record s { peers = update_peer peer s.peers })

  unfoldable pub peer_lost : PeerInfo F → Orchestrator F → Orchestrator F
  peer_lost peer s =
      record_metric (peer_event peer.node_id "lost")
        (record s { peers = remove_peer peer.node_id s.peers })

-- One of each runs while the node does, and none otherwise; each start has registered the callbacks.
record Balanced (l : Lifecycle) : Type 0 where
  monitor : l.monitor.start_count ≡ l.monitor.stop_count + one_if l.running
  discovery : l.discovery.start_count ≡ l.discovery.stop_count + one_if l.running
  resource_thread : l.resource_thread.start_count ≡ l.resource_thread.stop_count + one_if l.running
  server : l.server.start_count ≤ l.server.stop_count + one_if l.running
  stops_alike : l.server.stop_count ≡ l.monitor.stop_count
  discovered : l.discovered_callbacks ≡ l.monitor.start_count
  lost : l.lost_callbacks ≡ l.monitor.start_count

start-Balanced :
    (listen_result : Result (Unit {0}) Error) (l : Lifecycle)
    → Balanced l
    → Balanced (start listen_result l).1
unfolding start
start-Balanced listen_result l b = from l.running refl listen_result
  where
    from :
        (r : Bool)
        → l.running ≡ r
        → (listens : Result (Unit {0}) Error) → Balanced (starts_up r listens l).1
    from true e listens = b
    from false e (ok listening) = record {
      monitor = omega (arith, b.monitor, ap one_if e);
      discovery = omega (arith, b.discovery, ap one_if e);
      resource_thread = omega (arith, b.resource_thread, ap one_if e);
      server = omega (arith, b.server, ap one_if e);
      stops_alike = omega (arith, b.stops_alike);
      discovered = omega (arith, b.discovered);
      lost = omega (arith, b.lost);
    }
    from false e (err failure) = record {
      monitor = omega (arith, b.monitor, ap one_if e);
      discovery = omega (arith, b.discovery, ap one_if e);
      resource_thread = omega (arith, b.resource_thread, ap one_if e);
      server = omega (arith, b.server, ap one_if e);
      stops_alike = omega (arith, b.stops_alike);
      discovered = omega (arith, b.discovered);
      lost = omega (arith, b.lost);
    }

stop-Balanced : (l : Lifecycle) → Balanced l → Balanced (stop l)
unfolding stop
stop-Balanced l b = from l.running refl
  where
    from : (r : Bool) → l.running ≡ r → Balanced (stopped r l)
    from false e = b
    from true e = record {
      monitor = omega (arith, b.monitor, ap one_if e);
      discovery = omega (arith, b.discovery, ap one_if e);
      resource_thread = omega (arith, b.resource_thread, ap one_if e);
      server = omega (arith, b.server, ap one_if e);
      stops_alike = omega (arith, b.stops_alike);
      discovered = omega (arith, b.discovered);
      lost = omega (arith, b.lost);
    }

commands-Balanced : (cs : List Command) (l : Lifecycle) → Balanced l → Balanced (commands cs l)
unfolding commands
commands-Balanced [] l b = b
commands-Balanced (starts listen_result ∷ cs) l b =
    commands-Balanced cs (start listen_result l).1 (start-Balanced listen_result l b)
commands-Balanced (stops ∷ cs) l b = commands-Balanced cs (stop l) (stop-Balanced l b)

-- After any sequence of calls of start and stop on a new orchestrator, whether its port can be
-- listened on or not, the monitor, the discovery and the resource thread have been started once
-- more than stopped if it is running, and as often as stopped otherwise; the server has been
-- stopped as often as the monitor, and started at most once more than stopped if it is running,
-- and at most as often otherwise; and discovery holds one callback of each kind for each time
-- that the monitor has been started.
pub commands-balanced :
    (cs : List Command)
    → ((commands cs make_lifecycle).monitor.start_count
        ≡ (commands cs make_lifecycle).monitor.stop_count
          + one_if (commands cs make_lifecycle).running)
      × ((commands cs make_lifecycle).discovery.start_count
          ≡ (commands cs make_lifecycle).discovery.stop_count
            + one_if (commands cs make_lifecycle).running)
      × ((commands cs make_lifecycle).resource_thread.start_count
          ≡ (commands cs make_lifecycle).resource_thread.stop_count
            + one_if (commands cs make_lifecycle).running)
      × ((commands cs make_lifecycle).server.start_count
          ≤ (commands cs make_lifecycle).server.stop_count
            + one_if (commands cs make_lifecycle).running)
      × ((commands cs make_lifecycle).server.stop_count
          ≡ (commands cs make_lifecycle).monitor.stop_count)
      × ((commands cs make_lifecycle).discovered_callbacks
          ≡ (commands cs make_lifecycle).monitor.start_count)
      × ((commands cs make_lifecycle).lost_callbacks
          ≡ (commands cs make_lifecycle).monitor.start_count)
commands-balanced cs =
    let b = commands-Balanced cs make_lifecycle (record {
      monitor = refl;
      discovery = refl;
      resource_thread = refl;
      server = omega arith;
      stops_alike = refl;
      discovered = refl;
      lost = refl;
    }) in
    (b.monitor, b.discovery, b.resource_thread, b.server, b.stops_alike, b.discovered, b.lost)
