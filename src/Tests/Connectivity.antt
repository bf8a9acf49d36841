-- ===== src/Tests/Connectivity.antt =====
-- provider/internal/connectivity at concrete inputs.
use go_libp2p_hybrid_kad_dht.Prelude.{◌≡◌, refl, true, false, none, List, [], ◌∷◌}
use go_libp2p_hybrid_kad_dht.Connectivity.{
  on_online, on_disconnected, on_offline, ConnectivityChecker, start, trigger_check,
  probe_loop_step,
}
use go_libp2p_hybrid_kad_dht.Connectivity.Status.{Follows, offline}
use go_libp2p_hybrid_kad_dht.Connectivity.Callbacks.{
  Event, triggered, probe_due, offline_due, run_events, run_events-documented,
}

-- A checker with an offline delay of 5 seconds, before its start.
abbrev checker : ConnectivityChecker
checker = record {
  done = false;
  closed = false;
  online = false;
  start_disconnected = false;
  last_check = 0;
  online_check_interval = 1000;
  last_state_change = 0;
  offline_delay = 5000;
  probing = none;
  calls = [];
}

-- Offline, online at 100, not reachable at 2000, offline at 7000, and back at 9000.
abbrev events : List Event
events = probe_due 100 true ∷ triggered 2000 false ∷ offline_due 7000 ∷ probe_due 9000 true ∷ []

calls_run :
    (run_events events (start 0 false checker)).calls
    ≡ on_online ∷ on_disconnected ∷ on_offline ∷ on_online ∷ []
unfolding start trigger_check probe_loop_step
calls_run = refl

run_events-documented_example : Follows offline (run_events events (start 0 false checker))
run_events-documented_example =
    run_events-documented checker 0 false events (refl, refl, refl, refl, refl)
