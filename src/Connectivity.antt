-- ===== src/Connectivity.antt =====
-- provider/internal/connectivity/connectivity.go: whether the node is online, as a state machine.
--
-- The node's three states show in the fields: online; not online with the timer of the offline
-- delay running (disconnected); not online without it (offline). A time is a number of
-- milliseconds. The callbacks are the list of their calls, and what `checkFunc` answers is an
-- input of the steps. The mutex is held from the start of a check to the end of its probes.
pub mod Status
pub mod Callbacks
use go_libp2p_hybrid_kad_dht.Prelude.{
  ℕ, ◌+◌, ◌*◌, min, Bool, true, false, ◌&&◌, not, Option, none, some, List, [], ◌∷◌, ◌++◌, ltb,
  ◌==◌, if◌then◌else◌,
}

-- `initialBackoffDelay` and `maxBackoffDelay`.
abbrev pub initial_backoff_delay : ℕ
initial_backoff_delay = 100

abbrev pub max_backoff_delay : ℕ
max_backoff_delay = 60000

pub data Callback : Type 0 where
  on_online on_disconnected on_offline : Callback

-- What `probeLoop` is doing: its delay, and whether the offline timer can still fire.
pub record Probing : Type 0 where
  pub delay : ℕ
  pub offline_timer : Bool

-- `ConnectivityChecker`; `probing` is the loop that runs, with the mutex held, if one does.
pub record ConnectivityChecker : Type 0 where
  pub done : Bool
  pub closed : Bool
  pub online : Bool
  pub start_disconnected : Bool
  pub last_check : ℕ
  pub online_check_interval : ℕ
  pub last_state_change : ℕ
  pub offline_delay : ℕ
  pub probing : Option Probing
  pub calls : List Callback

abbrev pub call : Callback → ConnectivityChecker → ConnectivityChecker
call f c = record c { calls = c.calls ++ f ∷ [] }

-- `stateChanged`.
abbrev pub state_changed : ℕ → ConnectivityChecker → ConnectivityChecker
state_changed now c = record c { last_state_change = now }

-- `probe`, with the answer of `checkFunc`.
unfoldable pub probe : ℕ → Bool → ConnectivityChecker → ConnectivityChecker × Bool
probe now reachable c =
    if reachable
    then (if c.done then (c, true) else (
      call on_online (state_changed now (record c { online = true; last_check = now })),
      true,
    ))
    else (c, false)

-- The start of `probeLoop`.
unfoldable pub enter_probe_loop : ℕ → Bool → ConnectivityChecker → ConnectivityChecker
enter_probe_loop now disconnected c =
    let timed = disconnected && not (c.offline_delay == 0) in
    let c' =
      if disconnected && c.offline_delay == 0 then call on_offline (state_changed now c) else c in
    record c' { probing = some (record { delay = initial_backoff_delay; offline_timer = timed }) }

-- `Start`.
unfoldable pub start : ℕ → Bool → ConnectivityChecker → ConnectivityChecker
unfolding probe enter_probe_loop
start now reachable c =
    let (c', is_online) = probe now reachable c in
    if is_online then c' else enter_probe_loop now c'.start_disconnected c'

-- `TriggerCheck`, from what runs: while a loop runs the mutex is taken.
unfoldable pub try_check : ℕ → Bool → Option Probing → ConnectivityChecker → ConnectivityChecker
unfolding enter_probe_loop
try_check now reachable (some p) c = c
try_check now reachable none c =
    if c.closed
    then c
    else if c.online && ltb now (c.last_check + c.online_check_interval)
    then c
    else if reachable
    then record c { last_check = now }
    else enter_probe_loop now true
        (call on_disconnected (record (state_changed now c) { online = false }))

unfoldable pub trigger_check : ℕ → Bool → ConnectivityChecker → ConnectivityChecker
unfolding try_check
trigger_check now reachable c = try_check now reachable c.probing c

-- The cases of the `select` of `probeLoop`.
pub data Wake : Type 0 where
  done_closed probe_timer offline_fired : Wake

-- One round of `probeLoop`; a case that is not ready does nothing, and the offline timer fires
-- once.
unfoldable pub probe_loop_step :
    ℕ → Bool → Wake → Probing → ConnectivityChecker → ConnectivityChecker
unfolding probe
probe_loop_step now reachable done_closed p c = if c.done then record c { probing = none } else c
probe_loop_step now reachable probe_timer p c =
    let (c', is_online) = probe now reachable c in
    if is_online
    then record c' { probing = none }
    else record c' { probing = some (record p { delay = min (2 * p.delay) max_backoff_delay }) }
probe_loop_step now reachable offline_fired p c =
    if p.offline_timer
    then call on_offline
        (record (state_changed now c) { probing = some (record p { offline_timer = false }) })
    else c

-- `Close`: first the channel, then, when the mutex is free, the flag.
abbrev pub close_done : ConnectivityChecker → ConnectivityChecker
close_done c = record c { done = true }

abbrev pub close_end : ConnectivityChecker → ConnectivityChecker
close_end c = elim c.probing [ some p ↦ c | none ↦ record c { closed = true } ]

-- `IsOnline` and `LastStateChange`.
abbrev pub is_online : ConnectivityChecker → Bool
is_online c = c.online
