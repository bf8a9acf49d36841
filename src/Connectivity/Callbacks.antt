-- ===== src/Connectivity/Callbacks.antt =====
-- The callbacks follow the state machine that the package documents.
use go_libp2p_hybrid_kad_dht.Prelude.{
  ℕ, ◌+◌, ◌*◌, ◌≡◌, refl, sym, ap, ◌∙◌, min, Bool, true, false, ◌&&◌, Option, none, some, List, [],
  ◌∷◌, ltb, if◌then◌else◌, arith, Bool-cases, inl, inr, subst,
}
use go_libp2p_hybrid_kad_dht.Connectivity.{
  on_online, on_disconnected, on_offline, Probing, ConnectivityChecker, call, state_changed,
  enter_probe_loop, start, try_check, trigger_check, Wake, probe_timer, offline_fired,
  probe_loop_step, max_backoff_delay,
}
use go_libp2p_hybrid_kad_dht.Connectivity.Status.{
  Status, move, follow, Backoff, Shows, Follows, follow_call, new-Backoff, enter-Follows, offline,
  online, disconnected,
}

-- `TriggerCheck` of a node that is online.
idle-Follows :
    (s0 : Status) (now : ℕ) (reachable : Bool) (c : ConnectivityChecker)
    → follow s0 c.calls ≡ some online
    → c.online ≡ true
    → c.probing ≡ none
    → c.done ≡ false
    → c.closed ≡ false
    → Follows s0 (try_check now reachable none c)
unfolding try_check
idle-Follows s0 now reachable c t on idle d cl =
    let recent = c.online && ltb now (c.last_check + c.online_check_interval) in
    subst (Follows s0) (sym (ap (λ b. if b then c else if recent then c else checked reachable) cl))
      (elim (Bool-cases recent) [
        | inl too_recent ↦
            subst (Follows s0) (sym (ap (λ b. if b then c else checked reachable) too_recent))
              (record {
                now_in = online;
                trace = t;
                shows = (on, idle);
                not_done = d;
                not_closed = cl;
              })
        | inr due ↦
            subst (Follows s0) (sym (ap (λ b. if b then c else checked reachable) due))
              (after_check reachable)
      ])
  where
    checked : Bool → ConnectivityChecker
    checked r =
        if r
        then record c { last_check = now }
        else enter_probe_loop now true
            (call on_disconnected (record (state_changed now c) { online = false }))

    after_check : (r : Bool) → Follows s0 (checked r)
    after_check true = record {
      now_in = online;
      trace = t;
      shows = (on, idle);
      not_done = d;
      not_closed = cl;
    }
    after_check false =
        enter-Follows s0 now
          (call on_disconnected (record (state_changed now c) { online = false }))
          (follow_call s0 online disconnected c.calls on_disconnected t refl) refl d cl

trigger_check-Follows :
    (s0 : Status) (now : ℕ) (reachable : Bool) (c : ConnectivityChecker)
    → Follows s0 c
    → Follows s0 (trigger_check now reachable c)
unfolding trigger_check
trigger_check-Follows s0 now reachable c f = at_status f.now_in refl
  where
    at_status : (s : Status) → f.now_in ≡ s → Follows s0 (trigger_check now reachable c)
    at_status online e =
        let shown = subst (λ s. Shows s c) e f.shows in
        subst (Follows s0) (sym (ap (λ o. try_check now reachable o c) shown.1)) (
          idle-Follows s0 now reachable c (f.trace ∙ ap some e) shown.0 shown.1 f.not_done
            f.not_closed)
    at_status offline e =
        let shown = subst (λ s. Shows s c) e f.shows in
        subst (Follows s0) (sym (ap (λ o. try_check now reachable o c) shown.2)) f
    at_status disconnected e =
        let shown = subst (λ s. Shows s c) e f.shows in
        subst (Follows s0) (sym (ap (λ o. try_check now reachable o c) shown.2)) f

-- What comes up while the checker runs: a call, or a timer of the loop if it runs.
pub data Event : Type 0 where
  triggered : ℕ → Bool → Event
  probe_due : ℕ → Bool → Event
  offline_due : ℕ → Event

abbrev wake : ℕ → Bool → Wake → Option Probing → ConnectivityChecker → ConnectivityChecker
wake now reachable w none c = c
wake now reachable w (some p) c = probe_loop_step now reachable w p c

abbrev pub run_event : Event → ConnectivityChecker → ConnectivityChecker
run_event (triggered now reachable) c = trigger_check now reachable c
run_event (probe_due now reachable) c = wake now reachable probe_timer c.probing c
run_event (offline_due now) c = wake now false offline_fired c.probing c

abbrev pub run_events : List Event → ConnectivityChecker → ConnectivityChecker
run_events [] c = c
run_events (ev ∷ evs) c = run_events evs (run_event ev c)

-- A probe of a loop that runs in the state `s`.
probe-Follows :
    (s0 s : Status) (now : ℕ) (reachable : Bool) (p : Probing) (c : ConnectivityChecker)
    → follow s0 c.calls ≡ some s
    → move on_online s ≡ some online
    → ((q : Probing)
        → q.offline_timer ≡ p.offline_timer
        → Backoff q
        → Shows s (record c { probing = some q }))
    → Backoff p
    → c.done ≡ false
    → c.closed ≡ false
    → Follows s0 (probe_loop_step now reachable probe_timer p c)
unfolding probe_loop_step
probe-Follows s0 s now true p c t m shows b d cl = rw d (record {
  now_in = online;
  trace = follow_call s0 s online c.calls on_online t m;
  shows = (refl, refl);
  not_done = refl;
  not_closed = cl;
})
probe-Follows s0 s now false p c t m shows b d cl = record {
  now_in = s;
  trace = t;
  shows =
      shows (record p { delay = min (2 * p.delay) max_backoff_delay }) refl
        (omega (arith, b.0, b.1), omega arith);
  not_done = d;
  not_closed = cl;
}

run_event-Follows :
    (s0 : Status) (ev : Event) (c : ConnectivityChecker)
    → Follows s0 c
    → Follows s0 (run_event ev c)
unfolding probe_loop_step
run_event-Follows s0 (triggered now reachable) c f = trigger_check-Follows s0 now reachable c f
run_event-Follows s0 (probe_due now reachable) c f = at_status f.now_in refl
  where
    at_status :
        (s : Status) → f.now_in ≡ s → Follows s0 (wake now reachable probe_timer c.probing c)
    at_status online e =
        let shown = subst (λ s. Shows s c) e f.shows in
        subst (Follows s0) (sym (ap (λ o. wake now reachable probe_timer o c) shown.1)) f
    at_status offline e =
        let shown = subst (λ s. Shows s c) e f.shows in
        subst (Follows s0) (sym (ap (λ o. wake now reachable probe_timer o c) shown.2)) (
          probe-Follows s0 offline now reachable shown.1 c (f.trace ∙ ap some e) refl
            (λ q t b. (shown.0, q, refl, t ∙ shown.3, b)) shown.4 f.not_done f.not_closed)
    at_status disconnected e =
        let shown = subst (λ s. Shows s c) e f.shows in
        subst (Follows s0) (sym (ap (λ o. wake now reachable probe_timer o c) shown.2)) (
          probe-Follows s0 disconnected now reachable shown.1 c (f.trace ∙ ap some e) refl
            (λ q t b. (shown.0, q, refl, t ∙ shown.3, b)) shown.4 f.not_done f.not_closed)
run_event-Follows s0 (offline_due now) c f = at_status f.now_in refl
  where
    fired : Bool → Probing → ConnectivityChecker
    fired b p =
        if b
        then call on_offline
            (record (state_changed now c) { probing = some (record p { offline_timer = false }) })
        else c

    at_status : (s : Status) → f.now_in ≡ s → Follows s0 (wake now false offline_fired c.probing c)
    at_status online e =
        let shown = subst (λ s. Shows s c) e f.shows in
        subst (Follows s0) (sym (ap (λ o. wake now false offline_fired o c) shown.1)) f
    at_status offline e =
        let shown = subst (λ s. Shows s c) e f.shows in
        subst (Follows s0)
          (sym (
            ap (λ o. wake now false offline_fired o c) shown.2 ∙ ap (λ b. fired b shown.1) shown.3))
          f
    at_status disconnected e =
        let shown = subst (λ s. Shows s c) e f.shows in
        subst (Follows s0)
          (sym (
            ap (λ o. wake now false offline_fired o c) shown.2 ∙ ap (λ b. fired b shown.1) shown.3))
          (record {
            now_in = offline;
            trace =
                follow_call s0 disconnected offline c.calls on_offline (f.trace ∙ ap some e) refl;
            shows = (shown.0, record shown.1 { offline_timer = false }, refl, refl, shown.4);
            not_done = f.not_done;
            not_closed = f.not_closed;
          })

-- A checker before its start.
abbrev pub Fresh : ConnectivityChecker → Type 0
Fresh c =
    (c.online ≡ false) × (c.probing ≡ none) × (c.calls ≡ []) × (c.done ≡ false) × (c.closed ≡ false)

started :
    (c : ConnectivityChecker) (now : ℕ) (reachable : Bool)
    → Fresh c
    → Follows (if c.start_disconnected then disconnected else offline) (start now reachable c)
unfolding start
started c now true fresh =
    let s0 : Status = if c.start_disconnected then disconnected else offline in
    rw fresh.3 (record {
      now_in = online;
      trace =
          follow_call s0 s0 online c.calls on_online (ap (follow s0) fresh.2)
            (first_move c.start_disconnected);
      shows = (refl, fresh.1);
      not_done = refl;
      not_closed = fresh.4;
    })
  where
    first_move : (b : Bool) → move on_online (if b then disconnected else offline) ≡ some online
    first_move true = refl
    first_move false = refl
started c now false fresh = entered c.start_disconnected
  where
    entered : (b : Bool) → Follows (if b then disconnected else offline) (enter_probe_loop now b c)
    entered true =
        enter-Follows disconnected now c (ap (follow disconnected) fresh.2) fresh.0 fresh.3 fresh.4
    entered false = record {
      now_in = offline;
      trace = ap (follow offline) fresh.2;
      shows = (fresh.0, record { delay = 100; offline_timer = false }, refl, refl, new-Backoff);
      not_done = fresh.3;
      not_closed = fresh.4;
    }

run_events-Follows :
    (s0 : Status) (evs : List Event) (c : ConnectivityChecker)
    → Follows s0 c
    → Follows s0 (run_events evs c)
run_events-Follows s0 [] c f = f
run_events-Follows s0 (ev ∷ evs) c f =
    run_events-Follows s0 evs (run_event ev c) (run_event-Follows s0 ev c f)

-- A checker that is started fresh, and is not closed, is at any time in one of the documented
-- states, whatever calls, probes and timers came up: its callbacks lead from the state it started
-- in, Disconnected or Offline, to the state that its fields show, along the documented
-- transitions only; and while it is not online its probes go on, with a delay from 100
-- milliseconds to one minute.
pub run_events-documented :
    (c : ConnectivityChecker) (now : ℕ) (reachable : Bool) (evs : List Event)
    → Fresh c
    → Follows
        (if c.start_disconnected then disconnected else offline)
        (run_events evs (start now reachable c))
run_events-documented c now reachable evs fresh =
    run_events-Follows _ evs (start now reachable c) (started c now reachable fresh)
