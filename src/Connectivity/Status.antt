-- ===== src/Connectivity/Status.antt =====
-- The states that the package documents, and what shows them.
use go_libp2p_hybrid_kad_dht.Prelude.{
  ℕ, ◌≤◌, ◌≡◌, refl, sym, ap, ◌∙◌, true, false, Option, none, some, List, [], ◌∷◌, ◌++◌, ◌==◌,
  arith, Bool-cases, inl, inr, ◌>>=◌, fun_ext,
}
use go_libp2p_hybrid_kad_dht.Connectivity.{
  Callback, on_online, on_disconnected, on_offline, Probing, ConnectivityChecker, enter_probe_loop,
  initial_backoff_delay, max_backoff_delay,
}

-- The states of the documentation, and what a callback reports.
pub data Status : Type 0 where
  offline online disconnected : Status

abbrev pub move : Callback → Status → Option Status
move on_online offline = some online
move on_online disconnected = some online
move on_disconnected online = some disconnected
move on_offline disconnected = some offline
move _ _ = none

abbrev pub follow : Status → List Callback → Option Status
follow s [] = some s
follow s (f ∷ fs) = move f s >>= λ s'. follow s' fs

pub option_eta : (o : Option Status) → (o >>= λ s. some s) ≡ o
option_eta none = refl
option_eta (some s) = refl

pub bind-bind :
    (o : Option Status) (g h : Status → Option Status) → ((o >>= g) >>= h) ≡ (o >>= λ s. g s >>= h)
bind-bind none g h = refl
bind-bind (some s) g h = refl

pub follow-append :
    (fs : List Callback) (s : Status) (f : Callback)
    → follow s (fs ++ f ∷ []) ≡ (follow s fs >>= move f)
follow-append [] s f = option_eta (move f s)
follow-append (g ∷ fs) s f =
    ap (λ k. move g s >>= k) (fun_ext (λ s'. follow-append fs s' f))
    ∙ sym (bind-bind (move g s) (λ s'. follow s' fs) (move f))

-- The delay of the probes is within its bounds.
abbrev pub Backoff : Probing → Type 0
Backoff p = (initial_backoff_delay ≤ p.delay) × (p.delay ≤ max_backoff_delay)

-- What the fields show in a state.
abbrev pub Shows : Status → ConnectivityChecker → Type 0
Shows online c = (c.online ≡ true) × (c.probing ≡ none)
Shows disconnected c =
    (c.online ≡ false) × (p : Probing) × (c.probing ≡ some p) × (p.offline_timer ≡ true) × Backoff p
Shows offline c =
    (c.online ≡ false)
    × (p : Probing) × (c.probing ≡ some p)
    × (p.offline_timer ≡ false)
    × Backoff p

-- Since the start in the state `s0` the callbacks have led to the state that the fields show.
pub record Follows (s0 : Status) (c : ConnectivityChecker) : Type 0 where
  pub now_in : Status
  pub trace : follow s0 c.calls ≡ some now_in
  pub shows : Shows now_in c
  pub not_done : c.done ≡ false
  pub not_closed : c.closed ≡ false

-- One callback more.
pub follow_call :
    (s0 s t : Status) (fs : List Callback) (f : Callback)
    → follow s0 fs ≡ some s
    → move f s ≡ some t
    → follow s0 (fs ++ f ∷ []) ≡ some t
follow_call s0 s t fs f h m = follow-append fs s0 f ∙ ap (λ o. o >>= move f) h ∙ m

pub new-Backoff : Backoff (record { delay = 100; offline_timer = true })
new-Backoff = (omega arith, omega arith)

pub enter-Follows :
    (s0 : Status) (now : ℕ) (c : ConnectivityChecker)
    → follow s0 c.calls ≡ some disconnected
    → c.online ≡ false
    → c.done ≡ false
    → c.closed ≡ false
    → Follows s0 (enter_probe_loop now true c)
unfolding enter_probe_loop
enter-Follows s0 now c t off d cl = elim (Bool-cases (c.offline_delay == 0)) [
  | inl at_once ↦ rw at_once (record {
    now_in = offline;
    trace = follow_call s0 disconnected offline c.calls on_offline t refl;
    shows = (off, record { delay = 100; offline_timer = false }, refl, refl, new-Backoff);
    not_done = d;
    not_closed = cl;
  })
  | inr later ↦ rw later (record {
    now_in = disconnected;
    trace = t;
    shows = (off, record { delay = 100; offline_timer = true }, refl, refl, new-Backoff);
    not_done = d;
    not_closed = cl;
  })
]
