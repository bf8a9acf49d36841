-- ===== src/Query.antt =====
-- query.go: one lookup, as a state machine.
--
-- The goroutines that query the peers are outside of the machine: it starts them, and what they
-- find comes back as updates. `none` is a panic. The answer of `stopFn`, which reads the state of
-- its caller, is an input of each round.
pub mod Found
pub mod Termination
pub mod Sound
pub mod Updates
pub mod Rounds
pub mod Done
pub mod Inside
pub mod Waits
pub mod Going
pub mod Ends
pub mod Result
use go_libp2p_hybrid_kad_dht.Prelude.{
  ℕ, zero, suc, ◌+◌, ◌-◌, Bool, true, false, ◌&&◌, ◌||◌, not, Option, none, some, List, [], ◌∷◌,
  ◌++◌, select, ltb, leb, ◌==◌, if◌then◌else◌, Eq, Map, lookup, put, ◌>>=◌,
}
use go_libp2p_hybrid_kad_dht.QueryPeerset.{
  PeerState, heard, waiting, queried, unreachable, state_eq, QueryPeerset, new_query_peerset,
  try_add, set_state, get_state, get_referrer, get_closest_n_in_states, num_heard, num_waiting,
}

-- What a query reads of the node and of its call.
pub record Settings (Peer : Type 0) : Type 0 where
  pub self : Peer
  pub alpha : ℕ
  pub beta : ℕ
  pub bucket_size : ℕ
  pub seed_peers : List Peer
  pub distance_to_key : Peer → ℕ

-- `query`, the fields that change.
pub record Query (Peer : Type 0) : Type 0 where
  pub query_peers : QueryPeerset Peer
  pub peer_times : Map Peer ℕ
  pub terminated : Bool

-- `queryUpdate`.
pub record QueryUpdate (Peer : Type 0) : Type 0 where
  pub cause : Peer
  pub queried_peers : List Peer
  pub heard_peers : List Peer
  pub unreachable_peers : List Peer
  pub query_duration : ℕ

-- `LookupTerminationReason`; a lookup that goes on has none.
pub data LookupTerminationReason : Type 0 where
  lookup_stopped lookup_cancelled lookup_starvation lookup_completed : LookupTerminationReason

-- What the `select` of `run` receives.
pub data Event (Peer : Type 0) : Type 0 where
  update : QueryUpdate Peer → Event Peer
  done : Event Peer

-- `lookupWithFollowupResult`.
pub record LookupResult (Peer : Type 0) : Type 0 where
  pub peers : List Peer
  pub states : List PeerState
  pub closest : List Peer
  pub completed : Bool

-- The query of `runQuery`, before `run`.
abbrev pub new_query : {Peer : Type 0} → Query Peer
new_query = record { query_peers = new_query_peerset; peer_times = []; terminated = false }

-- `terminate`, less the event it publishes.
abbrev pub terminate : {Peer : Type 0} → Query Peer → Query Peer
terminate q = record q { terminated = true }

module _ {Peer : Type 0} ⦃e : Eq Peer⦄ (c : Settings Peer) where
  -- The first update, which `run` sends itself.
  abbrev pub first_update : QueryUpdate Peer
  first_update = record {
    cause = c.self;
    queried_peers = [];
    heard_peers = c.seed_peers;
    unreachable_peers = [];
    query_duration = 0;
  }

  -- `queryPeer`, from whether the dial succeeded and what `queryFn` returned. The diversity
  -- filter, for a bound that is not 0, and the test for a peer to follow are parameters.
  unfoldable pub query_peer :
      (ℕ → List Peer → List Peer)
      → ℕ
      → (Peer → Bool)
      → Peer
      → Bool
      → Option (List Peer)
      → ℕ
      → QueryUpdate Peer
  query_peer filter_by_diversity max_peers_per_ip_group follows p dialled response duration =
      let failed : QueryUpdate Peer = record {
        cause = p;
        queried_peers = [];
        heard_peers = [];
        unreachable_peers = p ∷ [];
        query_duration = 0;
      } in
      if dialled
      then elim response [
        | none ↦ failed
        | some new_peers ↦
            let kept =
              if max_peers_per_ip_group == 0
              then new_peers
              else filter_by_diversity max_peers_per_ip_group new_peers in
            record {
              cause = p;
              queried_peers = p ∷ [];
              heard_peers = select (λ x. not (e.beq x c.self) && follows x) kept;
              unreachable_peers = [];
              query_duration = duration;
            }
      ]
      else failed

  -- The three loops of `updateState`.
  unfoldable pub add_heard : Peer → QueryPeerset Peer → List Peer → QueryPeerset Peer
  add_heard cause qp [] = qp
  add_heard cause qp (p ∷ ps) =
      let qp' = if e.beq p c.self then qp else (try_add c.distance_to_key qp p cause).0 in
      add_heard cause qp' ps

  unfoldable pub queried_one : ℕ → Query Peer → Peer → Option (Query Peer)
  queried_one duration q p = if e.beq p c.self then some q else do
    st ← get_state q.query_peers p
    qp ← if state_eq st waiting then set_state q.query_peers p queried else none
    some (record q { query_peers = qp; peer_times = put q.peer_times p duration })

  unfoldable pub mark_queried : ℕ → Query Peer → List Peer → Option (Query Peer)
  unfolding queried_one
  mark_queried duration q [] = some q
  mark_queried duration q (p ∷ ps) = do q' ← queried_one duration q p; mark_queried duration q' ps

  unfoldable pub unreachable_one : Query Peer → Peer → Option (Query Peer)
  unreachable_one q p = if e.beq p c.self then some q else do
    st ← get_state q.query_peers p
    qp ← if state_eq st waiting then set_state q.query_peers p unreachable else none
    some (record q { query_peers = qp })

  unfoldable pub mark_unreachable : Query Peer → List Peer → Option (Query Peer)
  unfolding unreachable_one
  mark_unreachable q [] = some q
  mark_unreachable q (p ∷ ps) = do q' ← unreachable_one q p; mark_unreachable q' ps

  -- `updateState`.
  unfoldable pub update_state : Query Peer → QueryUpdate Peer → Option (Query Peer)
  unfolding add_heard mark_queried mark_unreachable
  update_state q up = if q.terminated then none else do
    q' ←
        mark_queried up.query_duration
          (record q { query_peers = add_heard up.cause q.query_peers up.heard_peers })
          up.queried_peers
    mark_unreachable q' up.unreachable_peers

  -- The loop of `isLookupTermination`.
  unfoldable pub all_queried : QueryPeerset Peer → List Peer → Option Bool
  all_queried qp [] = some true
  all_queried qp (p ∷ ps) =
      let rest = all_queried qp ps in
      elim (get_state qp p) [
        | none ↦ none
        | some st ↦ if state_eq st queried then rest else some false
      ]

  -- `isLookupTermination`.
  unfoldable pub is_lookup_termination : QueryPeerset Peer → Option (QueryPeerset Peer × Bool)
  unfolding all_queried
  is_lookup_termination qp =
      let (qp', peers) = get_closest_n_in_states qp c.beta (heard ∷ waiting ∷ queried ∷ []) in
      do b ← all_queried qp' peers; some (qp', b)

  -- `isStarvationTermination`; `NumWaiting` is asked only if no peer is heard of.
  unfoldable pub is_starvation_termination : QueryPeerset Peer → QueryPeerset Peer × Bool
  is_starvation_termination qp =
      let (qp', h) = num_heard qp in
      let (qp'', w) = num_waiting qp' in if h == 0 then (qp'', w == 0) else (qp', false)

  -- `isReadyToTerminate`: the set, the reason if it is ready, and the peers to query. A number of
  -- peers below zero is `none`, and would be a slice out of range.
  unfoldable pub is_ready_to_terminate :
      QueryPeerset Peer
      → Bool
      → Option ℕ
      → Option (QueryPeerset Peer × Option LookupTerminationReason × List Peer)
  unfolding is_lookup_termination is_starvation_termination
  is_ready_to_terminate qp stopped n_peers_to_query =
      let (qp', starved) = is_starvation_termination qp in
      if stopped
      then some (qp, some lookup_stopped, [])
      else if starved
      then some (qp', some lookup_starvation, [])
      else do
        (qp'', completed) ← is_lookup_termination qp'
        if completed then some (qp'', some lookup_completed, []) else elim n_peers_to_query [
          | none ↦ none
          | some n ↦
              let (qp3, peers) = get_closest_n_in_states qp'' n (heard ∷ []) in
              some (qp3, none, peers)
        ]

  -- `spawnQuery`, less the start of the goroutine.
  unfoldable pub spawn_query : Query Peer → Peer → Option (Query Peer)
  spawn_query q p = do
    _ ← get_referrer q.query_peers p
    qp ← set_state q.query_peers p waiting
    some (record q { query_peers = qp })

  unfoldable pub spawn_queries : Query Peer → List Peer → Option (Query Peer)
  unfolding spawn_query
  spawn_queries q [] = some q
  spawn_queries q (p ∷ ps) = do q' ← spawn_query q p; spawn_queries q' ps

  -- A round of the loop of `run` after its `select`: the query, and the peers that are queried
  -- from now on.
  unfoldable pub after_select : Query Peer → Bool → Option (Query Peer × List Peer)
  unfolding is_ready_to_terminate spawn_queries
  after_select q stopped = do
    let (qp, n_waiting) = num_waiting q.query_peers
    let slots : Option ℕ = if leb n_waiting c.alpha then some (c.alpha - n_waiting) else none
    (qp', reason, peers) ← is_ready_to_terminate qp stopped slots
    let q' = record q { query_peers = qp' }
    let q'' : Query Peer = elim reason [ none ↦ q' | some r ↦ terminate q' ]
    if q''.terminated then some (q'', []) else (do q3 ← spawn_queries q'' peers; some (q3, peers))

  -- One round of the loop.
  unfoldable pub run_round : Query Peer → Event Peer → Bool → Option (Query Peer × List Peer)
  unfolding update_state after_select
  run_round q event stopped = do
    q' ← elim event [ update up ↦ update_state q up | done ↦ some (terminate q) ]
    after_select q' stopped

  -- The loop of `run` for at most n more rounds. What the `select` of a round receives and what
  -- `stopFn` answers is `world`'s to say, from the number of rounds left and the query.
  unfoldable pub run_rounds :
      (ℕ → Query Peer → Event Peer × Bool) → ℕ → Query Peer → Option (Query Peer)
  unfolding run_round
  run_rounds world zero q = some q
  run_rounds world (suc n) q = elim q.terminated [
    | true ↦ some q
    | false ↦ do r ← run_round q (world n q).0 (world n q).1; run_rounds world n r.0
  ]

  -- `run`: the first round receives the update that `run` sends itself.
  unfoldable pub run :
      (ℕ → Query Peer → Event Peer × Bool) → Bool → ℕ → Query Peer → Option (Query Peer)
  unfolding run_rounds
  run world stopped n q = do r ← run_round q (update first_update) stopped; run_rounds world n r.0

  -- The states of `constructLookupResult`.
  unfoldable pub states_of : QueryPeerset Peer → List Peer → Option (List PeerState)
  states_of qp [] = some []
  states_of qp (p ∷ ps) = do st ← get_state qp p; sts ← states_of qp ps; some (st ∷ sts)

  -- `constructLookupResult`.
  unfoldable pub construct_lookup_result : Query Peer → Option (LookupResult Peer)
  unfolding is_lookup_termination is_starvation_termination states_of
  construct_lookup_result q = do
    (qp, looked_up) ← is_lookup_termination q.query_peers
    let (qp', starved) = is_starvation_termination qp
    let qp'' = if looked_up then qp else qp'
    let (qp3, peers) = get_closest_n_in_states qp'' c.bucket_size (heard ∷ waiting ∷ queried ∷ [])
    let (qp4, closest) =
        get_closest_n_in_states qp3 c.bucket_size (heard ∷ waiting ∷ queried ∷ unreachable ∷ [])
    states ← states_of qp4 peers
    some (record {
      peers = peers;
      states = states;
      closest = closest;
      completed = looked_up || starved;
    })
