-- ===== src/QueryPeerset.antt =====
-- qpeerset/qpeerset.go: the peers of one lookup, with their states.
--
-- Peer identifiers have an equality test, and their distance to the key (of the XOR key space
-- library) is a parameter. `none` is the panic of an index -1.
pub mod Laws
pub mod Closest
use go_libp2p_hybrid_kad_dht.Prelude.{
  ℕ, zero, suc, ◌+◌, ◌≡◌, Bool, true, false, ◌&&◌, ◌||◌, not, Option, none, some, List, [], ◌∷◌,
  ◌++◌, map, length, take, any, select, leb, ltb, if◌then◌else◌, Eq,
}

-- `PeerState`.
pub data PeerState : Type 0 where
  heard waiting queried unreachable : PeerState

abbrev pub state_eq : PeerState → PeerState → Bool
state_eq heard heard = true
state_eq waiting waiting = true
state_eq queried queried = true
state_eq unreachable unreachable = true
state_eq _ _ = false

-- `queryPeerState`.
pub record QueryPeerState (Peer : Type 0) : Type 0 where
  pub id : Peer
  pub distance : ℕ
  pub state : PeerState
  pub referred_by : Peer

-- `QueryPeerset`; the key shows only in the distances.
pub record QueryPeerset (Peer : Type 0) : Type 0 where
  pub all_peers : List (QueryPeerState Peer)
  pub sorted : Bool

-- `NewQueryPeerset`.
abbrev pub new_query_peerset : {Peer : Type 0} → QueryPeerset Peer
new_query_peerset = record { all_peers = []; sorted = false }

module _ {Peer : Type 0} where
  -- `sort.Sort` by `Less`.
  unfoldable pub insert_by_distance :
      QueryPeerState Peer → List (QueryPeerState Peer) → List (QueryPeerState Peer)
  insert_by_distance p [] = p ∷ []
  insert_by_distance p (q ∷ qs) =
      if ltb q.distance p.distance then q ∷ insert_by_distance p qs else p ∷ q ∷ qs

  unfoldable pub sort_by_distance : List (QueryPeerState Peer) → List (QueryPeerState Peer)
  unfolding insert_by_distance
  sort_by_distance [] = []
  sort_by_distance (p ∷ ps) = insert_by_distance p (sort_by_distance ps)

  -- `sort`.
  unfoldable pub sort : QueryPeerset Peer → QueryPeerset Peer
  unfolding sort_by_distance
  sort qp =
      if qp.sorted then qp else record { all_peers = sort_by_distance qp.all_peers; sorted = true }

  -- `GetClosestNInStates`: the set, perhaps sorted by the call, and the peers.
  unfoldable pub get_closest_n_in_states :
      QueryPeerset Peer → ℕ → List PeerState → QueryPeerset Peer × List Peer
  unfolding sort
  get_closest_n_in_states qp n states =
      let qp' = sort qp in
      let result = map (λ p. p.id) (select (λ p. any (state_eq p.state) states) qp'.all_peers) in
      (qp', if leb n (length result) then take n result else result)

  -- `GetClosestInStates`.
  unfoldable pub get_closest_in_states :
      QueryPeerset Peer → List PeerState → QueryPeerset Peer × List Peer
  unfolding get_closest_n_in_states
  get_closest_in_states qp states = get_closest_n_in_states qp (length qp.all_peers) states

  -- `NumHeard` and `NumWaiting`.
  unfoldable pub num_heard : QueryPeerset Peer → QueryPeerset Peer × ℕ
  unfolding get_closest_in_states
  num_heard qp = let (qp', peers) = get_closest_in_states qp (heard ∷ []) in (qp', length peers)

  unfoldable pub num_waiting : QueryPeerset Peer → QueryPeerset Peer × ℕ
  unfolding get_closest_in_states
  num_waiting qp = let (qp', peers) = get_closest_in_states qp (waiting ∷ []) in (qp', length peers)

module _ {Peer : Type 0} ⦃e : Eq Peer⦄ where
  -- The loop of `find`.
  unfoldable pub find_from : List (QueryPeerState Peer) → Peer → Option ℕ
  find_from [] p = none
  find_from (q ∷ qs) p =
      let rest : Option ℕ = elim (find_from qs p) [ none ↦ none | some i ↦ some (suc i) ] in
      if e.beq q.id p then some 0 else rest

  -- `find`.
  unfoldable pub find : QueryPeerset Peer → Peer → Option ℕ
  unfolding find_from
  find qp p = find_from qp.all_peers p

  -- `TryAdd`, with the distance of `distanceToKey`.
  unfoldable pub try_add : (Peer → ℕ) → QueryPeerset Peer → Peer → Peer → QueryPeerset Peer × Bool
  unfolding find
  try_add distance_to_key qp p referred_by = elim (find qp p) [
    | some i ↦ (qp, false)
    | none ↦ (
      record {
        all_peers =
            qp.all_peers
            ++ record {
              id = p;
              distance = distance_to_key p;
              state = heard;
              referred_by = referred_by;
            }
              ∷ [];
        sorted = false;
      },
      true,
    )
  ]

  -- `all[i]`, and `all[i].state = s`.
  abbrev pub peer_at : List (QueryPeerState Peer) → ℕ → Option (QueryPeerState Peer)
  peer_at [] i = none
  peer_at (q ∷ qs) zero = some q
  peer_at (q ∷ qs) (suc i) = peer_at qs i

  abbrev pub set_at : List (QueryPeerState Peer) → ℕ → PeerState → List (QueryPeerState Peer)
  set_at [] i s = []
  set_at (q ∷ qs) zero s = record q { state = s } ∷ qs
  set_at (q ∷ qs) (suc i) s = q ∷ set_at qs i s

  -- `SetState`.
  unfoldable pub set_state : QueryPeerset Peer → Peer → PeerState → Option (QueryPeerset Peer)
  unfolding find
  set_state qp p s = elim (find qp p) [
    | none ↦ none
    | some i ↦ some (record qp { all_peers = set_at qp.all_peers i s })
  ]

  abbrev pub field_of {ℓ} :
      {A : Type ℓ} → (QueryPeerState Peer → A) → List (QueryPeerState Peer) → Option ℕ → Option A
  field_of f qs none = none
  field_of f qs (some i) = elim (peer_at qs i) [ none ↦ none | some q ↦ some (f q) ]

  -- `GetState` and `GetReferrer`.
  unfoldable pub get_state : QueryPeerset Peer → Peer → Option PeerState
  unfolding find
  get_state qp p = field_of (λ q. q.state) qp.all_peers (find qp p)

  unfoldable pub get_referrer : QueryPeerset Peer → Peer → Option Peer
  unfolding find
  get_referrer qp p = field_of (λ q. q.referred_by) qp.all_peers (find qp p)
