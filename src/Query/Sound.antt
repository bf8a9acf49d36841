-- ===== src/Query/Sound.antt =====
-- Peer sets with no peer twice, without the own peer, and with a bounded number of waiting peers.
use go_libp2p_hybrid_kad_dht.Prelude.{
  Distinct, ℕ, zero, suc, ◌≡◌, ◌≤◌, refl, sym, ap, ◌∙◌, Bool, true, false, ◌||◌, Option, none, some,
  List, [], ◌∷◌, ◌++◌, length, select, if◌then◌else◌, arith, Bool-cases, inl, inr, Eq, mem, beq_sym,
  mem-append, or-left, or-right,
}
use go_libp2p_hybrid_kad_dht.QueryPeerset.{
  PeerState, waiting, state_eq, QueryPeerState, QueryPeerset, insert_by_distance, sort_by_distance,
  sort, get_state, get_referrer, set_state, set_at, try_add,
}
use go_libp2p_hybrid_kad_dht.QueryPeerset.Closest.{in_states}
use go_libp2p_hybrid_kad_dht.QueryPeerset.Laws.{
  ids, Distinct-append, opt_field, lookup, get_state-lookup, try_add-cases, set_state-cases,
  ids-append, heard_of, get_referrer-lookup, false-true, or_resolve,
}
use go_libp2p_hybrid_kad_dht.Query.{Settings, add_heard}
use go_libp2p_hybrid_kad_dht.Query.Found.{Distinct-sort, mem-sort}

both_false : (a b : Bool) → a ≡ false → b ≡ false → a || (b || false) ≡ false
both_false a b h k = ground arith

within :
    (m n k : ℕ) (b : Bool) → m ≤ (if b then suc n else n) → n ≤ k → m ≤ (if b then suc k else k)
within m n k b h l = ground arith

pub none-some {ℓ} : {A : Type ℓ} (a : A) → ◌≡◌ {A = Option A} none (some a) → ⊥
none-some a h = cc

module _ {Peer : Type 0} ⦃e : Eq Peer⦄ where
  abbrev pub n_waiting : List (QueryPeerState Peer) → ℕ
  n_waiting [] = 0
  n_waiting (x ∷ xs) =
      let rest = n_waiting xs in if state_eq x.state waiting then suc rest else rest

  pub record Sound (self : Peer) (k : ℕ) (qp : QueryPeerset Peer) : Type 0 where
    pub distinct : Distinct (ids qp.all_peers)
    pub no_self : mem self (ids qp.all_peers) ≡ false
    pub few_waiting : n_waiting qp.all_peers ≤ k

  pub weaken-Sound :
      (self : Peer) (k m : ℕ) (qp : QueryPeerset Peer) → k ≤ m → Sound self k qp → Sound self m qp
  weaken-Sound self k m qp h s = record {
    distinct = s.distinct;
    no_self = s.no_self;
    few_waiting = omega (arith, h, s.few_waiting);
  }

  -- The number of peers that `NumWaiting` lists.
  pub listed-n_waiting :
      (xs : List (QueryPeerState Peer))
      → length (ids (select (in_states (waiting ∷ [])) xs)) ≡ n_waiting xs
  listed-n_waiting [] = refl
  listed-n_waiting (x ∷ xs) = ground (arith, listed-n_waiting xs)

  n_waiting-insert :
      (x : QueryPeerState Peer) (xs : List (QueryPeerState Peer))
      → n_waiting (insert_by_distance x xs) ≡ n_waiting (x ∷ xs)
  unfolding insert_by_distance
  n_waiting-insert x [] = refl
  n_waiting-insert x (y ∷ xs) = ground (arith, n_waiting-insert x xs)

  n_waiting-sort_by_distance :
      (xs : List (QueryPeerState Peer)) → n_waiting (sort_by_distance xs) ≡ n_waiting xs
  unfolding sort_by_distance
  n_waiting-sort_by_distance [] = refl
  n_waiting-sort_by_distance (x ∷ xs) =
      n_waiting-insert x (sort_by_distance xs)
      ∙ ap (λ n. if state_eq x.state waiting then suc n else n) (n_waiting-sort_by_distance xs)

  pub sort-Sound :
      (self : Peer) (k : ℕ) (qp : QueryPeerset Peer) → Sound self k qp → Sound self k (sort qp)
  unfolding sort
  sort-Sound self k qp s = record {
    distinct = Distinct-sort qp s.distinct;
    no_self = elim (Bool-cases qp.sorted) [
      | inl h ↦ rw h s.no_self
      | inr h ↦ rw h (mem-sort self qp.all_peers ∙ s.no_self)
    ];
    few_waiting = elim (Bool-cases qp.sorted) [
      | inl h ↦ rw h s.few_waiting
      | inr h ↦ rw (h, n_waiting-sort_by_distance qp.all_peers) s.few_waiting
    ];
  }

  n_waiting-heard :
      (xs : List (QueryPeerState Peer)) (d : Peer → ℕ) (p r : Peer)
      → n_waiting (xs ++ heard_of d p r ∷ []) ≡ n_waiting xs
  n_waiting-heard [] d p r = refl
  n_waiting-heard (x ∷ xs) d p r = ground (arith, n_waiting-heard xs d p r)

  add_one-Sound :
      (self : Peer) (d : Peer → ℕ) (k : ℕ) (cause p : Peer) (qp : QueryPeerset Peer)
      → e.beq p self ≡ false
      → Sound self k qp
      → Sound self k (try_add d qp p cause).0
  add_one-Sound self d k cause p qp other s = elim (try_add-cases d qp p cause) [
    | inl present ↦ rw present.1 s
    | inr absent ↦ rw absent.1 (record {
      distinct =
          rw (ids-append qp.all_peers (heard_of d p cause))
            (Distinct-append (ids qp.all_peers) p s.distinct absent.0);
      no_self =
          ap (mem self) (ids-append qp.all_peers (heard_of d p cause))
          ∙ mem-append self (ids qp.all_peers) (p ∷ [])
          ∙ both_false _ _ s.no_self (beq_sym self p ∙ other);
      few_waiting = rw (n_waiting-heard qp.all_peers d p cause) s.few_waiting;
    })
  ]

  pub add_heard-Sound :
      (c : Settings Peer) (k : ℕ) (cause : Peer) (ps : List Peer) (qp : QueryPeerset Peer)
      → Sound c.self k qp
      → Sound c.self k (add_heard c cause qp ps)
  unfolding add_heard
  add_heard-Sound c k cause [] qp s = s
  add_heard-Sound c k cause (p ∷ ps) qp s = elim (Bool-cases (e.beq p c.self)) [
    | inl own ↦ rw own (add_heard-Sound c k cause ps qp s)
    | inr other ↦ rw other (
        add_heard-Sound c k cause ps (try_add c.distance_to_key qp p cause).0
          (add_one-Sound c.self c.distance_to_key k cause p qp other s))
  ]

  -- A peer that is in the set keeps its state when others are added.
  lookup-front :
      (xs : List (QueryPeerState Peer)) (y : QueryPeerState Peer) (x : Peer) (st : PeerState)
      → opt_field (λ q. q.state) (lookup xs x) ≡ some st
      → opt_field (λ q. q.state) (lookup (xs ++ y ∷ []) x) ≡ some st
  lookup-front [] y x st h = absurd (none-some st h)
  lookup-front (z ∷ xs) y x st h = elim (Bool-cases (e.beq z.id x)) [
    | inl hit ↦ rw hit (rw hit at h)
    | inr miss ↦ rw miss (lookup-front xs y x st (rw miss at h))
  ]

  add_one-keeps :
      (d : Peer → ℕ) (cause p : Peer) (qp : QueryPeerset Peer) (x : Peer) (st : PeerState)
      → get_state qp x ≡ some st
      → get_state (try_add d qp p cause).0 x ≡ some st
  add_one-keeps d cause p qp x st h = elim (try_add-cases d qp p cause) [
    | inl present ↦ rw present.1 h
    | inr absent ↦ rw absent.1 (
        get_state-lookup _ x
        ∙ lookup-front qp.all_peers (heard_of d p cause) x st (sym (get_state-lookup qp x) ∙ h))
  ]

  pub add_heard-keeps :
      (c : Settings Peer) (cause x : Peer) (st : PeerState) (ps : List Peer)
      (qp : QueryPeerset Peer)
      → get_state qp x ≡ some st
      → get_state (add_heard c cause qp ps) x ≡ some st
  unfolding add_heard
  add_heard-keeps c cause x st [] qp h = h
  add_heard-keeps c cause x st (p ∷ ps) qp h = elim (Bool-cases (e.beq p c.self)) [
    | inl own ↦ rw own (add_heard-keeps c cause x st ps qp h)
    | inr other ↦ rw other (
        add_heard-keeps c cause x st ps (try_add c.distance_to_key qp p cause).0
          (add_one-keeps c.distance_to_key cause p qp x st h))
  ]

  state→mem :
      (xs : List (QueryPeerState Peer)) (x : Peer) (st : PeerState)
      → opt_field (λ q. q.state) (lookup xs x) ≡ some st
      → mem x (ids xs) ≡ true
  state→mem [] x st h = absurd (none-some st h)
  state→mem (z ∷ xs) x st h = elim (Bool-cases (e.beq z.id x)) [
    | inl hit ↦ or-left (e.beq x z.id) _ (beq_sym x z.id ∙ hit)
    | inr miss ↦ or-right (e.beq x z.id) _ (state→mem xs x st (rw miss at h))
  ]

  pub get_state-mem :
      (qp : QueryPeerset Peer) (x : Peer) (st : PeerState)
      → get_state qp x ≡ some st
      → mem x (ids qp.all_peers) ≡ true
  get_state-mem qp x st h = state→mem qp.all_peers x st (sym (get_state-lookup qp x) ∙ h)

  pub get_referrer-mem :
      (qp : QueryPeerset Peer) (x : Peer)
      → mem x (ids qp.all_peers) ≡ true
      → (r : Peer) × (get_referrer qp x ≡ some r)
  get_referrer-mem qp x h =
      let f = mem-referrer qp.all_peers x h in (f.0, get_referrer-lookup qp x ∙ f.1)
    where
      mem-referrer :
          (xs : List (QueryPeerState Peer)) (x : Peer)
          → mem x (ids xs) ≡ true
          → (r : Peer) × (opt_field (λ q. q.referred_by) (lookup xs x) ≡ some r)
      mem-referrer [] x h = absurd (false-true h)
      mem-referrer (z ∷ xs) x h = elim (Bool-cases (e.beq z.id x)) [
        | inl hit ↦ (z.referred_by, rw hit refl)
        | inr miss ↦
            let f = mem-referrer xs x (or_resolve (e.beq x z.id) _ (beq_sym x z.id ∙ miss) h) in
            (f.0, rw miss f.1)
      ]

  n_waiting-set_at :
      (xs : List (QueryPeerState Peer)) (i : ℕ) (st : PeerState)
      → n_waiting (set_at xs i st)
        ≤ (if state_eq st waiting then suc (n_waiting xs) else n_waiting xs)
  n_waiting-set_at [] i st = ground arith
  n_waiting-set_at (x ∷ xs) zero st = ground arith
  n_waiting-set_at (x ∷ xs) (suc i) st = ground (arith, n_waiting-set_at xs i st)

  -- `SetState` of a peer in the set.
  pub set_state-Sound :
      (self : Peer) (k : ℕ) (qp : QueryPeerset Peer) (p : Peer) (st : PeerState)
      → Sound self k qp
      → mem p (ids qp.all_peers) ≡ true
      → (qp' : QueryPeerset Peer) × (set_state qp p st ≡ some qp')
        × Sound self (if state_eq st waiting then suc k else k) qp'
        × (ids qp'.all_peers ≡ ids qp.all_peers)
  set_state-Sound self k qp p st s m = elim (set_state-cases qp p st) [
    | inl absent ↦ absurd (contrary (sym m ∙ absent.0))
    | inr found ↦
        let xs = set_at qp.all_peers found.1 st in
        (
          record qp { all_peers = xs },
          found.2,
          record {
            distinct = rw found.3.0 s.distinct;
            no_self = rw found.3.0 s.no_self;
            few_waiting =
                within _ (n_waiting qp.all_peers) k _ (n_waiting-set_at qp.all_peers found.1 st)
                  s.few_waiting;
          },
          found.3.0,
        )
  ]
    where
      contrary : true ≡ false → ⊥
      contrary h = cc
