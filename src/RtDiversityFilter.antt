-- ===== src/RtDiversityFilter.antt =====
-- rt_diversity_filter.go: how many peers of one IP group the routing table may hold.
--
-- Groups have an equality test. `none` is the panic of a write to a nil map.
pub mod Counts
pub mod Limits
pub mod Responses
pub mod Sets
pub mod Groups
use go_libp2p_hybrid_kad_dht.Prelude.{
  ℕ, ◌+◌, Bool, true, false, ◌||◌, not, Option, none, some, List, [], ◌∷◌, if◌then◌else◌, Eq,
  nat_eq, ℤ, pos, succ, pred, leq, is_zero, Map, lookup, put, delete,
}

-- `peerdiversity.PeerGroupInfo`, as far as the filter reads it.
pub record PeerGroupInfo (Group : Type 0) : Type 0 where
  pub cpl : ℕ
  pub ip_group_key : Group

-- `rtPeerIPGroupFilter`, without its host.
pub record RtPeerIpGroupFilter (Group : Type 0) : Type 0 where
  pub max_per_cpl : ℤ
  pub max_for_table : ℤ
  pub cpl_ip_group_count : Map ℕ (Map Group ℤ)
  pub table_ip_group_count : Map Group ℤ

-- `m[key]` has the zero value for a missing key.
abbrev pub or_zero : Option ℤ → ℤ
or_zero none = pos 0
or_zero (some v) = v

module _ {Group : Type 0} ⦃e : Eq Group⦄ where
  -- `NewRTPeerDiversityFilter`.
  abbrev pub new_rt_peer_diversity_filter : ℤ → ℤ → RtPeerIpGroupFilter Group
  new_rt_peer_diversity_filter max_per_cpl max_for_table = record {
    max_per_cpl = max_per_cpl;
    max_for_table = max_for_table;
    cpl_ip_group_count = [];
    table_ip_group_count = [];
  }

  -- A missing inner map reads as an empty one.
  abbrev pub count_of : Map Group ℤ → Group → ℤ
  count_of m key = or_zero (lookup m key)

  abbrev pub or_empty : Option (Map Group ℤ) → Map Group ℤ
  or_empty none = []
  or_empty (some m) = m

  -- `Allow`.
  unfoldable pub allow : RtPeerIpGroupFilter Group → PeerGroupInfo Group → Bool
  allow r g =
      if leq r.max_for_table (count_of r.table_ip_group_count g.ip_group_key)
      then false
      else elim (lookup r.cpl_ip_group_count g.cpl) [
        | none ↦ true
        | some c ↦ not (leq r.max_per_cpl (count_of c g.ip_group_key))
      ]

  -- `m[key] = m[key] + 1`, and `m[key] = m[key] - 1` with the removal of a count of zero.
  abbrev pub count_up : Map Group ℤ → Group → Map Group ℤ
  count_up m key = put m key (succ (count_of m key))

  abbrev pub count_down : Map Group ℤ → Group → Map Group ℤ
  count_down m key =
      let left = pred (count_of m key) in
      if is_zero left then delete (put m key left) key else put m key left

  -- `Increment`.
  unfoldable pub increment :
      RtPeerIpGroupFilter Group → PeerGroupInfo Group → RtPeerIpGroupFilter Group
  increment r g = record r {
    table_ip_group_count = count_up r.table_ip_group_count g.ip_group_key;
    cpl_ip_group_count =
        put r.cpl_ip_group_count g.cpl
          (count_up (or_empty (lookup r.cpl_ip_group_count g.cpl)) g.ip_group_key);
  }

  -- The end of `Decrement`: an inner map that has become empty is removed.
  abbrev pub put_unless_empty : Map ℕ (Map Group ℤ) → ℕ → Map Group ℤ → Map ℕ (Map Group ℤ)
  put_unless_empty m cpl [] = delete (put m cpl []) cpl
  put_unless_empty m cpl (x ∷ c) = put m cpl (x ∷ c)

  -- `Decrement`.
  unfoldable pub decrement :
      RtPeerIpGroupFilter Group → PeerGroupInfo Group → Option (RtPeerIpGroupFilter Group)
  decrement r g = elim (lookup r.cpl_ip_group_count g.cpl) [
    | none ↦ none
    | some c ↦ some (record r {
      table_ip_group_count = count_down r.table_ip_group_count g.ip_group_key;
      cpl_ip_group_count =
          put_unless_empty r.cpl_ip_group_count g.cpl (count_down c g.ip_group_key);
    })
  ]
