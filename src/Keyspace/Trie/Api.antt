-- ===== src/Keyspace/Trie/Api.antt =====
-- The operations of the trie library that change a trie: `Add` and `Remove` of
-- github.com/probe-lab/go-libdht/kad/trie, with what the code relies on of them.
use go_libp2p_hybrid_kad_dht.Prelude.{◌≡◌, Bool, false, ◌&&◌, ◌||◌, not, [], any}
use go_libp2p_hybrid_kad_dht.Keyspace.Key.{Key, key_eq}
use go_libp2p_hybrid_kad_dht.Keyspace.Key.Prefixes.{starts}
use go_libp2p_hybrid_kad_dht.Keyspace.Trie.{Trie}
use go_libp2p_hybrid_kad_dht.Keyspace.Trie.Shape.{keys, has, WellFormed}

-- Neither key is a prefix of the other.
abbrev pub comparable : Key → Key → Bool
comparable j k = starts j k || starts k j

-- No key of the trie is comparable to `k`.
abbrev pub IsFree {ℓ} : {D : Type ℓ} → Key → Trie D → Type 0
IsFree k t = any (comparable k) (keys t) ≡ false

pub record TrieApi {ℓ} (D : Type ℓ) : Type ℓ where
  pub add : Key → D → Trie D → Trie D
  pub remove : Key → Trie D → Trie D

-- What is relied on: both keep a trie well-formed. `Add` of a key that neither extends nor begins
-- a key of the trie puts it there beside the others, and `Remove` takes away one key.
pub record TrieLaws {ℓ} {D : Type ℓ} (api : TrieApi D) : Type ℓ where
  pub add-WellFormed :
      (k : Key) (d : D) (t : Trie D) → WellFormed [] t → IsFree k t → WellFormed [] (api.add k d t)
  pub has-add :
      (x k : Key) (d : D) (t : Trie D)
      → WellFormed [] t
      → IsFree k t
      → has x (api.add k d t) ≡ key_eq x k || has x t
  pub remove-WellFormed : (k : Key) (t : Trie D) → WellFormed [] t → WellFormed [] (api.remove k t)
  pub has-remove :
      (x k : Key) (t : Trie D)
      → WellFormed [] t
      → has x (api.remove k t) ≡ not (key_eq x k) && has x t
