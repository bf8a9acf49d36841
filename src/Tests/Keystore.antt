-- ===== src/Tests/Keystore.antt =====
-- provider/keystore/keystore.go at a concrete datastore: multihashes are numbers.
use go_libp2p_hybrid_kad_dht.Prelude.{
  ℕ, ◌+◌, ◌-◌, ◌*◌, ◌≡◌, ◌<◌, ◌⊎◌, refl, sym, ap, ap₂, ◌∙◌, Bool, true, false, ◌&&◌, not, Option,
  none, some, List, [], ◌∷◌, ◌++◌, map, length, select, replicate, ◌==◌, if◌then◌else◌, arith, inl,
  inr, mem, Distinct, Map, put, delete, pos, bool_eq, list_eq, nat_eq, beq_refl, any,
}
use go_libp2p_hybrid_kad_dht.Keyspace.Key.{Key, is_prefix, key_to_bytes}
use go_libp2p_hybrid_kad_dht.Keystore.Keys.{
  Text, slash, digit, bit_text, Library, Laws, ds_key, decode_key,
}
use go_libp2p_hybrid_kad_dht.Keystore.RoundTrip.{decode_key-ds_key}
use go_libp2p_hybrid_kad_dht.Keystore.Operations.{
  Change, put_change, delete_change, Datastore, Keystore, Error, worker_put, worker_delete,
  get_keys, contains_prefix,
}
use go_libp2p_hybrid_kad_dht.Keystore.Contents.{apply, texts, mem-delete, under, Faithful, is_error}
use go_libp2p_hybrid_kad_dht.Keystore.Present.{Distinct-delete}
use go_libp2p_hybrid_kad_dht.Keystore.Worker.{
  WorkerPut, WorkerDelete, worker_put_counts, worker_delete_counts,
}
use go_libp2p_hybrid_kad_dht.Keystore.Gets.{get_keys_finds}

-- Letters from `A` on for the bytes, and at most one slash taken off the end.
abbrev trim : Text → Text
trim [] = []
trim (c ∷ []) = if c == 47 then [] else c ∷ []
trim (c ∷ d ∷ t) = c ∷ trim (d ∷ t)

abbrev letters : Library
letters = record {
  encode = λ bs. map (λ b. b + 65) bs;
  decode = λ t. some (map (λ c. c - 65) t);
  new_key = λ t. slash ∷ trim t;
}

letters_back : (bs : List ℕ) → map (λ c. c - 65) (map (λ b. b + 65) bs) ≡ bs
letters_back [] = refl
letters_back (b ∷ bs) = ap₂ ◌∷◌ (back b) (letters_back bs)
  where
    back : (b : ℕ) → b + 65 - 65 ≡ b
    back b = omega arith

trim_letters : (b : ℕ) (bs : List ℕ) → trim (letters.encode (b ∷ bs)) ≡ letters.encode (b ∷ bs)
trim_letters b [] = rw (no_slash b) refl
  where
    no_slash : (b : ℕ) → ((b + 65) == 47) ≡ false
    no_slash b = ground arith
trim_letters b (c ∷ bs) = ap (◌∷◌ (b + 65)) (trim_letters c bs)

trim-append :
    (t : Text) (b : ℕ) (bs : List ℕ)
    → trim (t ++ letters.encode (b ∷ bs)) ≡ t ++ letters.encode (b ∷ bs)
trim-append [] b bs = trim_letters b bs
trim-append (c ∷ []) b bs = ap (◌∷◌ c) (trim_letters b bs)
trim-append (c ∷ d ∷ t) b bs = ap (◌∷◌ c) (trim-append (d ∷ t) b bs)

trim-bit_text : (b : Bool) (k : Key) → trim (bit_text (b ∷ k)) ++ slash ∷ [] ≡ bit_text (b ∷ k)
unfolding bit_text
trim-bit_text b [] = refl
trim-bit_text b (c ∷ k) = ap (λ t. digit b ∷ slash ∷ t) (trim-bit_text c k)

letters-Laws : Laws letters
letters-Laws = record {
  decode-encode = λ bs h. ap some (letters_back bs);
  new_key-encode = λ k b bs. ap (◌∷◌ slash) (trim-append (bit_text k) b bs);
  new_key-bits = λ b k. ap (◌∷◌ slash) (trim-bit_text b k);
  new_key_root = refl;
}

-- The first two bits tell apart the multihashes 1, 2 and the others.
abbrev hash : ℕ → Key
hash n = (n == 1) ∷ (n == 2) ∷ replicate 254 false

hashed : (n : ℕ) → length (hash n) ≡ 256
hashed n = refl

decode_key-ds_key_example :
    decode_key letters (8 * 1) (ds_key letters (8 * 1) (hash 2)) ≡ some (none, hash 2)
decode_key-ds_key_example = decode_key-ds_key letters letters-Laws 1 (hash 2) refl (ground arith)

-- A datastore whose calls succeed.
abbrev Store : Type 0
Store = (es : Map Text ℕ) × Distinct (texts es)

Distinct-apply :
    (cs : List (Change ℕ)) (es : Map Text ℕ) → Distinct (texts es) → Distinct (texts (apply cs es))
Distinct-apply [] es d = d
Distinct-apply (put_change t h ∷ cs) es d = Distinct-apply cs (put es t h) (
  mem-delete es t t ∙ ap (λ b. not b && mem t (texts es)) (beq_refl ⦃e = list_eq⦄ t),
  Distinct-delete es t d,
)
Distinct-apply (delete_change t ∷ cs) es d =
    Distinct-apply cs (delete es t) (Distinct-delete es t d)

abbrev reliable : Datastore Store ℕ
reliable = record {
  batch = λ s. true;
  has = λ s t. some (mem t (texts s.0));
  stage = λ s c. true;
  commit = λ s cs. ((apply cs s.0, Distinct-apply cs s.0 s.1), true);
  query = λ s prefix. map some (select (λ x. under prefix x.0) s.0);
}

bool_of : (a b : Bool) → ◌≡◌ {A = Option Bool} (some a) (some b) → a ≡ b
bool_of a b h = cc

abbrev reliable-Faithful : Faithful reliable
reliable-Faithful = record {
  entries = λ s. s.0;
  one_value = λ s. s.1;
  has-entries = λ s t b h. bool_of b (mem t (texts s.0)) (sym h);
  commit-entries = λ s s' cs h. ap (λ x. x.0.0) (sym h);
  query-entries = λ s prefix h. refl;
}

no_errors : {A : Type 0} (xs : List A) → any is_error (map some xs) ≡ false
no_errors [] = refl
no_errors (x ∷ xs) = no_errors xs

abbrev entry : ℕ → Text × ℕ
entry n = (ds_key letters (8 * 1) (hash n), n)

two_keys-Distinct : Distinct (texts (entry 1 ∷ entry 2 ∷ []))
unfolding ds_key
two_keys-Distinct = (refl, (refl, tt))

abbrev two_keys : Keystore Store
two_keys = record { ds = (entry 1 ∷ entry 2 ∷ [], two_keys-Distinct); size = pos 2 }

few_bits : 1 < 32
few_bits = ground arith

worker_put_counts_example :
    WorkerPut letters letters-Laws 1 few_bits hash hashed reliable reliable-Faithful two_keys
      (3 ∷ 1 ∷ 4 ∷ [])
      (worker_put letters reliable (8 * 1) hash two_keys (3 ∷ 1 ∷ 4 ∷ []))
worker_put_counts_example =
    worker_put_counts letters letters-Laws 1 few_bits hash hashed reliable reliable-Faithful
      two_keys (3 ∷ 1 ∷ 4 ∷ []) refl

worker_delete_counts_example :
    WorkerDelete letters letters-Laws 1 few_bits hash hashed reliable reliable-Faithful two_keys
      (3 ∷ 1 ∷ 1 ∷ [])
      (worker_delete letters reliable (8 * 1) hash two_keys (3 ∷ 1 ∷ 1 ∷ []))
worker_delete_counts_example =
    worker_delete_counts letters letters-Laws 1 few_bits hash hashed reliable reliable-Faithful
      two_keys (3 ∷ 1 ∷ 1 ∷ []) refl

-- A prefix that is longer than the path.
abbrev long_prefix : Key
long_prefix = true ∷ replicate 9 false

get_keys_finds_example :
    (get_keys letters reliable (8 * 1) two_keys.ds long_prefix ≡ inr (1 ∷ []))
    × (contains_prefix letters reliable (8 * 1) two_keys.ds long_prefix ≡ inr true)
unfolding is_prefix
get_keys_finds_example =
    get_keys_finds letters letters-Laws 1 few_bits hash hashed reliable reliable-Faithful
      two_keys.ds long_prefix (ground arith) (refl, (refl, tt))
      (no_errors (select (λ x. under (ds_key letters (8 * 1) long_prefix) x.0) two_keys.ds.0))

abbrev answered : (Error ⊎ List ℕ) × Keystore Store → List ℕ
answered (inl e, ks) = []
answered (inr new_keys, ks) = new_keys

put_run : answered (worker_put letters reliable (8 * 1) hash two_keys (3 ∷ 1 ∷ 4 ∷ [])) ≡ 3 ∷ []
unfolding worker_put ds_key key_to_bytes
put_run = refl
