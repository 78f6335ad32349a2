-- ===== src/Cache/Defs.antt =====
-- CacheEntry and NumaCache of include/new_cache.h, one call at a time, as the latch makes it. A pointer
-- to an entry is a place in `nodes`. `weight_` is a sum of counters, which a double holds exactly.
-- What is undefined, such as the top of an empty stack, is `none`.
use nali.Prelude.{
  ℕ, zero, suc, ◌+◌, Bool, true, false, ◌&&◌, not, Option, none, some, List, [], ◌∷◌, ltb, ◌==◌,
  if◌then◌else◌, get_or, set, replicate, ◌>>=◌,
}

pub record CacheEntry : Type 0 where
  pub key : ℕ
  pub value : ℕ
  pub numa_id : ℕ
  pub weight : ℕ
  pub oldest_ts : ℕ
  pub visit_times : ℕ × ℕ

-- `visit_times_[numa_id]++`, for the NUMA nodes 0 and 1
abbrev pub inc_visit : ℕ → ℕ × ℕ → ℕ × ℕ
inc_visit zero (a, b) = (a + 1, b)
inc_visit (suc n) (a, b) = (a, b + 1)

unfoldable pub reset : ℕ → ℕ → ℕ → ℕ → CacheEntry
reset key value ts numa_id = record {
  key = key;
  value = value;
  numa_id = numa_id;
  weight = 1;
  oldest_ts = ts;
  visit_times = inc_visit numa_id (0, 0);
}

-- `numa_weight` is 1, so that the weight is the number of visits
unfoldable pub visit : CacheEntry → ℕ → CacheEntry
visit x numa_id =
    let times = inc_visit numa_id x.visit_times in
    record x { numa_id = numa_id; weight = times.0 + times.1; visit_times = times }

unfoldable pub cmp : CacheEntry → CacheEntry → Bool
cmp a b = if a.weight == b.weight then ltb a.oldest_ts b.oldest_ts else ltb a.weight b.weight

pub record NumaCache : Type 0 where
  pub capacity : ℕ
  pub size : ℕ
  pub current_ts : ℕ
  pub nodes : List CacheEntry
  pub entry_map : ℕ → Option ℕ
  pub entry_set : List ℕ
  pub free_entry : List ℕ

abbrev no_entry : CacheEntry
no_entry = record {
  key = 0;
  value = 0;
  numa_id = 0;
  weight = 0;
  oldest_ts = 0;
  visit_times = (0, 0);
}

abbrev pub node_of : List CacheEntry → ℕ → CacheEntry
node_of nodes p = get_or nodes p no_entry

unfoldable pub push_loop : ℕ → List ℕ
push_loop zero = []
push_loop (suc i) = i ∷ push_loop i

-- NumaCache(cap); `fresh` is what a new CacheEntry holds
unfoldable pub create : CacheEntry → ℕ → NumaCache
unfolding push_loop
create fresh cap = record {
  capacity = cap;
  size = 0;
  current_ts = 0;
  nodes = replicate cap fresh;
  entry_map = λ key. none;
  entry_set = [];
  free_entry = push_loop cap;
}

-- the set, in ascending order of `cmp`
unfoldable pub set_insert : List CacheEntry → ℕ → List ℕ → List ℕ
unfolding cmp
set_insert nodes p [] = p ∷ []
set_insert nodes p (q ∷ l) =
    let rest = set_insert nodes p l in
    if cmp (node_of nodes p) (node_of nodes q)
    then p ∷ q ∷ l
    else (if cmp (node_of nodes q) (node_of nodes p) then q ∷ rest else q ∷ l)

-- `erase` of what `cmp` takes for equal
unfoldable pub set_erase : List CacheEntry → ℕ → List ℕ → List ℕ
unfolding cmp
set_erase nodes p [] = []
set_erase nodes p (q ∷ l) =
    let rest = set_erase nodes p l in
    if not (cmp (node_of nodes p) (node_of nodes q))
      && not (cmp (node_of nodes q) (node_of nodes p))
    then l
    else q ∷ rest

abbrev pub map_set : (ℕ → Option ℕ) → ℕ → Option ℕ → ℕ → Option ℕ
map_set m key o j = if key == j then o else m j

-- `Reset` of the node at `p`, which goes into the set and the map
unfoldable pub enter : NumaCache → ℕ → ℕ → ℕ → ℕ → NumaCache
unfolding set_insert reset
enter c p key value numa_id =
    let nodes = set c.nodes p (reset key value c.current_ts numa_id) in
    record c {
      current_ts = c.current_ts + 1;
      nodes = nodes;
      entry_map = map_set c.entry_map key (some p);
      entry_set = set_insert nodes p c.entry_set;
    }

-- `Visit` of the node at `p`, out of the set and into it again; `f` writes what else changes
unfoldable pub touch : NumaCache → ℕ → ℕ → (CacheEntry → CacheEntry) → NumaCache
unfolding set_insert set_erase visit
touch c p numa_id f =
    let erased = set_erase c.nodes p c.entry_set in
    let nodes = set c.nodes p (f (visit (node_of c.nodes p) numa_id)) in
    record c { nodes = nodes; entry_set = set_insert nodes p erased }

abbrev pub drop_first : NumaCache → ℕ → List ℕ → NumaCache
drop_first c p l = record c {
  entry_set = l;
  entry_map = map_set c.entry_map (node_of c.nodes p).key none;
}

-- the node for a new key: the first of the set when the cache is full, else the top of the stack
unfoldable pub take_node : NumaCache → Option (NumaCache × ℕ)
take_node c =
    if c.size == c.capacity
    then elim c.entry_set [ [] ↦ none | ◌∷◌ p l ↦ some (drop_first c p l, p) ]
    else elim c.free_entry [
      | [] ↦ none
      | ◌∷◌ p l ↦ some (record c { free_entry = l; size = c.size + 1 }, p)
    ]

unfoldable pub put : NumaCache → ℕ → ℕ → ℕ → Option NumaCache
unfolding take_node enter touch
put c key value numa_id = elim (c.entry_map key) [
  | some p ↦ some (touch c p numa_id (λ x. record x { value = value }))
  | none ↦ (do (c', p) ← take_node c; some (enter c' p key value numa_id))
]

unfoldable pub get : NumaCache → ℕ → ℕ → NumaCache × Bool × ℕ
unfolding touch
get c key numa_id = elim (c.entry_map key) [
  | none ↦ (c, false, 0)
  | some p ↦ (touch c p numa_id (λ x. x), true, (node_of c.nodes p).value)
]

unfoldable pub evict : NumaCache → ℕ → NumaCache × Bool
unfolding set_erase
evict c key = elim (c.entry_map key) [
  | none ↦ (c, false)
  | some p ↦ (
    record c {
      entry_set = set_erase c.nodes p c.entry_set;
      entry_map = map_set c.entry_map key none;
      free_entry = p ∷ c.free_entry;
    },
    true,
  )
]
