-- ===== src/Examples/CacheRuns.antt =====
-- A new cache of two entries, and runs of it past its capacity.
use nali.Prelude.{ℕ, ◌≡◌, ◌≢◌, refl, ◌⊎◌, Option, none, some, arith, ◌>>=◌}
use nali.Cache.Defs.{CacheEntry, NumaCache, create, put, get, evict}
use nali.Cache.Laws.{IsValid, contents}
use nali.Cache.Put.{put-contents, get-reply, reply, create-valid}

abbrev fresh : CacheEntry
fresh = record { key = 0; value = 0; numa_id = 0; weight = 0; oldest_ts = 0; visit_times = (0, 0) }

abbrev two_places : NumaCache
two_places = create fresh 2

abbrev three_puts : Option NumaCache
three_puts = do c ← put two_places 5 50 0; c' ← put c 6 60 1; put c' 7 70 0

abbrev held_after : Option NumaCache → ℕ → Option ℕ
held_after none k = none
held_after (some c) k = contents c k

-- Three puts of new keys into two places: the first pair, visited once, is the one that goes.
oldest_goes : held_after three_puts 5 ≡ none
unfolding put create
oldest_goes = refl

second_stays : held_after three_puts 6 ≡ some 60
unfolding put create
second_stays = refl

third_enters : held_after three_puts 7 ≡ some 70
unfolding put create
third_enters = refl

-- Two puts fill the two places, and both pairs are evicted: a third put then takes from an empty set.
abbrev put_after_evictions : Option NumaCache
put_after_evictions = do
  c ← put two_places 5 50 0
  c' ← put c 6 60 1
  put (evict (evict c' 5).0 6).0 7 70 0

evicted_twice : put_after_evictions ≡ none
unfolding put create evict
evicted_twice = refl

two_places-IsValid : IsValid two_places
two_places-IsValid = (create-valid fresh 2 (omega arith)).0

create-valid_example : IsValid (create fresh 2) × ((k : ℕ) → contents (create fresh 2) k ≡ none)
create-valid_example = create-valid fresh 2 (omega arith)

put-contents_example :
    (c' : NumaCache) × (put two_places 5 50 0 ≡ some c')
    × IsValid c'
    × (contents c' 5 ≡ some 50)
    × ((j : ℕ)
        → j ≢ 5
        → (contents c' j ≡ contents two_places j)
          ⊎ ((contents c' j ≡ none)
              × (two_places.size ≡ two_places.capacity)
              × (contents two_places 5 ≡ none)))
unfolding create
put-contents_example = put-contents two_places 5 50 0 two_places-IsValid (omega arith)

abbrev one_pair : NumaCache
one_pair = put-contents_example.0

get-reply_example :
    (c' : NumaCache) × (get one_pair 5 1
      ≡ (c', (reply (contents one_pair 5)).0, (reply (contents one_pair 5)).1))
    × IsValid c'
    × ((j : ℕ) → contents c' j ≡ contents one_pair j)
get-reply_example = get-reply one_pair 5 1 put-contents_example.2
