-- ===== src/Cache/Put.antt =====
-- `put` and `get` of the cache against the map that it stands for.
use nali.Prelude.{
  ℕ, zero, suc, ◌<◌, ◌≡◌, ◌≢◌, refl, sym, ◌∙◌, ap, ◌⊎◌, inl, inr, Bool, true, false, Option, none,
  some, arith, ◌==◌, if◌then◌else◌, length, length-replicate, ℕ_discrete, Option-cases, ◌>>=◌,
}
use nali.Cache.Defs.{
  CacheEntry, NumaCache, visit, node_of, enter, touch, take_node, put, get, push_loop, create,
}
use nali.Cache.Laws.{
  In, IsDistinct, held, contents, IsValid, none_differs, not_same, touch-IsValid, touch-contents,
  new,
}
use nali.Cache.Enter.{enter-IsValid, enter-contents}
use nali.Cache.Take.{take_node-Taken}

put-new :
    (c : NumaCache) (key value numa_id : ℕ)
    → c.entry_map key ≡ none
    → put c key value numa_id ≡ (take_node c >>= (λ x. some (enter x.0 x.1 key value numa_id)))
unfolding put
put-new c key value numa_id absent = rw (absent, put) refl

same_test : (a : ℕ) → (a == a) ≡ true
same_test a = ground arith

same_value :
    (c : NumaCache)
    → IsValid c
    → (key p j : ℕ) → c.entry_map key ≡ some p
    → (if key == j then some (node_of c.nodes p).value else contents c j) ≡ contents c j
same_value c valid key p j here = elim (ℕ_discrete key j) [
  | yes e ↦
      let test : (key == j) ≡ true = ground (arith, e) in
      rw test (ap (held c.nodes) (sym here ∙ ap c.entry_map e))
  | no ne ↦ rw (not_same key j ne) refl
]

-- In a valid cache of positive capacity, `put` returns and leaves a valid cache that holds the
-- value under the key; any other key keeps what it holds, or is dropped, which happens only when
-- the cache is full and the key was absent.
pub put-contents :
    (c : NumaCache) (key value numa_id : ℕ)
    → IsValid c
    → 0 < c.capacity
    → (c' : NumaCache) × (put c key value numa_id ≡ some c')
      × IsValid c'
      × (contents c' key ≡ some value)
      × ((j : ℕ)
          → j ≢ key
          → (contents c' j ≡ contents c j)
            ⊎ ((contents c' j ≡ none) × (c.size ≡ c.capacity) × (contents c key ≡ none)))
unfolding put new visit
put-contents c key value numa_id valid pos = elim (Option-cases (c.entry_map key)) [
  | inr (p, here) ↦ (
    touch c p numa_id (λ x. record x { value = value }),
    rw (here, put) refl,
    touch-IsValid c valid key p numa_id here (λ x. record x { value = value }) (λ x. refl),
    touch-contents c valid key p numa_id here (λ x. record x { value = value }) (λ x. refl) key
        ∙ rw (same_test key) refl,
    λ j ne. inl (
        touch-contents c valid key p numa_id here (λ x. record x { value = value }) (λ x. refl) j
        ∙ rw (not_same key j (λ e. ne (sym e))) refl),
  )
  | inl absent ↦
      let (c', p, run, taken) = take_node-Taken c valid key absent pos in
      (
        enter c' p key value numa_id,
        put-new c key value numa_id absent
            ∙ ap (λ o. o >>= (λ x. some (enter x.0 x.1 key value numa_id))) run,
        enter-IsValid c' p taken.opened key value numa_id taken.absent',
        enter-contents c' p taken.opened key value numa_id taken.absent' key
            ∙ rw (same_test key) refl,
        λ j ne.
            let changed =
              enter-contents c' p taken.opened key value numa_id taken.absent' j
              ∙ rw (not_same key j (λ e. ne (sym e))) refl in
            elim (taken.kept j) [
              | inl same ↦ inl (changed ∙ same)
              | inr (gone, full) ↦ inr (changed ∙ gone, full, ap (held c.nodes) absent)
            ],
      )
]

abbrev pub reply : Option ℕ → Bool × ℕ
reply none = (false, 0)
reply (some v) = (true, v)

-- In a valid cache, `get` answers true with the value that is held under the key, or false when
-- none is, and leaves a valid cache that holds the same pairs.
pub get-reply :
    (c : NumaCache) (key numa_id : ℕ)
    → IsValid c
    → (c' : NumaCache) × (get c key numa_id
        ≡ (c', (reply (contents c key)).0, (reply (contents c key)).1))
      × IsValid c'
      × ((j : ℕ) → contents c' j ≡ contents c j)
unfolding get new visit
get-reply c key numa_id valid = elim (Option-cases (c.entry_map key)) [
  | inl absent ↦ (c, rw (absent, get) refl, valid, λ j. refl)
  | inr (p, here) ↦ (
    touch c p numa_id (λ x. x),
    rw (here, get) refl,
    touch-IsValid c valid key p numa_id here (λ x. x) (λ x. refl),
    λ j.
        touch-contents c valid key p numa_id here (λ x. x) (λ x. refl) j
        ∙ same_value c valid key p j here,
  )
]

In-push_loop : (p n : ℕ) → In p (push_loop n) → p < n
unfolding push_loop
In-push_loop p zero h = absurd h
In-push_loop p (suc n) h = elim h [
  | inl e ↦ omega arith
  | inr q ↦ omega (arith, In-push_loop p n q)
]

push_loop-IsDistinct : (n : ℕ) → IsDistinct (push_loop n)
unfolding push_loop
push_loop-IsDistinct zero = tt
push_loop-IsDistinct (suc n) = (λ h. omega (arith, In-push_loop n n h), push_loop-IsDistinct n)

length-push_loop : (n : ℕ) → length (push_loop n) ≡ n
unfolding push_loop
length-push_loop zero = refl
length-push_loop (suc n) = ap suc (length-push_loop n)

-- A new cache of positive capacity is valid and empty.
pub create-valid :
    (fresh : CacheEntry) (cap : ℕ)
    → 0 < cap
    → IsValid (create fresh cap) × ((k : ℕ) → contents (create fresh cap) k ≡ none)
unfolding create
create-valid fresh cap pos = (
  record {
    owned = λ k p h. absurd (none_differs h);
    listed = λ p h. absurd h;
    free = λ p h.
        (omega (arith, In-push_loop p cap h, length-replicate cap fresh), λ k e. none_differs e);
    distinct = push_loop-IsDistinct cap;
    balance = omega (arith, length-push_loop cap);
    some_set = λ h. absurd (omega arith);
  },
  λ k. refl,
)
