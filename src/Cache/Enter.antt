-- ===== src/Cache/Enter.antt =====
-- A node that is out of the cache, as `enter` puts it into the set and the map.
use nali.Prelude.{
  ℕ, ◌+◌, ◌<◌, ◌≡◌, ◌≢◌, refl, sym, ◌∙◌, ap, ◌⊎◌, inl, inr, true, Option, none, some, arith, ◌==◌,
  if◌then◌else◌, length, set, length-set, get_or-set_self, get_or-set_ne, ℕ_discrete, Bool-cases,
}
use mathlib.Core.Path.{subst}
use nali.Cache.Defs.{CacheEntry, NumaCache, reset, node_of, enter}
use nali.Cache.Laws.{
  In, IsDistinct, held, contents, IsValid, same_some, none_differs, not_same, In-set_insert,
  set_insert-pos,
}

-- A cache with the node `p` taken out.
pub record IsOpen (c : NumaCache) (p : ℕ) : Type 0 where
  pub inside : p < length c.nodes
  pub unmapped : (k : ℕ) → c.entry_map k ≢ some p
  pub owned :
      (k q : ℕ) → c.entry_map k ≡ some q → (q < length c.nodes) × ((node_of c.nodes q).key ≡ k)
  pub listed : (q : ℕ) → In q c.entry_set → p ≢ q → c.entry_map (node_of c.nodes q).key ≡ some q
  pub free :
      (q : ℕ)
      → In q c.free_entry
      → (q < length c.nodes) × ((k : ℕ) → c.entry_map k ≢ some q) × (p ≢ q)
  pub distinct : IsDistinct c.free_entry
  pub balance : c.size + length c.free_entry ≡ c.capacity

module _ (c : NumaCache) (p : ℕ) (opened : IsOpen c p) (key value numa_id : ℕ)
    (absent : c.entry_map key ≡ none) where
  entered : CacheEntry
  entered = reset key value c.current_ts numa_id

  enter-size : length (enter c p key value numa_id).nodes ≡ length c.nodes
  unfolding enter
  enter-size = length-set c.nodes p _

  enter-own : node_of (enter c p key value numa_id).nodes p ≡ entered
  unfolding enter entered
  enter-own = get_or-set_self c.nodes p entered _ opened.inside

  enter-other : (q : ℕ) → p ≢ q → node_of (enter c p key value numa_id).nodes q ≡ node_of c.nodes q
  unfolding enter
  enter-other q ne = get_or-set_ne c.nodes p q _ _ ne

  -- Of another key the map has what it had, and that is another node.
  enter-map :
      (k : ℕ)
      → (enter c p key value numa_id).entry_map k ≡ (if key == k then some p else c.entry_map k)
  unfolding enter
  enter-map k = refl

  enter-held :
      (j : ℕ) (o : Option ℕ)
      → c.entry_map j ≡ o
      → held (enter c p key value numa_id).nodes (if key == j then some p else o)
        ≡ (if key == j then some value else held c.nodes o)
  unfolding entered reset
  enter-held j o e = elim (Bool-cases (key == j)) [
    | inl same ↦ rw same (ap (λ (x : CacheEntry). some x.value) enter-own)
    | inr other ↦ rw other (old o e)
  ]
    where
      old :
          (o : Option ℕ)
          → c.entry_map j ≡ o
          → held (enter c p key value numa_id).nodes o ≡ held c.nodes o
      old none e = refl
      old (some q) e =
          ap (λ (x : CacheEntry). some x.value)
            (enter-other q (λ e'. opened.unmapped j (e ∙ ap some (sym e'))))

  pub enter-contents :
      (j : ℕ)
      → contents (enter c p key value numa_id) j ≡ (if key == j then some value else contents c j)
  enter-contents j =
      ap (held (enter c p key value numa_id).nodes) (enter-map j)
      ∙ enter-held j (c.entry_map j) refl

  -- What the map leads to is the new node or an old one.
  enter-cases :
      (k q : ℕ)
      → (enter c p key value numa_id).entry_map k ≡ some q
      → ((p ≡ q) × (key ≡ k)) ⊎ ((p ≢ q) × (c.entry_map k ≡ some q))
  enter-cases k q h = elim (ℕ_discrete key k) [
    | yes e ↦
        let test : (key == k) ≡ true = ground (arith, e) in
        inl (same_some (sym (enter-map k ∙ rw test refl) ∙ h), e)
    | no ne ↦
        let old : c.entry_map k ≡ some q = sym (enter-map k ∙ rw (not_same key k ne) refl) ∙ h in
        inr (λ e. opened.unmapped k (old ∙ ap some (sym e)), old)
  ]

  enter-owned :
      (k q : ℕ)
      → (enter c p key value numa_id).entry_map k ≡ some q
      → (q < length (enter c p key value numa_id).nodes)
        × ((node_of (enter c p key value numa_id).nodes q).key ≡ k)
  unfolding entered reset
  enter-owned k q h = elim (enter-cases k q h) [
    | inl (e, e') ↦ (
      omega (arith, e, opened.inside, enter-size),
      subst (λ r. (node_of (enter c p key value numa_id).nodes r).key ≡ k) e
          (ap (λ (x : CacheEntry). x.key) enter-own ∙ e'),
    )
    | inr (ne, old) ↦ (
      omega (arith, (opened.owned k q old).0, enter-size),
      ap (λ (x : CacheEntry). x.key) (enter-other q ne) ∙ (opened.owned k q old).1,
    )
  ]

  enter-was : (q : ℕ) → In q (enter c p key value numa_id).entry_set → (q ≡ p) ⊎ In q c.entry_set
  unfolding enter
  enter-was q h =
      In-set_insert (set c.nodes p (reset key value c.current_ts numa_id)) p q c.entry_set h

  enter-at :
      (enter c p key value numa_id).entry_map (node_of (enter c p key value numa_id).nodes p).key
      ≡ some p
  unfolding entered reset
  enter-at =
      let test : (key == key) ≡ true = ground arith in
      ap (enter c p key value numa_id).entry_map (ap (λ (x : CacheEntry). x.key) enter-own)
      ∙ enter-map key
      ∙ rw test refl

  enter-listed :
      (q : ℕ)
      → In q (enter c p key value numa_id).entry_set
      → (enter c p key value numa_id).entry_map (node_of (enter c p key value numa_id).nodes q).key
        ≡ some q
  enter-listed q h = elim (ℕ_discrete p q) [
    | yes e ↦
        subst
          (λ r.
            (enter c p key value numa_id).entry_map
              (node_of (enter c p key value numa_id).nodes r).key
            ≡ some r)
          e enter-at
    | no ne ↦ elim (enter-was q h) [
      | inl e ↦ absurd (ne (sym e))
      | inr w ↦
          let old = opened.listed q w ne in
          let apart : key ≢ (node_of c.nodes q).key =
            λ e. none_differs (sym absent ∙ ap c.entry_map e ∙ old) in
          ap (enter c p key value numa_id).entry_map
            (ap (λ (x : CacheEntry). x.key) (enter-other q ne))
          ∙ enter-map (node_of c.nodes q).key
          ∙ rw (not_same key (node_of c.nodes q).key apart) old
    ]
  ]

  enter-unmapped :
      (q : ℕ) → In q c.free_entry → (k : ℕ) → (enter c p key value numa_id).entry_map k ≢ some q
  enter-unmapped q w k h = elim (enter-cases k q h) [
    | inl (e, _) ↦ (opened.free q w).2 e
    | inr (_, old) ↦ (opened.free q w).1 k old
  ]

  pub enter-IsValid : IsValid (enter c p key value numa_id)
  unfolding enter
  enter-IsValid = record {
    owned = enter-owned;
    listed = enter-listed;
    free = λ q h. (omega (arith, (opened.free q h).0, enter-size), enter-unmapped q h);
    distinct = opened.distinct;
    balance = opened.balance;
    some_set =
        λ h. set_insert-pos (set c.nodes p (reset key value c.current_ts numa_id)) p c.entry_set;
  }
