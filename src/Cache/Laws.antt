-- ===== src/Cache/Laws.antt =====
-- The map that the cache stands for, its invariant, and `put` and `get` against them.
use nali.Prelude.{
  ℕ, ◌+◌, ◌<◌, ◌≡◌, ◌≢◌, refl, sym, ◌∙◌, ap, ◌⊎◌, inl, inr, Bool, true, false, Option, none, some,
  List, [], ◌∷◌, arith, ◌==◌, ◌&&◌, not, if◌then◌else◌, length, set, length-set, get_or-set_self,
  get_or-set_ne, ℕ_discrete,
}
use mathlib.Core.Path.{subst}
use nali.Cache.Defs.{CacheEntry, NumaCache, visit, cmp, node_of, set_insert, set_erase, touch}

abbrev pub In : ℕ → List ℕ → Type 0
In p [] = ⊥
In p (q ∷ l) = (p ≡ q) ⊎ In p l

abbrev pub IsDistinct : List ℕ → Type 0
IsDistinct [] = Unit
IsDistinct (p ∷ l) = (¬ In p l) × IsDistinct l

abbrev pub held : List CacheEntry → Option ℕ → Option ℕ
held nodes none = none
held nodes (some p) = some (node_of nodes p).value

abbrev pub contents : NumaCache → ℕ → Option ℕ
contents c k = held c.nodes (c.entry_map k)

-- The map, the set and the stack agree on the nodes.
pub record IsValid (c : NumaCache) : Type 0 where
  pub owned :
      (k p : ℕ) → c.entry_map k ≡ some p → (p < length c.nodes) × ((node_of c.nodes p).key ≡ k)
  pub listed : (p : ℕ) → In p c.entry_set → c.entry_map (node_of c.nodes p).key ≡ some p
  pub free : (p : ℕ) → In p c.free_entry → (p < length c.nodes) × ((k : ℕ) → c.entry_map k ≢ some p)
  pub distinct : IsDistinct c.free_entry
  pub balance : c.size + length c.free_entry ≡ c.capacity
  pub some_set : c.size ≡ c.capacity → 0 < length c.entry_set

In-if : (t : Bool) (q : ℕ) (a b : List ℕ) → In q (if t then a else b) → In q a ⊎ In q b
In-if true q a b h = inl h
In-if false q a b h = inr h

pub In-set_insert :
    (nodes : List CacheEntry) (p q : ℕ) (l : List ℕ)
    → In q (set_insert nodes p l)
    → (q ≡ p) ⊎ In q l
unfolding set_insert
In-set_insert nodes p q [] h = h
In-set_insert nodes p q (r ∷ l) h =
    elim (In-if (cmp (node_of nodes p) (node_of nodes r)) q (p ∷ r ∷ l)
      (if cmp (node_of nodes r) (node_of nodes p) then r ∷ set_insert nodes p l else r ∷ l) h) [
        | inl w ↦ w
        | inr w ↦
            elim (In-if (cmp (node_of nodes r) (node_of nodes p)) q (r ∷ set_insert nodes p l)
              (r ∷ l) w) [
                | inl z ↦ elim z [
                  | inl e ↦ inr (inl e)
                  | inr y ↦ elim (In-set_insert nodes p q l y) [
                    | inl e ↦ inl e
                    | inr x ↦ inr (inr x)
                  ]
                ]
                | inr z ↦ inr z
              ]
      ]

pub set_insert-pos :
    (nodes : List CacheEntry) (p : ℕ) (l : List ℕ) → 0 < length (set_insert nodes p l)
unfolding set_insert
set_insert-pos nodes p [] = omega arith
set_insert-pos nodes p (r ∷ l) = ground arith

In-set_erase :
    (nodes : List CacheEntry) (p q : ℕ) (l : List ℕ) → In q (set_erase nodes p l) → In q l
unfolding set_erase
In-set_erase nodes p q [] h = h
In-set_erase nodes p q (r ∷ l) h =
    elim (In-if
      (not (cmp (node_of nodes p) (node_of nodes r))
        && not (cmp (node_of nodes r) (node_of nodes p)))
      q l (r ∷ set_erase nodes p l) h) [
        | inl w ↦ inr w
        | inr w ↦ elim w [ inl e ↦ inl e | inr y ↦ inr (In-set_erase nodes p q l y) ]
      ]

pub same_some : {a b : ℕ} → ◌≡◌ {A = Option ℕ} (some a) (some b) → a ≡ b
same_some e = ground (arith, e)

pub none_differs : {a : ℕ} → ◌≡◌ {A = Option ℕ} none (some a) → ⊥
none_differs e = cc

pub not_same : (a b : ℕ) → ¬ (a ≡ b) → (a == b) ≡ false
not_same a b ne = ground (arith, ne)

-- `Visit` of a node in the map, with a change that keeps the key.
module _ (c : NumaCache) (valid : IsValid c) (key p numa_id : ℕ) (here : c.entry_map key ≡ some p)
    (f : CacheEntry → CacheEntry) (keeps : (x : CacheEntry) → (f x).key ≡ x.key) where
  unfoldable pub new : CacheEntry
  new = f (visit (node_of c.nodes p) numa_id)

  inside : p < length c.nodes
  inside = (valid.owned key p here).0

  own : (node_of (touch c p numa_id f).nodes p) ≡ new
  unfolding touch new
  own = get_or-set_self c.nodes p new _ inside

  other : (q : ℕ) → p ≢ q → node_of (touch c p numa_id f).nodes q ≡ node_of c.nodes q
  unfolding touch new
  other q ne = get_or-set_ne c.nodes p q new _ ne

  new-key : new.key ≡ (node_of c.nodes p).key
  unfolding new visit
  new-key = keeps _

  key_kept : (q : ℕ) → (node_of (touch c p numa_id f).nodes q).key ≡ (node_of c.nodes q).key
  key_kept q = elim (ℕ_discrete p q) [
    | yes e ↦
        subst (λ r. (node_of (touch c p numa_id f).nodes r).key ≡ (node_of c.nodes r).key) e
          (ap (λ (x : CacheEntry). x.key) own ∙ new-key)
    | no ne ↦ ap (λ (x : CacheEntry). x.key) (other q ne)
  ]

  size_kept : length (touch c p numa_id f).nodes ≡ length c.nodes
  unfolding touch
  size_kept = length-set c.nodes p _

  was_listed : (q : ℕ) → In q (touch c p numa_id f).entry_set → (q ≡ p) ⊎ In q c.entry_set
  unfolding touch
  was_listed q h =
      elim (In-set_insert (set c.nodes p (f (visit (node_of c.nodes p) numa_id))) p q
        (set_erase c.nodes p c.entry_set) h) [
          | inl e ↦ inl e
          | inr w ↦ inr (In-set_erase c.nodes p q c.entry_set w)
        ]

  pub touch-IsValid : IsValid (touch c p numa_id f)
  unfolding touch
  touch-IsValid = record {
    owned = λ k q h.
        (omega (arith, (valid.owned k q h).0, size_kept), key_kept q ∙ (valid.owned k q h).1);
    listed = λ q h. ap c.entry_map (key_kept q) ∙ elim (was_listed q h) [
      | inl e ↦
          subst (λ r. c.entry_map (node_of c.nodes r).key ≡ some r) (sym e)
            (ap c.entry_map (valid.owned key p here).1 ∙ here)
      | inr w ↦ valid.listed q w
    ];
    free = λ q h. (omega (arith, (valid.free q h).0, size_kept), (valid.free q h).1);
    distinct = valid.distinct;
    balance = valid.balance;
    some_set = λ h.
        set_insert-pos (set c.nodes p (f (visit (node_of c.nodes p) numa_id))) p
          (set_erase c.nodes p c.entry_set);
  }

  touch-held :
      (j : ℕ) (o : Option ℕ)
      → c.entry_map j ≡ o
      → held (touch c p numa_id f).nodes o ≡ (if key == j then some new.value else held c.nodes o)
  touch-held j none e =
      let test : (key == j) ≡ false =
        not_same key j (λ e'. none_differs (sym e ∙ ap c.entry_map (sym e') ∙ here)) in
      rw test refl
  touch-held j (some q) e = elim (ℕ_discrete p q) [
    | yes same ↦
        let key_j : key ≡ j =
          sym (valid.owned key p here).1
          ∙ ap (λ r. (node_of c.nodes r).key) same
          ∙ (valid.owned j q e).1 in
        let test : (key == j) ≡ true = ground (arith, key_j) in
        rw test (
          subst
            (λ r.
              ◌≡◌ {A = Option ℕ} (some (node_of (touch c p numa_id f).nodes r).value)
                (some new.value))
            same (ap (λ (x : CacheEntry). some x.value) own))
    | no ne ↦
        let test : (key == j) ≡ false =
          not_same key j (λ e'. ne (same_some (sym here ∙ ap c.entry_map e' ∙ e))) in
        rw test (ap (λ (x : CacheEntry). some x.value) (other q ne))
  ]

  pub touch-contents :
      (j : ℕ)
      → contents (touch c p numa_id f) j ≡ (if key == j then some new.value else contents c j)
  unfolding touch
  touch-contents j = touch-held j (c.entry_map j) refl
