-- ===== src/Cache/Take.antt =====
-- The node that `put` takes for a new key: the top of the stack, or the first of a full set.
use nali.Prelude.{
  ℕ, zero, suc, ◌+◌, ◌<◌, ◌≡◌, ◌≢◌, refl, sym, ◌∙◌, ap, ◌⊎◌, inl, inr, true, Option, none, some,
  List, [], ◌∷◌, arith, ◌==◌, length, ℕ_discrete, Bool-cases,
}
use mathlib.Core.Path.{subst}
use nali.Cache.Defs.{NumaCache, node_of, map_set, drop_first, take_node}
use nali.Cache.Laws.{In, IsDistinct, held, contents, IsValid, none_differs, same_some, not_same}
use nali.Cache.Enter.{IsOpen}

cons_of : (l : List ℕ) → 0 < length l → (p : ℕ) × (r : List ℕ) × (l ≡ p ∷ r)
cons_of [] h = absurd (omega arith)
cons_of (p ∷ r) h = (p, r, refl)

pos_of : (a b c : ℕ) → a + b ≡ c → ¬ (a ≡ c) → 0 < b
pos_of a zero c e ne = absurd (ne (omega arith))
pos_of a (suc b) c e ne = omega arith

-- What room for a new key may cost: nothing, or, in a full cache, some pairs.
pub record Taken (c c' : NumaCache) (p key : ℕ) : Type 0 where
  pub opened : IsOpen c' p
  pub absent' : c'.entry_map key ≡ none
  pub kept :
      (j : ℕ) → (contents c' j ≡ contents c j) ⊎ ((contents c' j ≡ none) × (c.size ≡ c.capacity))

module _ (c : NumaCache) (valid : IsValid c) (key : ℕ) (absent : c.entry_map key ≡ none) where
  take_free :
      (p : ℕ) (l : List ℕ)
      → c.free_entry ≡ p ∷ l
      → Taken c (record c { free_entry = l; size = c.size + 1 }) p key
  take_free p l e =
      let in_stack : (q : ℕ) → In q (p ∷ l) → In q c.free_entry = λ q h. subst (In q) (sym e) h in
      let apart : IsDistinct (p ∷ l) = subst IsDistinct e valid.distinct in
      record {
        opened = record {
          inside = (valid.free p (in_stack p (inl refl))).0;
          unmapped = (valid.free p (in_stack p (inl refl))).1;
          owned = valid.owned;
          listed = λ q h ne. valid.listed q h;
          free = λ q h. (
            (valid.free q (in_stack q (inr h))).0,
            (valid.free q (in_stack q (inr h))).1,
            λ same. apart.0 (subst (λ r. In r l) (sym same) h),
          );
          distinct = apart.1;
          balance = omega (arith, valid.balance, ap length e);
        };
        absent' = absent;
        kept = λ j. inl refl;
      }

  -- The map without the key of the node `p`.
  module _ (p : ℕ) (here : c.entry_map (node_of c.nodes p).key ≡ some p) where
    erased : ℕ → Option ℕ
    erased = map_set c.entry_map (node_of c.nodes p).key none

    erased-cases :
        (k q : ℕ) → erased k ≡ some q → ((node_of c.nodes p).key ≢ k) × (c.entry_map k ≡ some q)
    unfolding erased
    erased-cases k q h = elim (ℕ_discrete (node_of c.nodes p).key k) [
      | yes e ↦
          let test : ((node_of c.nodes p).key == k) ≡ true = ground (arith, e) in
          absurd (none_differs (sym (rw test refl) ∙ h))
      | no ne ↦ (ne, sym (rw (not_same (node_of c.nodes p).key k ne) refl) ∙ h)
    ]

    erased_unmapped : (k : ℕ) → erased k ≢ some p
    erased_unmapped k h = let (ne, old) = erased-cases k p h in ne (valid.owned k p old).1

    erased_listed : (q : ℕ) → In q c.entry_set → p ≢ q → erased (node_of c.nodes q).key ≡ some q
    unfolding erased
    erased_listed q w ne =
        let old = valid.listed q w in
        let apart : (node_of c.nodes p).key ≢ (node_of c.nodes q).key =
          λ e. ne (same_some (sym here ∙ ap c.entry_map e ∙ old)) in
        rw (not_same (node_of c.nodes p).key (node_of c.nodes q).key apart) old

    erased-held :
        (j : ℕ)
        → (held c.nodes (erased j) ≡ held c.nodes (c.entry_map j))
          ⊎ (held c.nodes (erased j) ≡ none)
    unfolding erased
    erased-held j = elim (Bool-cases ((node_of c.nodes p).key == j)) [
      | inl same ↦ inr (rw same refl)
      | inr other ↦ inl (rw other refl)
    ]

  take_first :
      (p : ℕ) (l : List ℕ)
      → c.entry_set ≡ p ∷ l
      → c.size ≡ c.capacity
      → Taken c (drop_first c p l) p key
  unfolding erased
  take_first p l e full =
      let in_set : (q : ℕ) → In q (p ∷ l) → In q c.entry_set = λ q h. subst (In q) (sym e) h in
      let here = valid.listed p (in_set p (inl refl)) in
      record {
        opened = record {
          inside = (valid.owned _ p here).0;
          unmapped = erased_unmapped p here;
          owned = λ k q h. valid.owned k q (erased-cases p here k q h).1;
          listed = λ q h. erased_listed p here q (in_set q (inr h));
          free = λ q h. (
            (valid.free q h).0,
            λ k w. (valid.free q h).1 k (erased-cases p here k q w).1,
            λ same. (valid.free q h).1 (node_of c.nodes p).key (here ∙ ap some same),
          );
          distinct = valid.distinct;
          balance = valid.balance;
        };
        absent' = elim (Bool-cases ((node_of c.nodes p).key == key)) [
          | inl same ↦ rw same refl
          | inr other ↦ rw other absent
        ];
        kept =
            λ j. elim (erased-held p here j) [ inl same ↦ inl same | inr gone ↦ inr (gone, full) ];
      }

  pub take_node-Taken :
      0 < c.capacity → (c' : NumaCache) × (p : ℕ) × (take_node c ≡ some (c', p)) × Taken c c' p key
  unfolding take_node
  take_node-Taken pos = elim (ℕ_discrete c.size c.capacity) [
    | yes full ↦
        let test : (c.size == c.capacity) ≡ true = ground (arith, full) in
        let (p, l, e) = cons_of c.entry_set (valid.some_set full) in
        (drop_first c p l, p, rw (test, e) refl, take_first p l e full)
    | no room ↦
        let test = not_same c.size c.capacity room in
        let (p, l, e) =
          cons_of c.free_entry
            (pos_of c.size (length c.free_entry) c.capacity valid.balance room) in
        (record c { free_entry = l; size = c.size + 1 }, p, rw (test, e) refl, take_free p l e)
  ]
