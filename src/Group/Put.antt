-- ===== src/Group/Put.antt =====
-- `Put` of a group: it returns after at most one expansion, and stores the value or asks for more.
use nali.Prelude.{
  ℕ, suc, ◌+◌, ◌<◌, ◌≡◌, refl, sym, ◌∙◌, ap, inl, inr, Bool, true, false, none, some, List, arith,
  ltb, ◌==◌, if◌then◌else◌, length, set, set-get_or, [], ◌>>=◌, ◌⊎◌, dec_lt,
}
use nali.Bucket.Defs.{KvEntry, entry_count, ok, full}
use nali.Entry
use nali.Entry.Defs.{PointerBEntry, count}
use nali.Entry.Adjust.{HasKey}
use nali.Entry.Store
use nali.Entry.Store.{stored, stored_split, refused}
use nali.Group.Search.{Prediction}
use nali.Group.Chain.{node_at, Changed}
use nali.Group.Defs.{Group, max_entry_count, entry_id, expand, pass, put, retry, done}
use nali.Group.Valid.{contents, IsValid, located, written, Effect, written_lem}
use nali.Group.Grown.{expand-Expanded, Expanded}

module _ (train : List ℕ → ℕ → Prediction) (memory : List KvEntry)
    (size : length memory ≡ entry_count) (k v : ℕ) where
  -- the group with `v` under `k` as well
  abbrev pub Stored : Group → Group → Type 0
  Stored g g' = Effect g g' k (some v)

  -- How one run of the body ends where the key is absent.
  data Passed (g : Group) : Type 0 where
    ended : (g' : Group) → pass train memory g k v ≡ some (done g' ok) → Stored g g' → Passed g
    crowded :
        pass train memory g k v ≡ some (done g full)
        → max_entry_count < g.next_entry_count
        → count (node_at g.entry_space (entry_id g k)) ≡ 4
        → Passed g
    grew :
        (g' : Group)
        → pass train memory g k v ≡ some (retry g')
        → (valid : IsValid g) → Expanded train g valid g'
        → count (node_at g.entry_space (entry_id g k)) ≡ 4
        → Passed g

  pass-Stored :
      (g : Group) (valid : IsValid g) (e' : PointerBEntry) (split : Bool)
      → Entry.Defs.put 2 memory (node_at g.entry_space (entry_id g k)) k v false
        ≡ some (e', ok, split)
      → Entry.Valid.IsValid e'
        × ((j : ℕ)
            → Entry.Valid.contents e' j ≡ (
                if k == j
                then some v
                else Entry.Valid.contents (node_at g.entry_space (entry_id g k)) j))
        × Entry.Edges.Keeps (node_at g.entry_space (entry_id g k)) e' k
      → (if split
          then suc (count (node_at g.entry_space (entry_id g k)))
          else count (node_at g.entry_space (entry_id g k)))
        ≡ count e'
      → (g' : Group) × (pass train memory g k v ≡ some (done g' ok)) × Stored g g'
  unfolding pass
  pass-Stored g valid e' split run (valid', contents', keeps) counts =
      let c : Changed (node_at g.entry_space (entry_id g k)) e' k (some v) = record {
        valid' = valid';
        contents' = contents';
        keeps = keeps;
      } in
      let n : ℕ = if split then g.next_entry_count + 1 else g.next_entry_count in
      (written g valid k e' n, rw run refl, written_lem g valid k e' n (some v) c (ground arith))

  pass_room :
      (g : Group)
      → IsValid g
      → count (node_at g.entry_space (entry_id g k)) < 4
      → contents g k ≡ none
      → (g' : Group) × (pass train memory g k v ≡ some (done g' ok)) × Stored g g'
  pass_room g valid room absent =
      let at = located g valid k in
      let e = node_at g.entry_space (entry_id g k) in
      elim (Store.put-Outcome memory size e at.valid' k v (sym at.same ∙ absent) 0 false) [
        | stored e' run is_stored same ↦ pass-Stored g valid e' false run is_stored (sym same)
        | stored_split e' run is_stored same ↦ pass-Stored g valid e' true run is_stored (sym same)
        | refused run all _ ↦ absurd (omega arith)
      ]

  -- `Put` of an absent key whose entry has a bucket to spare stores the pair.
  pub put-room :
      (g : Group) (fuel : ℕ)
      → IsValid g
      → count (node_at g.entry_space (entry_id g k)) < 4
      → contents g k ≡ none
      → (g' : Group) × (put train memory (suc fuel) g k v ≡ some (g', ok)) × Stored g g'
  unfolding put
  put-room g fuel valid room absent =
      let (g', run, s) = pass_room g valid room absent in (g', rw run refl, s)

  pass-Passed :
      (g : Group) → IsValid g → HasKey (node_at g.entry_space 0) → contents g k ≡ none → Passed g
  unfolding pass
  pass-Passed g valid first absent =
      let at = located g valid k in
      let e = node_at g.entry_space (entry_id g k) in
      elim (Store.put-Outcome memory size e at.valid' k v (sym at.same ∙ absent) 0 false) [
        | stored e' run is_stored same ↦
            let (g', run', s) = pass-Stored g valid e' false run is_stored (sym same) in
            ended g' run' s
        | stored_split e' run is_stored same ↦
            let (g', run', s) = pass-Stored g valid e' true run is_stored (sym same) in
            ended g' run' s
        | refused run all _ ↦
            let back : record g { entry_space = set g.entry_space (entry_id g k) e } ≡ g =
              ap (λ l. record g { entry_space = l })
                (set-get_or g.entry_space (entry_id g k) (record { entrys = [] })) in
            elim (dec_lt max_entry_count g.next_entry_count) [
              | yes large ↦
                  let yes_large : ltb max_entry_count g.next_entry_count ≡ true = ground arith in
                  crowded (rw run (rw yes_large (ap (λ h. some (done h full)) back))) large all
              | no small ↦
                  let (g', run', x) = expand-Expanded train memory g valid first in
                  let not_large : ltb max_entry_count g.next_entry_count ≡ false = ground arith in
                  grew g'
                    (rw run (
                      rw not_large (
                        ap (λ h. expand train memory h >>= (λ g''. some (retry g''))) back
                        ∙ rw run' refl)))
                    valid x all
            ]
      ]

  -- In a valid group whose first bucket holds a key, where the new key is absent, with fuel for
  -- two runs of the body and fresh buckets of the full size, `Put` returns: it stores the pair,
  -- after at most one expansion, and leaves a valid group that is unchanged elsewhere and starts
  -- no lower than before or than the key; or it reports Full, changes nothing, and the group
  -- counts more than 1,024 buckets.
  pub put-expand :
      (g : Group) (fuel : ℕ)
      → IsValid g
      → HasKey (node_at g.entry_space 0)
      → contents g k ≡ none
      → ((g' : Group) × (put train memory (suc (suc fuel)) g k v ≡ some (g', ok)) × Stored g g')
        ⊎ ((put train memory (suc (suc fuel)) g k v ≡ some (g, full))
            × (max_entry_count < g.next_entry_count))
  unfolding put
  put-expand g fuel valid first absent = elim (pass-Passed g valid first absent) [
    | ended g' run is_stored ↦ inl (g', rw run refl, is_stored)
    | crowded run large _ ↦ inr (rw run refl, large)
    | grew g' run valid x _ ↦
        let at = located g' x.valid' k in
        let room : count (node_at g'.entry_space (entry_id g' k)) < 4 =
          omega (arith, x.alone (entry_id g' k) at.inside) in
        let (g'', run'', s) = pass_room g' x.valid' room (x.contents' k ∙ absent) in
        inl (
          g'',
          rw (run, run'') refl,
          record {
            valid' = s.valid';
            contents' = λ j. rw (s.contents' j, x.contents' j) refl;
            below = λ bound u h. s.below bound (x.below' bound u) h;
            lifts = λ bound h q. s.lifts bound (omega (arith, x.first')) q;
          },
        )
  ]
