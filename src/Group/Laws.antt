-- ===== src/Group/Laws.antt =====
-- `Get`, `Update` and `Delete` of a group against the map that it stands for.
use nali.Prelude.{
  ℕ, ◌≡◌, refl, sym, ◌∙◌, ap, inl, inr, Option, none, some, Bool, true, false, arith, ltb,
  if◌then◌else◌, Bool-cases, set-get_or, [], ◌⊎◌,
}
use nali.Entry
use nali.Entry.Laws
use nali.Group.Chain.{node_at, Changed}
use nali.Group.Defs.{Group, entry_id, get, fast_fail, update, delete}
use nali.Group.Valid.{contents, IsValid, located, written, Effect, written_lem}

-- what a lookup answers
abbrev pub answer : Option ℕ → Option (Bool × ℕ)
answer none = some (false, 0)
answer (some v) = some (true, v)

answer-elim :
    (o : Option ℕ) → elim o [ some v ↦ some (true, v) | none ↦ some (false, 0) ] ≡ answer o
answer-elim none = refl
answer-elim (some v) = refl

module _ (g : Group) (valid : IsValid g) (k : ℕ) where
  pub fast_fail-answer :
      (get g k ≡ answer (contents g k))
      × (fast_fail g k ≡ (if ltb k g.min_key then some (false, 0) else answer (contents g k)))
  unfolding get fast_fail
  fast_fail-answer =
      let at = located g valid k in
      let run : get g k ≡ answer (contents g k) = rw at.same (
        Entry.Locate.get-contents (node_at g.entry_space (entry_id g k)) at.valid' k
        ∙ answer-elim (Entry.Valid.contents (node_at g.entry_space (entry_id g k)) k)) in
      (run, ground (arith, run, valid.some_entry))

  pub fast_fail-none : contents g k ≡ none → fast_fail g k ≡ some (false, 0)
  fast_fail-none gone = elim (Bool-cases (ltb k g.min_key)) [
    | inl below ↦ fast_fail-answer.1 ∙ rw below refl
    | inr above ↦ fast_fail-answer.1 ∙ rw (above, gone) refl
  ]

  pub fast_fail-some :
      (v : ℕ)
      → contents g k ≡ some v
      → (fast_fail g k ≡ some (false, 0)) ⊎ (fast_fail g k ≡ some (true, v))
  fast_fail-some v present = elim (Bool-cases (ltb k g.min_key)) [
    | inl below ↦ inl (fast_fail-answer.1 ∙ rw below refl)
    | inr above ↦ inr (fast_fail-answer.1 ∙ rw (above, present) refl)
  ]

  -- In a valid group `Update` of a present key succeeds, returns the old value, keeps the group
  -- valid, and changes the value of that key only; the group starts no lower than before or than
  -- the key.
  pub update-some :
      (v old : ℕ)
      → contents g k ≡ some old
      → (g' : Group) × (update g k v ≡ some (g', true, old)) × Effect g g' k (some v)
  unfolding update
  update-some v old present =
      let at = located g valid k in
      let (e', run, valid', contents', count', keeps) =
        Entry.Laws.update-contents (node_at g.entry_space (entry_id g k)) at.valid' k v old
          (sym at.same ∙ present) in
      let c : Changed (node_at g.entry_space (entry_id g k)) e' k (some v) = record {
        valid' = valid';
        contents' = contents';
        keeps = keeps;
      } in
      (
        written g valid k e' g.next_entry_count,
        rw run refl,
        written_lem g valid k e' g.next_entry_count (some v) c (omega (arith, count')),
      )

  pub update-same : (v : ℕ) → contents g k ≡ none → update g k v ≡ some (g, false, 0)
  unfolding update
  update-same v absent =
      let at = located g valid k in
      rw
        (Entry.Laws.update-none (node_at g.entry_space (entry_id g k)) at.valid' k v
          (sym at.same ∙ absent))
        (ap (λ l. some (record g { entry_space = l }, false, 0))
          (set-get_or g.entry_space (entry_id g k) (record { entrys = [] })))

  -- In a valid group `Delete` of a present key succeeds, returns its value, keeps the group valid,
  -- and removes that key only.
  pub delete-some :
      (old : ℕ)
      → contents g k ≡ some old
      → (g' : Group) × (delete g k ≡ some (g', true, old)) × Effect g g' k none
  unfolding delete
  delete-some old present =
      let at = located g valid k in
      let (e', run, valid', contents', count', keeps) =
        Entry.Laws.delete-contents (node_at g.entry_space (entry_id g k)) at.valid' k old
          (sym at.same ∙ present) in
      let c : Changed (node_at g.entry_space (entry_id g k)) e' k none = record {
        valid' = valid';
        contents' = contents';
        keeps = keeps;
      } in
      (
        written g valid k e' g.next_entry_count,
        rw run refl,
        written_lem g valid k e' g.next_entry_count none c (omega (arith, count')),
      )

  pub delete-same : contents g k ≡ none → delete g k ≡ some (g, false, 0)
  unfolding delete
  delete-same absent =
      let at = located g valid k in
      rw
        (Entry.Laws.delete-none (node_at g.entry_space (entry_id g k)) at.valid' k
          (sym at.same ∙ absent))
        (ap (λ l. some (record g { entry_space = l }, false, 0))
          (set-get_or g.entry_space (entry_id g k) (record { entrys = [] })))
