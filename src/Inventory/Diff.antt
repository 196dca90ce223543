-- ===== src/Inventory/Diff.antt =====
-- services/inventory/ingest.go, computeDiff. A value of a snapshot is what JSON decodes to, of any
-- type with an equality, which is reflect.DeepEqual there, and with null.
use goosed.Support.{
  ◌≡◌, ◌≢◌, refl, Option, none, some, [], ◌∷◌, Eq, Bool-cases, inl, inr, arith, if◌then◌else◌,
}
use goosed.Support.Text.{Text, text_eq, text_eq_iff, text_eq_instance}
use goosed.Support.Maps.{Map, lookup, insert, lookup-insert, lookup-cons, NodupKeys}

-- map[string]any{"old": …, "new": …}
pub record Change (V : Type 0) : Type 0 where
  pub old : V
  pub new : V

module _ {V : Type 0} ⦃e : Eq V⦄ (null : V) where
  -- One round of the first loop, with what `current[key]` is.
  abbrev pub note_previous : Text → V → Option V → Map Text (Change V) → Map Text (Change V)
  note_previous key v none diff = insert key (record { old = v; new = null }) diff
  note_previous key v (some c) diff =
      if e.beq v c then diff else insert key (record { old = v; new = c }) diff

  unfoldable pub each_previous : Map Text V → Map Text V → Map Text (Change V) → Map Text (Change V)
  unfolding lookup insert
  each_previous [] current diff = diff
  each_previous ((key, v) ∷ rest) current diff =
      each_previous rest current (note_previous key v (lookup key current) diff)

  -- One round of the second loop, with what `previous[key]` is.
  abbrev pub note_current : Text → V → Option V → Map Text (Change V) → Map Text (Change V)
  note_current key c (some _) diff = diff
  note_current key c none diff = insert key (record { old = null; new = c }) diff

  unfoldable pub each_current : Map Text V → Map Text V → Map Text (Change V) → Map Text (Change V)
  unfolding lookup insert
  each_current previous [] diff = diff
  each_current previous ((key, c) ∷ rest) diff =
      each_current previous rest (note_current key c (lookup key previous) diff)

  -- computeDiff
  unfoldable pub compute_diff : Map Text V → Map Text V → Map Text (Change V)
  unfolding each_previous each_current
  compute_diff previous current = each_current previous current (each_previous previous current [])

  -- What computeDiff is to say of a key, from the values that it had and has.
  abbrev pub change_of : Option V → Option V → Option (Change V)
  change_of none none = none
  change_of none (some c) = some (record { old = null; new = c })
  change_of (some v) none = some (record { old = v; new = null })
  change_of (some v) (some c) = if e.beq v c then none else some (record { old = v; new = c })

  abbrev over : Option (Change V) → Option (Change V) → Option (Change V)
  over none d = d
  over (some c) d = some c

  -- What the first loop says of a key, and what the second does.
  abbrev told_previous : Option V → Option V → Option (Change V)
  told_previous none o = none
  told_previous (some v) o = change_of (some v) o

  abbrev told_current : Option V → Option V → Option (Change V)
  told_current none o = change_of none o
  told_current (some _) o = none

  lookup-note_previous :
      (k j : Text) (v : V) (o : Option V) (diff : Map Text (Change V))
      → lookup k (note_previous j v o diff)
        ≡ (if text_eq j k then over (change_of (some v) o) (lookup k diff) else lookup k diff)
  lookup-note_previous k j v none diff =
      ground (arith, lookup-insert j k (record { old = v; new = null }) diff)
  lookup-note_previous k j v (some c) diff =
      ground (arith, lookup-insert j k (record { old = v; new = c }) diff)

  lookup-note_current :
      (k j : Text) (c : V) (o : Option V) (diff : Map Text (Change V))
      → lookup k (note_current j c o diff)
        ≡ (if text_eq j k then over (told_current o (some c)) (lookup k diff) else lookup k diff)
  lookup-note_current k j c none diff =
      ground (arith, lookup-insert j k (record { old = null; new = c }) diff)
  lookup-note_current k j c (some p) diff = ground arith

  lookup-each_previous :
      (k : Text) (previous current : Map Text V) (diff : Map Text (Change V))
      → NodupKeys previous
      → lookup k (each_previous previous current diff)
        ≡ over (told_previous (lookup k previous) (lookup k current)) (lookup k diff)
  unfolding each_previous
  lookup-each_previous k [] current diff u = refl
  lookup-each_previous k ((j, v) ∷ rest) current diff (fresh, u) = elim (Bool-cases (text_eq j k)) [
    | inl y ↦
        let same = (text_eq_iff j k).0 y in
        ground (
          arith,
          lookup-cons j k v rest,
          same,
          fresh,
          lookup-note_previous k j v (lookup j current) diff,
          lookup-each_previous k rest current (note_previous j v (lookup j current) diff) u,
        )
    | inr n ↦ ground (
      arith,
      lookup-cons j k v rest,
      lookup-note_previous k j v (lookup j current) diff,
      lookup-each_previous k rest current (note_previous j v (lookup j current) diff) u,
    )
  ]

  lookup-each_current :
      (k : Text) (previous current : Map Text V) (diff : Map Text (Change V))
      → NodupKeys current
      → lookup k (each_current previous current diff) ≡ (elim (lookup k current) [
        | none ↦ lookup k diff
        | some c ↦ over (told_current (lookup k previous) (some c)) (lookup k diff)
      ])
  unfolding each_current
  lookup-each_current k previous [] diff u = refl
  lookup-each_current k previous ((j, c) ∷ rest) diff (fresh, u) = elim (Bool-cases (text_eq j k)) [
    | inl y ↦
        let same = (text_eq_iff j k).0 y in
        ground (
          arith,
          lookup-cons j k c rest,
          same,
          fresh,
          lookup-note_current k j c (lookup j previous) diff,
          lookup-each_current k previous rest (note_current j c (lookup j previous) diff) u,
        )
    | inr n ↦ ground (
      arith,
      lookup-cons j k c rest,
      lookup-note_current k j c (lookup j previous) diff,
      lookup-each_current k previous rest (note_current j c (lookup j previous) diff) u,
    )
  ]

  -- computeDiff says of each key whether it came, went or changed, with the value before and after,
  -- null where there is none; and nothing of a key whose value stayed, whatever the order of the maps.
  pub compute_diff-eq-change_of :
      (previous current : Map Text V) (k : Text)
      → NodupKeys previous
      → NodupKeys current
      → lookup k (compute_diff previous current) ≡ change_of (lookup k previous) (lookup k current)
  unfolding compute_diff
  compute_diff-eq-change_of previous current k u u' = ground (
    arith,
    lookup-each_previous k previous current [] u,
    lookup-each_current k previous current (each_previous previous current []) u',
  )

  -- The value after a change, and the value before it.
  abbrev pub redo : Option V → Option (Change V) → Option V
  redo o none = o
  redo o (some c) = if e.beq c.new null then none else some c.new

  abbrev pub undo : Option V → Option (Change V) → Option V
  undo o none = o
  undo o (some c) = if e.beq c.old null then none else some c.old

  there_and_back :
      (p c : Option V)
      → p ≢ some null
      → c ≢ some null
      → (redo p (change_of p c) ≡ c) × (undo c (change_of p c) ≡ p)
  there_and_back none none n n' = (refl, refl)
  there_and_back none (some c) n n' = ground (arith, e.beq_iff c null, e.beq_iff null null)
  there_and_back (some v) none n n' = ground (arith, e.beq_iff v null, e.beq_iff null null)
  there_and_back (some v) (some c) n n' =
      ground (arith, e.beq_iff v null, e.beq_iff c null, e.beq_iff v c)

  -- Where no value of the two snapshots is null, the diff leads from each value of the previous one
  -- to that of the current one, and back.
  pub redo-undo-compute_diff :
      (previous current : Map Text V) (k : Text)
      → NodupKeys previous
      → NodupKeys current
      → lookup k previous ≢ some null
      → lookup k current ≢ some null
      → (redo (lookup k previous) (lookup k (compute_diff previous current)) ≡ lookup k current)
        × (undo (lookup k current) (lookup k (compute_diff previous current)) ≡ lookup k previous)
  redo-undo-compute_diff previous current k u u' n n' =
      rw (compute_diff-eq-change_of previous current k u u')
        (there_and_back (lookup k previous) (lookup k current) n n')
