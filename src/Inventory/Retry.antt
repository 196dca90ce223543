-- ===== src/Inventory/Retry.antt =====
-- services/inventory/ingest.go, handleFact: an event that failed and is delivered again.
use goosed.Support.{
  ℕ, ◌≡◌, refl, ap, Bool, true, some, List, [], ◌∷◌, ◌++◌, inl, inr, arith, ◌∙◌, ◌==◌, Eq,
  Bool-cases, All, any,
}
use goosed.Support.Text.{Text, text_eq_instance}
use goosed.Support.Maps.{Map}
use goosed.Support.Results.{ok, err}
use goosed.Gorm.Table.{Table}
use goosed.Gorm.Keyed.{Keyed, with_new}
use goosed.Gorm.Rows.{Member-append}
use goosed.Inventory.Diff.{compute_diff}
use goosed.Inventory.Ingest.{
  FactEvent, JsonColumn, FactModel, AuditModel, IngestError, fact_key, fact_of, Ingestor,
  handle_fact, audit_of,
}
use goosed.Inventory.Audit.{IsPrevious, Audited, handle_fact-Audited, handle_fact-Interrupted}

any-append_last :
    {A : Type 0} (p : A → Bool) (xs : List A) (a : A) → p a ≡ true → any p (xs ++ a ∷ []) ≡ true
unfolding any
any-append_last p [] a h = ground arith
any-append_last p (x ∷ xs) a h = ground (arith, any-append_last p xs a h)

with_new-with_new :
    {Row : Type 0} (key : Row → ℕ) (r : Row) (rows : List Row)
    → with_new key r (with_new key r rows) ≡ with_new key r rows
with_new-with_new key r rows = elim (Bool-cases (any (λ x. key x == key r) rows)) [
  | inl y ↦ rw (y, y) refl
  | inr n ↦ let t = any-append_last (λ x. key x == key r) rows r (ground arith) in rw (n, t) refl
]

All-init : {A : Type 0} (P : A → Type 0) (xs : List A) (a : A) → All P (xs ++ a ∷ []) → All P xs
All-init P [] a h = tt
All-init P (x ∷ xs) a h = (h.0, All-init P xs a h.1)

module _ {V : Type 0} ⦃e : Eq V⦄ (null : V) (uuid_string : ℕ → Text) (jsonb : JsonColumn V)
    (facts : Table (FactModel jsonb.Column)) (keyed : Keyed facts fact_key)
    (audits : Table (AuditModel V)) where
  -- The fact itself is no snapshot to compare with.
  IsPrevious-append :
      (evt : FactEvent V) (now : ℕ) (rows : List (FactModel jsonb.Column)) (previous : Map Text V)
      → IsPrevious null uuid_string jsonb facts keyed audits evt
          (rows ++ fact_of jsonb evt now ∷ [])
          previous
      → IsPrevious null uuid_string jsonb facts keyed audits evt rows previous
  IsPrevious-append evt now rows previous (inl (r, m, o, a, s)) =
      elim (Member-append rows (fact_of jsonb evt now ∷ []) r m) [
        | inl k ↦ inl (r, k, o, All-init _ rows (fact_of jsonb evt now) a, s)
        | inr (inl q) ↦ absurd (
            let p : evt.fact_id ≡ r.id = ap (λ (z : FactModel jsonb.Column). z.id) q in
            ground arith)
        | inr (inr f) ↦ absurd f
      ]
  IsPrevious-append evt now rows previous (inr (a, s)) =
      inr (All-init _ rows (fact_of jsonb evt now) a, s)

  IsPrevious-with_new :
      (evt : FactEvent V) (now : ℕ) (rows : List (FactModel jsonb.Column)) (previous : Map Text V)
      → IsPrevious null uuid_string jsonb facts keyed audits evt
          (with_new fact_key (fact_of jsonb evt now) rows)
          previous
      → IsPrevious null uuid_string jsonb facts keyed audits evt rows previous
  IsPrevious-with_new evt now rows previous p =
      elim (Bool-cases (any (λ x. fact_key x == evt.fact_id) rows)) [
        | inl y ↦ rw y at p
        | inr n ↦ IsPrevious-append evt now rows previous (rw n at p)
      ]

  -- An event with a time of its own that failed, at whatever statement, and that is then taken in at
  -- the next delivery, has the effect of one delivery: the one fact and the one audit row, with the
  -- diff from a snapshot, as its column is read, that stood there before the first delivery, or from
  -- an empty one.
  pub retried :
      (evt : FactEvent V) (c now now' : ℕ) (i : Ingestor null uuid_string jsonb facts keyed audits)
      {x : IngestError} {i' i'' : Ingestor null uuid_string jsonb facts keyed audits}
      → evt.created_at ≡ some c
      → handle_fact null uuid_string jsonb facts keyed audits (some evt) now i ≡ (err x, i')
      → handle_fact null uuid_string jsonb facts keyed audits (some evt) now' i' ≡ (ok tt, i'')
      → Audited null uuid_string jsonb facts keyed audits evt now i i''
  retried evt c now now' i {i' = i'} {i''} t h h' =
      let (same, fact) =
        handle_fact-Interrupted null uuid_string jsonb facts keyed audits evt now i h in
      let (_, _, a) =
        handle_fact-Audited null uuid_string jsonb facts keyed audits evt now' i' h' in
      let one : fact_of jsonb evt now' ≡ fact_of jsonb evt now = rw t refl in
      let done = a.fact ∙ ap (λ f. with_new fact_key f (facts.rows i'.fact_db)) one in
      let audit =
        a.audit
        ∙ ap
            (λ z.
              z
              ++ audit_of null uuid_string jsonb facts keyed audits evt
                  (compute_diff null a.previous evt.snapshot)
                ∷ [])
            same in
      elim fact [
        | inl s ↦ record {
          previous = a.previous;
          is_previous = rw s at a.is_previous;
          fact = done ∙ ap (with_new fact_key (fact_of jsonb evt now)) s;
          audit = audit;
        }
        | inr w ↦ record {
          previous = a.previous;
          is_previous =
              IsPrevious-with_new evt now (facts.rows i.fact_db) a.previous (rw w at a.is_previous);
          fact =
              done
              ∙ ap (with_new fact_key (fact_of jsonb evt now)) w
              ∙ with_new-with_new fact_key (fact_of jsonb evt now) (facts.rows i.fact_db);
          audit = audit;
        }
      ]
