-- ===== src/Migrations/History.antt =====
-- The chain of the scripts in backend/migrations/versions/, and the way along it in both directions, which
-- `alembic upgrade` and `alembic downgrade` take.
use my_frist_reop.Prelude.{
  ℕ, String, Option, none, some, inl, inr, List, [], ◌∷◌, ◌++◌, ◌≡◌, refl, ◌∙◌, Option-cases, All,
  All-take, All-drop, take, drop, arith,
}
use my_frist_reop.Migrations.{
  Operation, Revision, run, create_table, drop_table, add_column, drop_column, create_index,
  drop_index,
}
use my_frist_reop.Migrations.Phase1.{create_phase1_tables}
use my_frist_reop.Migrations.Heartbeat.{add_agent_heartbeat_fields}
use my_frist_reop.Migrations.Ai.{add_phase6_ai_tables}

-- The scripts in the order of `down_revision`.
abbrev pub revisions : List Revision
revisions = create_phase1_tables ∷ add_agent_heartbeat_fields ∷ add_phase6_ai_tables ∷ []

abbrev pub upgrades : List Revision → List Operation
upgrades [] = []
upgrades (r ∷ rs) = r.upgrade ++ upgrades rs

abbrev pub downgrades : List Revision → List Operation
downgrades [] = []
downgrades (r ∷ rs) = downgrades rs ++ r.downgrade

-- Each script goes on from the one before it.
abbrev IsChain : Option String → List Revision → Type 0
IsChain last [] = Unit
IsChain last (r ∷ rs) = (r.down_revision ≡ last) × IsChain (some r.revision) rs

revisions-IsChain : IsChain none revisions
revisions-IsChain = (refl, (refl, (refl, tt)))

-- What takes back one operation that creates something.
abbrev pub inverse : Operation → Option Operation
inverse (create_table t columns constraints) = some (drop_table t)
inverse (add_column t column) = some (drop_column t column.name)
inverse (create_index i t columns) = some (drop_index i t)
inverse (drop_table t) = none
inverse (drop_column t column) = none
inverse (drop_index i t) = none

abbrev inverses : List Operation → Option (List Operation)
inverses [] = some []
inverses (o ∷ os) = elim (inverse o) [
  | none ↦ none
  | some p ↦ elim (inverses os) [ none ↦ none | some ps ↦ some (ps ++ p ∷ []) ]
]

abbrev IsReversible : Revision → Type 0
IsReversible r = inverses r.upgrade ≡ some r.downgrade

revisions-IsReversible : All IsReversible revisions
revisions-IsReversible = (refl, (refl, (refl, tt)))

-- The documented behaviour of the database: a drop takes back what has just been created.
abbrev pub DropsUndo {ℓ} : {S : Type ℓ} → (Operation → S → Option S) → Type ℓ
DropsUndo {S = S} apply =
    (o p : Operation) (s t : S) → inverse o ≡ some p → apply o s ≡ some t → apply p t ≡ some s

inverses-cons :
    (o : Operation) (os ps : List Operation)
    → inverses (o ∷ os) ≡ some ps
    → (p : Operation) × (qs : List Operation) × (inverse o ≡ some p)
      × (inverses os ≡ some qs)
      × (ps ≡ qs ++ p ∷ [])
inverses-cons o os ps h = elim (Option-cases (inverse o)) [
  | inl a ↦ absurd (ground arith)
  | inr (p, a) ↦ elim (Option-cases (inverses os)) [
    | inl b ↦ absurd (ground arith)
    | inr (qs, b) ↦ (p, qs, a, b, ground arith)
  ]
]

module _ {ℓ} {S : Type ℓ} (apply : Operation → S → Option S) where
  run-cons :
      (o : Operation) (os : List Operation) (s t : S)
      → run apply (o ∷ os) s ≡ some t
      → (u : S) × (apply o s ≡ some u) × (run apply os u ≡ some t)
  run-cons o os s t h = elim (Option-cases (apply o s)) [
    | inl e ↦ absurd (ground arith)
    | inr (u, e) ↦ (u, e, ground arith)
  ]

  run-append :
      (os ps : List Operation) (s t : S)
      → run apply os s ≡ some t
      → run apply (os ++ ps) s ≡ run apply ps t
  run-append [] ps s t h = ground arith
  run-append (o ∷ os) ps s t h = elim (Option-cases (apply o s)) [
    | inl e ↦ ground arith
    | inr (u, e) ↦ ground (arith, run-append os ps u t)
  ]

  run-split :
      (os ps : List Operation) (s t : S)
      → run apply (os ++ ps) s ≡ some t
      → (u : S) × (run apply os s ≡ some u) × (run apply ps u ≡ some t)
  run-split [] ps s t h = (s, refl, h)
  run-split (o ∷ os) ps s t h =
      let (u, e, k) = run-cons o (os ++ ps) s t h in
      let (v, a, b) = run-split os ps u t k in (v, ground arith, b)

  module _ (drops : DropsUndo apply) where
    run-inverses :
        (os ps : List Operation) (s t : S)
        → inverses os ≡ some ps
        → run apply os s ≡ some t
        → run apply ps t ≡ some s
    run-inverses [] ps s t e h = ground arith
    run-inverses (o ∷ os) ps s t e h =
        let (p, qs, a, b, c) = inverses-cons o os ps e in
        let (u, d, k) = run-cons o os s t h in
        let back = run-inverses os qs u t b k in
        let last = drops o p s u a d in rw c (run-append qs (p ∷ []) t u back ∙ ground arith)

    -- Back over any scripts each of which is reversible.
    run-downgrades :
        (rs : List Revision) (s t : S)
        → All IsReversible rs
        → run apply (upgrades rs) s ≡ some t
        → run apply (downgrades rs) t ≡ some s
    run-downgrades [] s t reversible h = ground arith
    run-downgrades (r ∷ rs) s t reversible h =
        let (u, a, b) = run-split r.upgrade (upgrades rs) s t h in
        run-append (downgrades rs) r.downgrade t u (run-downgrades rs u t reversible.1 b)
        ∙ run-inverses r.upgrade r.downgrade s u reversible.0 a

    -- With a database where a drop takes back what has just been created: if the upgrade along any part of
    -- the chain, `count` scripts from the place `from` on, succeeds, then the downgrade along the same part
    -- succeeds too, and the database is as it was before.
    pub downgrade-upgrade :
        (from count : ℕ) (s t : S)
        → run apply (upgrades (take count (drop from revisions))) s ≡ some t
        → run apply (downgrades (take count (drop from revisions))) t ≡ some s
    downgrade-upgrade from count s t h =
        run-downgrades (take count (drop from revisions)) s t
          (All-take IsReversible count (drop from revisions)
            (All-drop IsReversible from revisions revisions-IsReversible))
          h
