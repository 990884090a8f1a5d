-- ===== src/Models/Launched.antt =====
-- How one launch of `deploy_model` of backend/app/services/model_service.py ends.
use my_frist_reop.Prelude.{
  ℕ, suc, ◌≡◌, refl, sym, ap, ◌∙◌, subst, inl, inr, ◌⊎◌, String, Bool, true, ◌||◌, Option, List, [],
  ◌∷◌, ◌++◌, update_where, All, Bool-cases, Option-cases, arith,
}
use my_frist_reop.Data.{Db}
use my_frist_reop.Data.Cluster.{GpuDevice, GpuStatus}
use my_frist_reop.Allocator.{mark_allocated}
use my_frist_reop.Allocator.Keys.{AreDistinct}
use my_frist_reop.Models.{
  Model, ModelInstance, InstanceStatus, ModelDb, ModelError, Placement, model_keyed, instance_keyed,
}
use my_frist_reop.Models.Placing.{IsPlaced}
use my_frist_reop.Models.Marks.{mark-eq, held-free}
use my_frist_reop.Models.Deploy.{
  DeployEnv, RunReply, container_port_of, run_request, agent_of, new_instance, set_running,
  undo_launch, wait_for_health, await_instance, launch_model_instance, cleanup_partial_instances,
}
use my_frist_reop.Models.Undo.{
  is_of, is_of_one, allocate_row, update_where-join, is_of_one-set_status, IsUnused, IsInjective,
  IsFreshFrom, with_rows, get-unused, modify-unused, IsExtended, IsExtended-nil, cleanup-IsExtended,
}

append_assoc {ℓ} : {A : Type ℓ} (xs ys zs : List A) → (xs ++ ys) ++ zs ≡ xs ++ (ys ++ zs)
append_assoc [] ys zs = refl
append_assoc (x ∷ xs) ys zs = rw (append_assoc xs ys zs)

pub IsFreshFrom-added :
    (draw : ℕ → ℕ) (n : ℕ) (xs : List ModelInstance) (i : ModelInstance)
    → IsInjective draw
    → IsFreshFrom draw n xs
    → i.id ≡ draw n
    → IsFreshFrom draw (suc n) (xs ++ i ∷ [])
IsFreshFrom-added draw n xs i inj fresh e k le = go xs (fresh k (omega arith))
  where
    go : (ys : List ModelInstance) → IsUnused (draw k) ys → IsUnused (draw k) (ys ++ i ∷ [])
    go [] h = ((λ same. absurd (omega (arith, inj n k (sym e ∙ same)))), tt)
    go (y ∷ ys) h = (h.0, go ys h.1)

-- A test that the mark does not change, and that no idle row passed, was passed by no idle row before.
free-before :
    (p q : GpuDevice → Bool) (gs : List GpuDevice)
    → ((g : GpuDevice) → q (allocate_row g) ≡ q g)
    → All (λ g. q g ≡ true → g.status ≡ GpuStatus.idle) (update_where p allocate_row gs)
    → All (λ g. q g ≡ true → g.status ≡ GpuStatus.idle) gs
free-before p q [] same h = tt
free-before p q (g ∷ gs) same h = elim (Bool-cases (p g)) [
  | inl e ↦ (
    (λ k. absurd (let status = (rw e at h.0) (same g ∙ k) in ground arith)),
    free-before p q gs same h.1,
  )
  | inr e ↦ ((rw e at h.0), free-before p q gs same h.1)
]

free-either :
    (p q : GpuDevice → Bool) (gs : List GpuDevice)
    → All (λ g. p g ≡ true → g.status ≡ GpuStatus.idle) gs
    → All (λ g. q g ≡ true → g.status ≡ GpuStatus.idle) gs
    → All (λ g. p g || q g ≡ true → g.status ≡ GpuStatus.idle) gs
free-either p q [] h k = tt
free-either p q (g ∷ gs) h k = ((λ e. ground (arith, h.0, k.0)), free-either p q gs h.1 k.1)

-- One instance, and more of them after it.
module _ (draw : ℕ → ℕ) (n : ℕ) (m : ModelDb) (i : ModelInstance) (is : List ModelInstance)
    (m' : ModelDb) where
  abbrev pub one_row : ModelDb
  one_row = with_rows (update_where (is_of i) allocate_row m.db.gpus) (m.instances ++ i ∷ []) m

  pub IsExtended-cons :
      i.id ≡ draw n
      → All (λ g. is_of i g ≡ true → g.status ≡ GpuStatus.idle) m.db.gpus
      → IsExtended draw (suc n) one_row is m'
      → IsExtended draw n m (i ∷ is) m'
  IsExtended-cons e free ext = record {
    tables =
        ext.tables
        ∙ ap (λ gs. with_rows gs ((m.instances ++ i ∷ []) ++ is) m)
            (update_where-join allocate_row (λ g. refl) (is_of i) (is_of_one is) m.db.gpus
              (λ g. is_of_one-set_status is GpuStatus.allocated g))
        ∙ ap (λ rows. with_rows (update_where (is_of_one (i ∷ is)) allocate_row m.db.gpus) rows m)
            (append_assoc m.instances (i ∷ []) is);
    drawn = (e, ext.drawn);
    free = free-either (is_of i) (is_of_one is) m.db.gpus free (
        free-before (is_of i) (is_of_one is) m.db.gpus
          (λ g. is_of_one-set_status is GpuStatus.allocated g) ext.free);
  }

-- How the launch of an instance on the placed GPUs of `m` can end: rolled back, or with one more row.
abbrev pub IsLaunched :
    (ℕ → ℕ) → ℕ → ModelDb → (ModelError × ModelDb) ⊎ (ModelInstance × ModelDb) → Type 0
IsLaunched draw n m (inl (e, m')) = m' ≡ m
IsLaunched draw n m (inr (i, m')) =
    ((i.id ≡ draw n) × (i.status ≡ InstanceStatus.running))
    × (All (λ g. is_of i g ≡ true → g.status ≡ GpuStatus.idle) m.db.gpus
        × (m'
            ≡ with_rows (update_where (is_of i) allocate_row m.db.gpus) (m.instances ++ i ∷ []) m))

module _ (env : DeployEnv) (inj : IsInjective env.draw) where
  undo_launch-eq :
      (n : ℕ) (m : ModelDb) (i : ModelInstance) (p : Placement)
      → IsFreshFrom env.draw n m.instances
      → i.id ≡ env.draw n
      → All (λ g. is_of i g ≡ true → g.status ≡ GpuStatus.idle) m.db.gpus
      → undo_launch i p (one_row env.draw n m i [] m) ≡ m
  unfolding undo_launch cleanup_partial_instances
  undo_launch-eq n m i p fresh e free =
      let added = one_row env.draw n m i [] m in
      let unused : IsUnused i.id m.instances =
        subst (λ id. IsUnused id m.instances) (sym e) (fresh n (omega arith)) in
      let found = get-unused i.id m.instances i [] unused refl in
      let ext = IsExtended-cons env.draw n m i [] added e free (IsExtended-nil _ _ added) in
      let k = cleanup-IsExtended env.draw n m (i ∷ []) added inj fresh ext in
      rw (found, undo_launch) (rw (found, cleanup_partial_instances) at k)

  await_instance-IsLaunched :
      (n : ℕ) (m : ModelDb) (i : ModelInstance) (p : Placement)
      → IsFreshFrom env.draw n m.instances
      → i.id ≡ env.draw n
      → All (λ g. is_of i g ≡ true → g.status ≡ GpuStatus.idle) m.db.gpus
      → IsLaunched env.draw n m (
          await_instance env i p
            (with_rows (update_where (is_of i) allocate_row m.db.gpus) m.instances m))
  unfolding await_instance is_of
  await_instance-IsLaunched n m i p fresh e free =
      let unused : IsUnused i.id m.instances =
        subst (λ id. IsUnused id m.instances) (sym e) (fresh n (omega arith)) in
      let set = modify-unused i.id set_running m.instances i unused refl in
      elim (Option-cases (wait_for_health env i)) [
        | inl k ↦
            rw (k, await_instance)
              ((
                (e, refl),
                (
                  free,
                  ap (λ rows. with_rows (update_where (is_of i) allocate_row m.db.gpus) rows m) set,
                ),
              ))
        | inr (x, k) ↦ rw (k, await_instance) (undo_launch-eq n m i p fresh e free)
      ]

  pub launch-IsLaunched :
      (model : Model) (p : Placement) (n k : ℕ) (hint : Option String) (m : ModelDb)
      → AreDistinct m.db.gpus
      → IsPlaced env.lower k hint m p
      → IsFreshFrom env.draw n m.instances
      → IsLaunched env.draw n m
          (launch_model_instance env model p n m (record m { db = mark_allocated p.gpus m.db }))
  unfolding launch_model_instance is_of
  launch-IsLaunched model p n k hint m distinct placed fresh =
      elim (Option-cases (container_port_of env.default_container_port model.config_json)) [
        | inl e ↦ rw (e, launch_model_instance) refl
        | inr (port, e) ↦
            rw (e, launch_model_instance)
              (go (env.run (agent_of env.default_agent_port p) (run_request model p n port)))
      ]
    where
      go :
          (reply : RunReply)
          → IsLaunched env.draw n m (elim reply [
            | RunReply.refused ↦ inl (ModelError.type_error, m)
            | RunReply.unreachable ↦ inl (ModelError.http_error, m)
            | RunReply.started c ↦
                await_instance env
                  (new_instance env model p n c)
                  p
                  (record m { db = mark_allocated p.gpus m.db })
          ])
      go RunReply.refused = refl
      go RunReply.unreachable = refl
      go (RunReply.started c) =
          subst
            (λ (db : Db).
              IsLaunched env.draw n m
                (await_instance env (new_instance env model p n c) p (record m { db = db })))
            (sym (mark-eq distinct placed))
            (await_instance-IsLaunched n m (new_instance env model p n c) p fresh refl
              (held-free distinct placed))
