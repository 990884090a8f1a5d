-- ===== src/Models/Deployed.antt =====
-- How `deploy_model` of backend/app/services/model_service.py ends.
use my_frist_reop.Prelude.{
  ℕ, zero, suc, ◌≡◌, refl, sym, ap, ◌∙◌, subst, inl, inr, ◌⊎◌, String, Option, none, some, List, [],
  ◌∷◌, ◌++◌, length, max, update_where, get, key-get, modify, All, Bool-cases, Option-cases, arith,
}
use my_frist_reop.Prelude.Int.{pos_part}
use my_frist_reop.Data.{Db}
use my_frist_reop.Allocator.{mark_allocated}
use my_frist_reop.Allocator.Keys.{AreDistinct, set_status-KeepsPlace, update_where-AreDistinct}
use my_frist_reop.Models.{
  Model, ModelStatus, ModelInstance, InstanceStatus, ModelDb, ModelError, Placement, model_keyed,
  instance_keyed,
}
use my_frist_reop.Models.Requirement.{parse_gpu_requirement}
use my_frist_reop.Models.Placing.{IsPlaced, allocate_for_model-IsPlaced}
use my_frist_reop.Models.Deploy.{
  DeployEnv, launch_model_instance, Launches, place_replica, launch_replicas, set_model_status,
  may_deploy, and_created, finish_deploy, deploy_model,
}
use my_frist_reop.Models.Launched.{
  one_row, IsLaunched, IsFreshFrom-added, IsExtended-cons, launch-IsLaunched,
}
use my_frist_reop.Models.Undo.{
  is_of, is_of_one, allocate_row, IsInjective, IsFreshFrom, with_rows, IsExtended, IsExtended-nil,
}

module _ (env : DeployEnv) (inj : IsInjective env.draw) where
  -- How the loop ends: the tables are extended by the created instances, all running, and without an
  -- exception there are as many as asked for.
  abbrev pub AreLaunched : ℕ → ModelDb → ℕ → Launches → Type 0
  AreLaunched n m k l =
      IsExtended env.draw n m l.created l.tables
      × (All (λ i. i.status ≡ InstanceStatus.running) l.created
          × (l.error ≡ none → length l.created ≡ k))

  none_launched :
      (n : ℕ) (m : ModelDb) (k : ℕ) (e : ModelError)
      → AreLaunched n m k (record { error = some e; created = []; tables = m })
  none_launched n m k e = (IsExtended-nil env.draw n m, (tt, λ x. absurd (ground arith)))

  place_replica-IsPlaced :
      (model : Model) (m : ModelDb) (p : Placement) (db : Db)
      → place_replica env model m ≡ some (p, db)
      → (k : ℕ) × (hint : Option String) × IsPlaced env.lower k hint m p
        × (db ≡ mark_allocated p.gpus m.db)
  unfolding place_replica
  place_replica-IsPlaced model m p db e =
      let r = parse_gpu_requirement env.is_space env.digit model.gpu_requirement in
      let (placed, marked) = allocate_for_model-IsPlaced env.lower r.0 r.1 m p db e in
      (r.0, r.1, placed, marked)

  -- The loop on one more replica, when the rest of it is known to end as it should.
  module _ (model : Model) (k n : ℕ) (m : ModelDb) (distinct : AreDistinct m.db.gpus)
      (fresh : IsFreshFrom env.draw n m.instances)
      (more : (m' : ModelDb)
        → AreDistinct m'.db.gpus
        → IsFreshFrom env.draw (suc n) m'.instances
        → AreLaunched (suc n) m' k (launch_replicas env model k (suc n) m')) where
    after_launch :
        (r : (ModelError × ModelDb) ⊎ (ModelInstance × ModelDb))
        → IsLaunched env.draw n m r
        → AreLaunched n m (suc k) (elim r [
          | inl (e, m') ↦ record { error = some e; created = []; tables = m' }
          | inr (i, m') ↦ and_created i (launch_replicas env model k (suc n) m')
        ])
    after_launch (inl (e, m')) same =
        subst
          (λ (x : ModelDb).
            AreLaunched n m (suc k) (record { error = some e; created = []; tables = x }))
          (sym same) (none_launched n m (suc k) e)
    after_launch (inr (i, m')) ((drawn, runs), (free, same)) =
        let one = one_row env.draw n m i [] m in
        let (ext, (all, count)) =
          more one
            (update_where-AreDistinct (is_of i) allocate_row (set_status-KeepsPlace _) _ distinct)
            (IsFreshFrom-added env.draw n m.instances i inj fresh drawn) in
        subst
          (λ (x : ModelDb).
            AreLaunched n m (suc k) (and_created i (launch_replicas env model k (suc n) x)))
          (sym same)
          (IsExtended-cons env.draw n m i _ _ drawn free ext, ((runs, all), λ e. ap suc (count e)))

    one_more : AreLaunched n m (suc k) (launch_replicas env model (suc k) n m)
    unfolding launch_replicas
    one_more = go (place_replica env model m) refl
      where
        go :
            (o : Option (Placement × Db))
            → place_replica env model m ≡ o
            → AreLaunched n m (suc k) (launch_replicas env model (suc k) n m)
        go none e = rw (e, launch_replicas) (none_launched n m (suc k) ModelError.type_error)
        go (some (p, db)) e =
            let (j, hint, placed, marked) = place_replica-IsPlaced model m p db e in
            rw (e, launch_replicas)
              (after_launch _ (
                subst
                  (λ (x : Db).
                    IsLaunched env.draw n m
                      (launch_model_instance env model p n m (record m { db = x })))
                  (sym marked)
                  (launch-IsLaunched env inj model p n j hint m distinct placed fresh)))

  pub launch_replicas-AreLaunched :
      (model : Model) (k n : ℕ) (m : ModelDb)
      → AreDistinct m.db.gpus
      → IsFreshFrom env.draw n m.instances
      → AreLaunched n m k (launch_replicas env model k n m)
  unfolding launch_replicas
  launch_replicas-AreLaunched model zero n m distinct fresh =
      (IsExtended-nil env.draw n m, (tt, λ e. refl))
  launch_replicas-AreLaunched model (suc k) n m distinct fresh =
      one_more model k n m distinct fresh (launch_replicas-AreLaunched model k (suc n))

modify_twice :
    (s t : ModelStatus) (id : ℕ) (m : ModelDb)
    → set_model_status t id (set_model_status s id m) ≡ set_model_status t id m
modify_twice s t id m = ap (λ xs. record m { models = xs }) (go m.models)
  where
    go :
        (xs : List Model)
        → modify id
            (λ (x : Model). record x { status = t })
            (modify id (λ (x : Model). record x { status = s }) xs)
          ≡ modify id (λ (x : Model). record x { status = t }) xs
    go [] = refl
    go (x ∷ xs) = ground (arith, go xs)

-- What a deployment that raises leaves: the tables as they were, but for the model's status.
abbrev pub IsUndone : ℕ → ModelDb → (ModelError ⊎ List ModelInstance) × ModelDb → Type 0
IsUndone id m (inl e, m') = (m' ≡ m) ⊎ (m' ≡ set_model_status ModelStatus.error id m)
IsUndone id m (inr is, m') = Unit

-- What one that returns has done.
abbrev pub IsServing :
    (ℕ → ℕ) → Model → ModelDb → (ModelError ⊎ List ModelInstance) × ModelDb → Type 0
IsServing draw x m (inl e, m') = Unit
IsServing draw x m (inr is, m') =
    (length is ≡ max (pos_part x.replicas) 1)
    × (All (λ i. i.status ≡ InstanceStatus.running) is
        × IsExtended draw 0 (set_model_status ModelStatus.online x.id m) is m')

module _ (env : DeployEnv) (inj : IsInjective env.draw) (id : ℕ) (m : ModelDb)
    (distinct : AreDistinct m.db.gpus) (fresh : IsFreshFrom env.draw 0 m.instances) where
  finish-IsServing :
      (x : Model) (l : Launches)
      → x.id ≡ id
      → AreLaunched env inj 0
          (set_model_status ModelStatus.deploying id m)
          (max (pos_part x.replicas) 1)
          l
      → IsServing env.draw x m (finish_deploy id l)
  finish-IsServing x l same (ext, (all, count)) = elim (Option-cases l.error) [
    | inr (y, e) ↦ rw e tt
    | inl e ↦
        rw (e, same)
          ((
            count e,
            (
              all,
              record {
                tables =
                    ap (set_model_status ModelStatus.online id) ext.tables
                    ∙ ap
                        (with_rows (update_where (is_of_one l.created) allocate_row m.db.gpus)
                          (m.instances ++ l.created))
                        (modify_twice ModelStatus.deploying ModelStatus.online id m);
                drawn = ext.drawn;
                free = ext.free;
              },
            ),
          ))
  ]

  -- If GPU rows have distinct keys and the drawn ids are new, then a call of `deploy_model` that returns,
  -- for a model that is there, has created as many instances as the model has replicas, and at least one,
  -- all running and added after the others; the model is online, the GPUs of the instances were idle
  -- before and are allocated, and nothing else has changed.
  pub deploy_model-IsServing :
      (x : Model) → get id m.models ≡ some x → IsServing env.draw x m (deploy_model env id m)
  unfolding deploy_model
  deploy_model-IsServing x e = elim (Bool-cases (may_deploy x m)) [
    | inl k ↦
        rw (e, k, deploy_model)
          (finish-IsServing x _ (key-get id m.models x e) (
            launch_replicas-AreLaunched env inj x _ 0 (set_model_status ModelStatus.deploying id m)
              distinct fresh))
    | inr k ↦ rw (e, k, deploy_model) tt
  ]
