-- ===== src/Agent/Tracking.antt =====
-- What the agent (agent/agent.py, agent/container_tracker.py, agent/heartbeat.py) reports of a container that it
-- started, and what the control plane makes of it.
use Prim.Native.Char.{Char}
use my_frist_reop.Prelude.{
  ℕ, ◌≡◌, refl, sym, ap, ◌∙◌, subst, String, Bool, true, false, Option, none, some, List, map, Memᴰ,
  All, All-weaken, elem, arith,
}
use my_frist_reop.Data.{Db}
use my_frist_reop.Data.Cluster.{GpuDevice, GpuStatus}
use my_frist_reop.Models.Requirement.{is_empty}
use my_frist_reop.Nodes.{HeartbeatPayload, RunningContainerInfo, GpuInfo, Draws, is_active, is_on}
use my_frist_reop.Nodes.Heartbeat.{handle_heartbeat}
use my_frist_reop.Nodes.Statuses.{is_active-cases}
use my_frist_reop.Nodes.Reported.{IsUpToDate, handle_heartbeat-gpus}
use my_frist_reop.Agent.{
  RunRequest, RunArgs, Container, Docker, Texts, Outcome, Reply, Started, label_of, labels_for,
  run_args, parse_gpu_indices, container_info, list_managed_containers, run_container,
}
use my_frist_reop.Agent.Gpus.{collect_gpu_info}
use my_frist_reop.Agent.Reporter.{ReporterConfig, Observed, build_payload}

-- What the code relies on: JSON of a list of numbers is a text that is not empty and is read back, and so is
-- an identifier.
pub record TextsLaws (texts : Texts) : Type 0 where
  pub loads-dumps : (xs : List ℕ) → texts.loads (texts.dumps xs) ≡ some xs
  pub dumps_not_empty : (xs : List ℕ) → is_empty (texts.dumps xs) ≡ false
  pub id_of-id_text : (n : ℕ) → texts.id_of (texts.id_text n) ≡ n

-- `KeepsAll d d'`: on the way from the state d of the daemon to d', containers may have started, changed their
-- status and exited, but none was removed. A list of all containers by a label, made from the state right after
-- a start or from such a later one, has the container with its key and the labels that it was given (and those
-- of its image); its status and its times are read again, so nothing is said of them.
pub record DockerLaws {State : Type 0} (docker : Docker State) (KeepsAll : State → State → Type 0)
    : Type 0 where
  pub run-listed :
      (args : RunArgs) (d : State) (c : Container) (d' later : State) (cs : List Container)
      → docker.run args d ≡ (Outcome.returned c, d')
      → label_of "suit.managed" args.labels ≡ some "true"
      → KeepsAll d' later
      → docker.list_all "suit.managed=true" later ≡ Outcome.returned cs
      → (x : Container) × Memᴰ x cs
        × (x.id ≡ c.id)
        × ((key value : String)
            → label_of key args.labels ≡ some value
            → label_of key x.labels ≡ some value)

-- An entry of the list for a request and the answer to it. Its status is the container's at the time of the
-- list, which need not be the one of the answer.
pub record IsEntryFor (r : RunRequest) (s : Started) (info : RunningContainerInfo) : Type 0 where
  pub container_id : info.container_id ≡ s.container_id
  pub task_id : info.task_id ≡ some r.task_id
  pub gpu_indices : info.gpu_indices ≡ r.gpus

Memᴰ-map {ℓ κ} :
    {A : Type ℓ} {B : Type κ} (f : A → B) (x : A) {xs : List A} → Memᴰ x xs → Memᴰ (f x) (map f xs)
Memᴰ-map f x (Memᴰ.head e) = Memᴰ.head (ap f e)
Memᴰ-map f x (Memᴰ.tail m) = Memᴰ.tail (Memᴰ-map f x m)

module _ {State : Type 0} {docker : Docker State} {texts : Texts}
    {KeepsAll : State → State → Type 0} (laws : DockerLaws docker KeepsAll)
    (text_laws : TextsLaws texts) where
  container_info-IsEntryFor :
      (r : RunRequest) (s : Started) (c : Container)
      → c.id ≡ s.container_id
      → ((key value : String)
          → label_of key (labels_for texts r) ≡ some value
          → label_of key c.labels ≡ some value)
      → IsEntryFor r s (container_info texts c)
  unfolding container_info parse_gpu_indices
  container_info-IsEntryFor r s c e labels = record {
    container_id = e;
    task_id =
        rw (labels "suit.task_id" (texts.id_text r.task_id) refl)
          (ap some (text_laws.id_of-id_text r.task_id));
    gpu_indices =
        rw
          (
            labels "suit.gpu_indices" (texts.dumps r.gpus) refl,
            text_laws.dumps_not_empty r.gpus,
            text_laws.loads-dumps r.gpus,
          )
          refl;
  }

  started-row :
      (r : RunRequest) (d : State) (s : Started) (d' : State)
      → run_container texts docker true r d ≡ (Reply.ok s, d')
      → (c : Container) × (docker.run (run_args texts r) d ≡ (Outcome.returned c, d'))
        × (c.id ≡ s.container_id)
  unfolding run_container
  started-row r d s d' h = go (docker.run (run_args texts r) d) refl
    where
      go :
          (x : Outcome Container × State)
          → docker.run (run_args texts r) d ≡ x
          → (c : Container) × (docker.run (run_args texts r) d ≡ (Outcome.returned c, d'))
            × (c.id ≡ s.container_id)
      go (Outcome.raised e, d1) k = absurd (let x = (rw (k, run_container) at h) in ground arith)
      go (Outcome.returned c, d1) k =
          let x = (rw (k, run_container) at h) in
          (
            c,
            k ∙ ap (λ y. (Outcome.returned c, y)) (sym (ap (λ p. p.1) k) ∙ ap (λ p. p.1) x),
            ground arith,
          )

  -- If the daemon keeps listing a started container with its labels until it is removed, and the JSON library
  -- and the notation of identifiers read back what they write, then after a request to run that is answered,
  -- every list of managed containers that is returned, then or later while none has been removed, has an entry
  -- with the key of the container, and the task and the GPUs of the request.
  pub run_container-listed :
      (r : RunRequest) (d : State) (s : Started) (d' later : State)
      (infos : List RunningContainerInfo)
      → run_container texts docker true r d ≡ (Reply.ok s, d')
      → KeepsAll d' later
      → list_managed_containers texts docker later ≡ Outcome.returned infos
      → (info : RunningContainerInfo) × Memᴰ info infos × IsEntryFor r s info
  unfolding list_managed_containers run_args
  run_container-listed r d s d' later infos h keeps listed =
      go (docker.list_all "suit.managed=true" later) refl
    where
      go :
          (x : Outcome (List Container))
          → docker.list_all "suit.managed=true" later ≡ x
          → (info : RunningContainerInfo) × Memᴰ info infos × IsEntryFor r s info
      go (Outcome.raised e) k =
          absurd (let x = (rw (k, list_managed_containers) at listed) in ground arith)
      go (Outcome.returned cs) k =
          let (c, ran, id) = started-row r d s d' h in
          let (x, there, same, labels) =
            laws.run-listed (run_args texts r) d c d' later cs ran refl keeps k in
          let y = (rw (k, list_managed_containers) at listed) in
          let all : map (container_info texts) cs ≡ infos = ground arith in
          (
            container_info texts x,
            subst (λ is. Memᴰ (container_info texts x) is) all
                (Memᴰ-map (container_info texts) x there),
            container_info-IsEntryFor r s x (same ∙ id) labels,
          )

module _ {State : Type 0} (docker : Docker State) (texts : Texts) (is_space : Char → Bool)
    (to_int : String → Option ℕ) where
  -- The containers of a payload are those of the list.
  build_payload-containers :
      (config : ReporterConfig) (o : Observed) (d : State) (infos : List RunningContainerInfo)
      (p : HeartbeatPayload)
      → list_managed_containers texts docker d ≡ Outcome.returned infos
      → build_payload docker texts is_space to_int config o d ≡ some p
      → p.running_containers ≡ infos
  unfolding build_payload
  build_payload-containers config o d infos p e h =
      go (collect_gpu_info is_space to_int o.gpus) refl
    where
      go :
          (x : Option (List GpuInfo))
          → collect_gpu_info is_space to_int o.gpus ≡ x
          → p.running_containers ≡ infos
      go none k = absurd (let y = (rw (k, build_payload) at h) in ground arith)
      go (some gpus) k = let y = (rw (k, e, build_payload) at h) in ground arith

  -- Under the same conditions on the daemon and the libraries: after a request to run that is answered, if the
  -- agent lists its containers, then or later while none has been removed, the list shows the started one as
  -- active, and the agent builds its payload from that state, then whatever the control plane's tables hold, its
  -- `handle_heartbeat` leaves every GPU row of the agent's node with an index of the request allocated.
  pub run_container-allocated :
      {KeepsAll : State → State → Type 0} (laws : DockerLaws docker KeepsAll)
      (text_laws : TextsLaws texts) (r : RunRequest) (d : State) (s : Started) (d' later : State)
      (infos : List RunningContainerInfo) (config : ReporterConfig) (o : Observed)
      (p : HeartbeatPayload) (now : ℕ) (draws : Draws) (db : Db)
      → run_container texts docker true r d ≡ (Reply.ok s, d')
      → KeepsAll d' later
      → list_managed_containers texts docker later ≡ Outcome.returned infos
      → ((info : RunningContainerInfo)
          → Memᴰ info infos
          → info.container_id ≡ s.container_id
          → is_active info.status ≡ true)
      → build_payload docker texts is_space to_int config o later ≡ some p
      → let (node_id, db') = handle_heartbeat now draws p db in
        All
          (λ (g : GpuDevice).
            is_on node_id g ≡ true
            → elem g.gpu_index r.gpus ≡ true
            → g.status ≡ GpuStatus.allocated)
          db'.gpus
  run_container-allocated laws text_laws r d s d' later infos config o p now draws db ran keeps
        listed active built =
      let (info, there, entry) =
        run_container-listed laws text_laws r d s d' later infos ran keeps listed in
      let same = build_payload-containers config o later infos p listed built in
      let (node_id, db') = handle_heartbeat now draws p db in
      let state = (is_active-cases info.status).0 (active info there entry.container_id) in
      All-weaken (IsUpToDate now node_id p) _ db'.gpus
        (λ g up on held.
          let (i, _, shown) = up on in
          shown.allocated (
            info,
            subst (λ cs. Memᴰ info cs) (sym same) there,
            state,
            ap (λ n. elem n info.gpu_indices) shown.index
                ∙ ap (elem g.gpu_index) entry.gpu_indices
                ∙ held,
          ))
        ((handle_heartbeat-gpus now draws p db).0)
