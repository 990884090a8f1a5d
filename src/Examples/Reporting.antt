-- ===== src/Examples/Reporting.antt =====
-- The theorems about the agent, applied to a daemon that is the list of its containers, and to a notation of
-- lists and numbers in strokes.
use Prim.Native.Char.{code}
use my_frist_reop.Prelude.{
  ◌+◌, ◌==◌, if◌then◌else◌, subst, ℕ, zero, suc, ◌≡◌, refl, ap, sym, String, true, false, Option,
  none, some, List, [], ◌∷◌, ◌∙◌, map, Memᴰ, All, All-of_Memᴰ, elem, arith,
}
use my_frist_reop.Data.Cluster.{GpuDevice, GpuStatus, ContainerStatus}
use my_frist_reop.Models.Requirement.{is_empty, ascii_space}
use my_frist_reop.Agent.{
  RunRequest, RunArgs, Container, Docker, DockerError, Texts, Outcome, Started, run_args,
  run_container, list_managed_containers, container_info,
}
use my_frist_reop.Agent.Gpus.{
  GpuElement, parse_int, parse_processes, gpu_info, gpu_infos, collect_gpu_info,
}
use my_frist_reop.Agent.Reporter.{ReporterConfig, Observed, collect_resource_info, build_payload}
use my_frist_reop.Nodes.{RunningContainerInfo, HeartbeatPayload, Draws, is_on, is_active}
use my_frist_reop.Nodes.Heartbeat.{handle_heartbeat}
use my_frist_reop.Examples.{cluster}
use my_frist_reop.Agent.Tracking.{
  TextsLaws, DockerLaws, IsEntryFor, run_container-listed, run_container-allocated,
}

abbrev container_of : RunArgs → Container
container_of args = record {
  id = 70;
  labels = args.labels;
  tags = [];
  short_id = "70";
  status = ContainerStatus.created;
  started_at = none;
}

abbrev daemon : Docker (List Container)
daemon = record {
  run = λ args d. (Outcome.returned (container_of args), container_of args ∷ d);
  get = λ id d. Outcome.raised DockerError.not_found;
  stop = λ c d. (Outcome.returned tt, d);
  remove = λ c d. (Outcome.returned tt, []);
  logs = λ c tail d. Outcome.returned "";
  list_all = λ label d. Outcome.returned d;
}

-- A number as that many strokes, and a list as its numbers, each with a comma, and a full stop.
abbrev strokes : ℕ → String → String
strokes zero s = String.◌∷◌ "," s
strokes (suc n) s = String.◌∷◌ "a" (strokes n s)

abbrev write : List ℕ → String
write [] = "."
write (n ∷ ns) = strokes n (write ns)

abbrev longer : Option (List ℕ) → Option (List ℕ)
longer none = none
longer (some []) = none
longer (some (n ∷ ns)) = some (suc n ∷ ns)

abbrev with_zero : Option (List ℕ) → Option (List ℕ)
with_zero none = none
with_zero (some ns) = some (0 ∷ ns)

abbrev read : String → Option (List ℕ)
read String.[] = none
read (String.◌∷◌ c s) =
    let rest = read s in
    if code c == 97 then longer rest else if code c == 44 then with_zero rest else some []

abbrev read_one : String → ℕ
read_one String.[] = 0
read_one (String.◌∷◌ c s) = let rest = read_one s in if code c == 97 then suc rest else 0

read-strokes :
    (n : ℕ) (s : String) (ns : List ℕ) → read s ≡ some ns → read (strokes n s) ≡ some (n ∷ ns)
read-strokes zero s ns e = rw e refl
read-strokes (suc n) s ns e = rw (read-strokes n s ns e) refl

read-write : (ns : List ℕ) → read (write ns) ≡ some ns
read-write [] = refl
read-write (n ∷ ns) = read-strokes n (write ns) ns (read-write ns)

read_one-strokes : (n : ℕ) → read_one (strokes n "") ≡ n
read_one-strokes zero = refl
read_one-strokes (suc n) = rw (read_one-strokes n) refl

strokes_not_empty : (n : ℕ) (s : String) → is_empty (strokes n s) ≡ false
strokes_not_empty zero s = refl
strokes_not_empty (suc n) s = refl

write_not_empty : (ns : List ℕ) → is_empty (write ns) ≡ false
write_not_empty [] = refl
write_not_empty (n ∷ ns) = strokes_not_empty n (write ns)

abbrev in_strokes : Texts
in_strokes = record {
  dumps = write;
  loads = read;
  id_text = λ n. strokes n "";
  id_of = read_one;
  index_text = λ n. strokes n "";
}

strokes-laws : TextsLaws in_strokes
strokes-laws = record {
  loads-dumps = read-write;
  dumps_not_empty = write_not_empty;
  id_of-id_text = read_one-strokes;
}

-- Each container has the status that `f` gives to it.
abbrev with_status : (Container → ContainerStatus) → Container → Container
with_status f c = record c { status = f c }

-- The daemon goes on: each container has some status, and none is gone.
abbrev KeepsAll : List Container → List Container → Type 0
KeepsAll d later = (f : Container → ContainerStatus) × (later ≡ map (with_status f) d)

daemon-laws : DockerLaws daemon KeepsAll
daemon-laws = record {
  run-listed = λ args d c d' later cs ran managed (f, e) listed.
      let same : container_of args ≡ c = ground arith in
      let rows : later ≡ cs = ground arith in
      let there : container_of args ∷ d ≡ d' = ap (λ p. p.1) ran in
      (
        with_status f (container_of args),
        subst (λ xs. Memᴰ (with_status f (container_of args)) xs)
            (ap (map (with_status f)) there ∙ sym e ∙ rows) (Memᴰ.head refl),
        ap (λ (x : Container). x.id) same,
        λ key value h. h,
      );
}

abbrev request : RunRequest
request = record {
  task_id = 7;
  image = "image";
  gpus = 0 ∷ [];
  command = "train";
  volumes = [];
  env = [];
  ports = [];
}

-- The answer shows the container as it was created, and the next list shows it running.
abbrev answered : Started
answered = record { container_id = 70; status = ContainerStatus.created }

abbrev after : List Container
after = container_of (run_args in_strokes request) ∷ []

abbrev later : List Container
later = map (with_status (λ c. ContainerStatus.running)) after

abbrev listed : List RunningContainerInfo
listed = map (container_info in_strokes) later

run_container-listed_example :
    (info : RunningContainerInfo) × Memᴰ info listed × IsEntryFor request answered info
unfolding run_container run_args list_managed_containers
run_container-listed_example =
    run_container-listed daemon-laws strokes-laws request [] answered after later listed refl
      (λ c. ContainerStatus.running, refl) refl

listed_active : (info : RunningContainerInfo) → Memᴰ info listed → is_active info.status ≡ true
unfolding container_info
listed_active info m =
    All-of_Memᴰ (λ (x : RunningContainerInfo). is_active x.status ≡ true) info m (refl, tt)

abbrev config : ReporterConfig
config = record {
  control_plane = "http://control";
  node_name = "gpu-host";
  node_ip = 101;
  agent_port = 9000;
}

-- One GPU, of which nothing is known but its name.
abbrev bare_gpu : GpuElement
bare_gpu = record {
  product_name = some "A100";
  uuid = none;
  fb_memory_usage = none;
  utilization = none;
  temperature = none;
  power_readings = none;
  processes = none;
}

abbrev observed : Observed
observed = record {
  now = 5;
  gpus = some (bare_gpu ∷ []);
  measured = record { cpu_percent = 1; memory_total = 1048576; memory_percent = 2 };
}

abbrev payload : HeartbeatPayload
payload = record {
  timestamp = some 5;
  hostname = "gpu-host";
  ip = 101;
  agent_port = 9000;
  gpus =
      record {
        index = 0;
        model = "A100";
        uuid = none;
        memory_total = 0;
        memory_used = 0;
        memory_free = 0;
        utilization_gpu = 0;
        utilization_memory = 0;
        temperature = 0;
        power_usage = 0;
        power_limit = 0;
        processes = [];
      }
      ∷ [];
  cpu_percent = 1;
  memory_percent = 2;
  memory_total = 1;
  running_containers = listed;
}

abbrev pub draws : Draws
draws = record { node = 90; gpu = λ i. 91 + i; container = λ c. 95 }

run_container-allocated_example :
    All
      (λ (g : GpuDevice).
        is_on 1 g ≡ true → elem g.gpu_index (0 ∷ []) ≡ true → g.status ≡ GpuStatus.allocated)
      (handle_heartbeat 6 draws payload (cluster [])).1.gpus
unfolding run_container run_args build_payload list_managed_containers collect_gpu_info gpu_infos
    gpu_info parse_int parse_processes collect_resource_info handle_heartbeat
run_container-allocated_example =
    run_container-allocated daemon in_strokes ascii_space (λ s. none) daemon-laws strokes-laws
      request [] answered after later listed config observed payload 6 draws (cluster []) refl
      (λ c. ContainerStatus.running, refl) refl (λ info m same. listed_active info m) refl
