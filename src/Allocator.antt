-- ===== src/Allocator.antt =====
-- scheduler/gpu_allocator.py: choosing a node and its GPUs for a task, and giving them back.
pub mod Candidates
pub mod Choice
pub mod Keys
pub mod Booking
use text.Mathlib.Text.{◌==◌ as str_eq, find?}
use my_frist_reop.Prelude.{
  ℕ, ◌+◌, String, Bool, true, false, not, ◌&&◌, ◌||◌, Option, none, some, List, [], ◌∷◌, map,
  length, take, select, elem, sum, sort_by, get, update_where, ltb, leb, ◌==◌, is_some, or_else,
  if◌then◌else◌,
}
use mathlib.Core.Option
use my_frist_reop.Prelude.Int.{ℤ, pos, pos_part, leb_ℤ}
use my_frist_reop.Data.{Db}
use my_frist_reop.Data.Cluster.{Node, GpuDevice, GpuStatus, is_idle}
use my_frist_reop.Data.Work.{Task, TaskConfig, Entry, task_keyed}

-- `Allocation`
pub record Allocation : Type 0 where
  pub node_id : ℕ
  pub node_ip : ℕ
  pub agent_port : ℕ
  pub gpu_indices : List ℕ

-- `int(config.get("gpu_count", 1) or 0)`
abbrev pub gpu_count_of : Entry ℤ → ℤ
gpu_count_of Entry.missing = pos 1
gpu_count_of Entry.null = pos 0
gpu_count_of (Entry.value n) = n

-- The three values read from `task.config_json or {}`.
abbrev pub required_gpu_count : Option TaskConfig → ℤ
required_gpu_count none = pos 1
required_gpu_count (some c) = gpu_count_of c.gpu_count

abbrev pub required_model : Option TaskConfig → Option String
required_model none = none
required_model (some c) = c.gpu_model

abbrev pub min_memory_mb : Option TaskConfig → Option ℕ
min_memory_mb none = none
min_memory_mb (some c) = c.min_memory_mb

-- The first test of `_matches_requirements`: an empty required model asks for nothing.
unfoldable pub model_fits : Option String → GpuDevice → Bool
model_fits none gpu = true
model_fits (some m) gpu = if str_eq m "" then true else is_some (find? (or_else gpu.gpu_model "") m)

-- The second test: a required memory of 0 asks for nothing.
unfoldable pub memory_fits : Option ℕ → GpuDevice → Bool
memory_fits none gpu = true
memory_fits (some m) gpu = if m == 0 then true else not (ltb (or_else gpu.memory_total_mb 0) m)

-- `GpuAllocator._matches_requirements`
unfoldable pub matches_requirements : Option TaskConfig → GpuDevice → Bool
matches_requirements config gpu =
    model_fits (required_model config) gpu && memory_fits (min_memory_mb config) gpu

-- The query for a node's idle GPUs, `ORDER BY gpu_index`.
abbrev pub is_idle_on : Node → GpuDevice → Bool
is_idle_on node gpu = gpu.node_id == node.id && is_idle gpu.status

abbrev pub index_before : GpuDevice → GpuDevice → Bool
index_before g h = ltb g.gpu_index h.gpu_index

unfoldable pub available_gpus : Db → Node → List GpuDevice
available_gpus db node = sort_by index_before (select (is_idle_on node) db.gpus)

unfoldable pub filtered_gpus : Db → Option TaskConfig → Node → List GpuDevice
filtered_gpus db config node = select (matches_requirements config) (available_gpus db node)

pub record Candidate : Type 0 where
  pub node : Node
  pub gpus : List GpuDevice

-- The loop that collects the candidates, in the order of the nodes.
unfoldable pub candidates : Db → Option TaskConfig → ℕ → List Node → List Candidate
candidates db config n [] = []
candidates db config n (node ∷ nodes) =
    let rest = candidates db config n nodes in
    let gpus = filtered_gpus db config node in
    if leb n (length gpus) then record { node = node; gpus = gpus } ∷ rest else rest

-- The order of the sort key `(-len(gpus), mean utilization of the first n, node.id)`; the means
-- have the same denominator, so their sums are compared.
unfoldable pub load : ℕ → Candidate → ℕ
load n c = sum (map (λ (g : GpuDevice). g.utilization) (take n c.gpus))

unfoldable pub candidate_before : ℕ → Candidate → Candidate → Bool
candidate_before n c d =
    if length d.gpus == length c.gpus
    then (if load n c == load n d then ltb c.node.id d.node.id else ltb (load n c) (load n d))
    else ltb (length d.gpus) (length c.gpus)

-- `len(list(...))` over the idle GPUs of a node, and the score of a node for a task without GPUs.
unfoldable pub idle_gpu_count : Db → Node → ℕ
idle_gpu_count db node = length (select (is_idle_on node) db.gpus)

unfoldable pub node_before : Db → Node → Node → Bool
node_before db a b =
    if idle_gpu_count db b == idle_gpu_count db a
    then ltb a.id b.id
    else ltb (idle_gpu_count db b) (idle_gpu_count db a)

-- `GpuAllocator._select_node_for_cpu_task`
unfoldable pub select_node_for_cpu_task : Db → List Node → Option Node
select_node_for_cpu_task db nodes = elim (sort_by (node_before db) nodes) [
  | [] ↦ none
  | node ∷ rest ↦ some node
]

abbrev pub allocation_on : Node → List ℕ → Allocation
allocation_on node indices = record {
  node_id = node.id;
  node_ip = node.ip;
  agent_port = node.agent_port;
  gpu_indices = indices;
}

abbrev pub set_status : GpuStatus → GpuDevice → GpuDevice
set_status s gpu = record gpu { status = s }

abbrev pub ids_of : List GpuDevice → List ℕ
ids_of = map (λ (g : GpuDevice). g.id)

abbrev pub indices_of : List GpuDevice → List ℕ
indices_of = map (λ (g : GpuDevice). g.gpu_index)

-- `for gpu in assigned: gpu.status = "allocated"`, on the rows of these objects.
unfoldable pub mark_allocated : List GpuDevice → Db → Db
mark_allocated assigned db = record db {
  gpus = update_where (λ g. elem g.id (ids_of assigned)) (set_status GpuStatus.allocated) db.gpus;
}

abbrev take_first : ℕ → Db → List Candidate → Option Allocation × Db
take_first n db [] = (none, db)
take_first n db (c ∷ rest) =
    let assigned = take n c.gpus in
    (some (allocation_on c.node (indices_of assigned)), mark_allocated assigned db)

-- The part of `allocate` for a task that wants `n` GPUs.
unfoldable pub allocate_gpus : Db → Option TaskConfig → ℕ → List Node → Option Allocation × Db
allocate_gpus db config n nodes =
    take_first n db (sort_by (candidate_before n) (candidates db config n nodes))

-- The part for a task that wants none.
unfoldable pub allocate_cpu : Db → List Node → Option Allocation × Db
allocate_cpu db nodes =
    (Option.map (λ node. allocation_on node []) (select_node_for_cpu_task db nodes), db)

-- `GpuAllocator.allocate`
unfoldable pub allocate : Db → Task → List Node → Option Allocation × Db
unfolding allocate_gpus allocate_cpu
allocate db task nodes =
    let n = required_gpu_count task.config_json in
    if leb_ℤ n (pos 0)
    then allocate_cpu db nodes
    else allocate_gpus db task.config_json (pos_part n) nodes

-- `GpuDevice.node_id == allocation.node_id` and `gpu_index.in_(allocation.gpu_indices)`
abbrev pub is_held_by : ℕ → List ℕ → GpuDevice → Bool
is_held_by node_id indices gpu = gpu.node_id == node_id && elem gpu.gpu_index indices

-- `GpuAllocator.release`; with no indices the test holds of no row.
unfoldable pub release : Db → Allocation → Db
release db a = elim a.gpu_indices [
  | [] ↦ db
  | i ∷ is ↦ record db {
    gpus = update_where (is_held_by a.node_id (i ∷ is)) (set_status GpuStatus.idle) db.gpus;
  }
]

abbrev pub release_held : Db → Option ℕ → Option (List ℕ) → Db
release_held db (some node_id) (some indices) =
    if node_id == 0
    then db
    else release db
        (record { node_id = node_id; node_ip = 0; agent_port = 0; gpu_indices = indices })
release_held db _ _ = db

-- `GpuAllocator.release_by_task`
unfoldable pub release_by_task : Db → ℕ → Db
unfolding release
release_by_task db task_id = elim (get task_id db.tasks) [
  | none ↦ db
  | some task ↦ release_held db task.assigned_node_id task.assigned_gpu_indices
]
