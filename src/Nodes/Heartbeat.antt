-- ===== src/Nodes/Heartbeat.antt =====
-- `NodeService.handle_heartbeat` of backend/app/services/node_service.py as a whole, and its lists.
use my_frist_reop.Prelude.{
  ℕ, Bool, not, ◌&&◌, Option, none, some, List, [], ◌∷◌, ◌++◌, map, select, sort_by, modify, ltb,
  ◌==◌, if◌then◌else◌, get,
}
use my_frist_reop.Data.{Db}
use my_frist_reop.Data.Cluster.{Node, GpuDevice, RunningContainer, is_online, is_idle, node_keyed}
use my_frist_reop.Nodes.{
  HeartbeatPayload, Draws, find_by_ip, blank_node, report_node, active_gpu_indices, container_row,
  indices_on, absorb_gpus, seen_indices, is_kept,
}

-- The node of the payload's address, added if there is none: its key, and the tables.
abbrev ensured : ℕ → ℕ → ℕ → Option Node → Db → ℕ × Db
ensured now id ip none db = (id, record db { nodes = db.nodes ++ blank_node now id ip ∷ [] })
ensured now id ip (some node) db = (node.id, db)

unfoldable pub ensure_node : ℕ → Draws → HeartbeatPayload → Db → ℕ × Db
unfolding find_by_ip
ensure_node now draws p db = ensured now draws.node p.ip (find_by_ip p.ip db.nodes) db

abbrev container_of_other : ℕ → RunningContainer → Bool
container_of_other node_id c = not (c.node_id == node_id)

-- The containers of the node, replaced by the reported ones.
unfoldable pub replace_containers :
    ℕ → Draws → ℕ → HeartbeatPayload → List RunningContainer → List RunningContainer
replace_containers now draws node_id p cs =
    select (container_of_other node_id) cs
    ++ map (container_row now draws node_id) p.running_containers

-- The GPUs of the node after the loop and the deletion of the stale ones.
unfoldable pub replace_gpus : ℕ → Draws → ℕ → HeartbeatPayload → List GpuDevice → List GpuDevice
unfolding absorb_gpus active_gpu_indices
replace_gpus now draws node_id p gpus = select (is_kept node_id (seen_indices p)) (
    absorb_gpus now draws node_id (active_gpu_indices p.running_containers)
      (indices_on node_id gpus) p.gpus gpus)

-- The writes for the node with this key.
unfoldable pub write_heartbeat : ℕ → Draws → HeartbeatPayload → ℕ → Db → Db
unfolding report_node replace_containers replace_gpus
write_heartbeat now draws p node_id db = record db {
  nodes = modify node_id (report_node now p) db.nodes;
  containers = replace_containers now draws node_id p db.containers;
  gpus = replace_gpus now draws node_id p db.gpus;
}

-- `NodeService.handle_heartbeat`: the key of the node, and the tables.
unfoldable pub handle_heartbeat : ℕ → Draws → HeartbeatPayload → Db → ℕ × Db
unfolding ensure_node write_heartbeat
handle_heartbeat now draws p db =
    let (node_id, db') = ensure_node now draws p db in
    (node_id, write_heartbeat now draws p node_id db')

abbrev ip_before : Node → Node → Bool
ip_before a b = ltb a.ip b.ip

-- `NodeService.list_nodes`
unfoldable pub list_nodes : Db → List Node
list_nodes db = sort_by ip_before db.nodes

-- A row of the join of `gpu_devices` with `nodes`.
pub record PlacedGpu : Type 0 where
  pub gpu : GpuDevice
  pub node : Node

abbrev placed : List Node → List GpuDevice → List PlacedGpu
placed nodes [] = []
placed nodes (g ∷ gs) =
    let rest = placed nodes gs in
    elim (get g.node_id nodes) [ none ↦ rest | some n ↦ record { gpu = g; node = n } ∷ rest ]

abbrev pub is_idle_online : PlacedGpu → Bool
is_idle_online r = is_online r.node.status && is_idle r.gpu.status

abbrev place_before : PlacedGpu → PlacedGpu → Bool
place_before a b =
    if a.node.ip == b.node.ip then ltb a.gpu.gpu_index b.gpu.gpu_index else ltb a.node.ip b.node.ip

-- `NodeService.list_idle_gpus`
unfoldable pub list_idle_gpus : Db → List PlacedGpu
list_idle_gpus db = sort_by place_before (select is_idle_online (placed db.nodes db.gpus))
