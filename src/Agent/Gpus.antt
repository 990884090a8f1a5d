-- ===== src/Agent/Gpus.antt =====
-- agent/gpu_monitor.py: what `nvidia-smi -q -x` prints, as the GPUs of a heartbeat. Running the command and
-- reading XML are parameters: an element is given by the texts that the code looks up in it.
use Prim.Native.Char.{Char}
use text.Mathlib.Text.{◌==◌ as str_eq}
use my_frist_reop.Prelude.{
  ℕ, suc, String, Bool, ◌||◌, Option, none, some, List, [], ◌∷◌, or_else, if◌then◌else◌,
}
use my_frist_reop.Data.Cluster.{ProcessInfo}
use my_frist_reop.Nodes.{GpuInfo}
use my_frist_reop.Models.Requirement.{is_empty, skip_spaces}

pub record ProcessElement : Type 0 where
  pub pid : Option String
  pub process_name : Option String
  pub used_memory : Option String

-- An element `gpu`. A group of texts is `none` where its element is missing: memory (total, used, free),
-- utilization (of the GPU, of the memory), temperature, and power (draw, limit).
pub record GpuElement : Type 0 where
  pub product_name : Option String
  pub uuid : Option String
  pub fb_memory_usage : Option (Option String × Option String × Option String)
  pub utilization : Option (Option String × Option String)
  pub temperature : Option (Option String)
  pub power_readings : Option (Option String × Option String)
  pub processes : Option (List ProcessElement)

-- `x or "unknown"`
abbrev or_unknown : Option String → String
or_unknown none = "unknown"
or_unknown (some s) = if is_empty s then "unknown" else s

abbrev is_missing : String → Bool
is_missing s = is_empty s || (str_eq s "N/A" || str_eq s "[Not Supported]")

infixl 5 ◌>>=◌
abbrev ◌>>=◌ : {A B : Type 0} → Option A → (A → Option B) → Option B
none >>= f = none
some a >>= f = f a

-- `is_space` is Python's table of spaces; `to_int` is `int(float(token))`, where it does not raise.
module _ (is_space : Char → Bool) (to_int : String → Option ℕ) where
  abbrev word : String → String
  word String.[] = String.[]
  word (String.◌∷◌ c s) = let rest = word s in if is_space c then String.[] else String.◌∷◌ c rest

  -- `_parse_int`; a text of nothing but spaces has no first token, and raises.
  unfoldable pub parse_int : Option String → Option ℕ
  parse_int none = some 0
  parse_int (some value) =
      let token = word (skip_spaces is_space value) in
      if is_missing value
      then some 0
      else if is_empty token
      then none
      else some (or_else (to_int token) 0)

  -- One entry of `_parse_processes`.
  unfoldable pub parse_process : ProcessElement → Option ProcessInfo
  unfolding parse_int
  parse_process p = do
    pid ← parse_int p.pid
    memory ← parse_int p.used_memory
    some (record { pid = pid; name = or_unknown p.process_name; memory_used = memory })

  -- `_parse_processes`
  unfoldable pub parse_processes : List ProcessElement → Option (List ProcessInfo)
  unfolding parse_process
  parse_processes [] = some []
  parse_processes (p ∷ ps) = do
    process ← parse_process p
    rest ← parse_processes ps
    some (process ∷ rest)

  abbrev memory_texts : GpuElement → Option String × Option String × Option String
  memory_texts e = or_else e.fb_memory_usage (none, none, none)

  abbrev pair_texts : Option (Option String × Option String) → Option String × Option String
  pair_texts o = or_else o (none, none)

  -- One round of the loop of `collect_gpu_info`; `none` is an exception.
  unfoldable pub gpu_info : ℕ → GpuElement → Option GpuInfo
  unfolding parse_processes
  gpu_info index e = do
    memory_total ← parse_int ((memory_texts e).0)
    memory_used ← parse_int ((memory_texts e).1)
    memory_free ← parse_int ((memory_texts e).2)
    utilization_gpu ← parse_int ((pair_texts e.utilization).0)
    utilization_memory ← parse_int ((pair_texts e.utilization).1)
    temperature ← parse_int (or_else e.temperature none)
    power_usage ← parse_int ((pair_texts e.power_readings).0)
    power_limit ← parse_int ((pair_texts e.power_readings).1)
    processes ← parse_processes (or_else e.processes [])
    some (record {
      index = index;
      model = or_unknown e.product_name;
      uuid = e.uuid;
      memory_total = memory_total;
      memory_used = memory_used;
      memory_free = memory_free;
      utilization_gpu = utilization_gpu;
      utilization_memory = utilization_memory;
      temperature = temperature;
      power_usage = power_usage;
      power_limit = power_limit;
      processes = processes;
    })

  -- The loop, with `enumerate` from an index on.
  unfoldable pub gpu_infos : ℕ → List GpuElement → Option (List GpuInfo)
  unfolding gpu_info
  gpu_infos index [] = some []
  gpu_infos index (e ∷ es) = do
    info ← gpu_info index e
    rest ← gpu_infos (suc index) es
    some (info ∷ rest)

  -- `collect_gpu_info` on the elements, or nothing where the command or the reading failed.
  unfoldable pub collect_gpu_info : Option (List GpuElement) → Option (List GpuInfo)
  unfolding gpu_infos
  collect_gpu_info none = some []
  collect_gpu_info (some es) = gpu_infos 0 es
