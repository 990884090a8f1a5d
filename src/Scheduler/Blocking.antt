-- ===== src/Scheduler/Blocking.antt =====
-- An attempt for a task that no node can take: `_schedule_one` puts its entry back where it was.
use my_frist_reop.Prelude.{◌≡◌, ◌≢◌, ap, true, false, none, some, List, [], ◌∷◌, get, arith}
use my_frist_reop.Data.{add_log}
use my_frist_reop.Data.Work.{Task, LogSource, LogMessage, is_queued, task_keyed}
use my_frist_reop.World.{World}
use my_frist_reop.Queue.{dequeue, pop_first, requeue, get_queue_name}
use my_frist_reop.Queue.Server.{Redis, Payload}
use my_frist_reop.Queue.Order.{IsUp}
use my_frist_reop.Allocator.{allocate}
use my_frist_reop.Scheduler.{
  Env, get_online_nodes, place, schedule_one, schedule_payload, schedule_task,
}

-- The entry of a backend on the normal level, taken and put back.
take_back :
    (p : Payload) (rest : List Payload) (r : Redis)
    → IsUp r
    → p.priority ≡ none
    → r.high ≡ []
    → r.normal ≡ p ∷ rest
    → ((dequeue r).0 ≡ some p) × (requeue p (dequeue r).1 ≡ r)
unfolding dequeue pop_first requeue get_queue_name
take_back p rest r up plain high normal = ground arith

module _ (env : Env) (w : World) (task : Task) (p : Payload) (rest : List Payload)
    (up : IsUp w.redis) (no_high : w.redis.high ≡ []) (first : w.redis.normal ≡ p ∷ rest)
    (plain : p.priority ≡ none) (named : p.task_id ≡ some task.id) (known : task.id ≢ 0)
    (found : get task.id w.db.tasks ≡ some task) (queued : is_queued task.status ≡ true)
    (full : allocate w.db task (get_online_nodes w.db) ≡ (none, w.db)) where
  abbrev back : World
  back = record w { redis = (dequeue w.redis).1 }

  place_back : schedule_task env p task.id back ≡ (
    false,
    record {
      db = add_log env.now task.id LogSource.system LogMessage.no_resources w.db;
      redis = w.redis;
    },
  )
  unfolding schedule_task place
  place_back =
      rw (found, schedule_task)
        (rw queued (
          rw (full, place)
            (ap
              (λ r. (
                false,
                record {
                  db = add_log env.now task.id LogSource.system LogMessage.no_resources w.db;
                  redis = r;
                },
              ))
              (take_back p rest w.redis up plain no_high first).1)))

  -- With the server up, no entry of high priority, and first on the normal level an entry that the backend
  -- wrote for a queued task that cannot be allocated: an attempt starts nothing, writes one log line, and
  -- leaves the queues as they were, so the next attempt takes the same entry again and the entries
  -- behind it are not tried.
  pub schedule_one-blocked : schedule_one env w ≡ (
    false,
    record {
      db = add_log env.now task.id LogSource.system LogMessage.no_resources w.db;
      redis = w.redis;
    },
  )
  unfolding schedule_one schedule_payload
  schedule_one-blocked =
      rw (take_back p rest w.redis up plain no_high first).0
        (rw (named, schedule_payload) (ground (arith, place_back)))
