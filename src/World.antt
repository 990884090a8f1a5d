-- ===== src/World.antt =====
-- What the backend and the scheduler share: the database and the Redis server. Each service runs as
-- its own process against the two (deploy/docker-compose.yml).
use my_frist_reop.Data.{Db}
use my_frist_reop.Queue.Server.{Redis}

pub record World : Type 0 where
  pub db : Db
  pub redis : Redis
