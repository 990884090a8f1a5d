-- ===== src/Queue/Server.antt =====
-- The Redis server as the two queue clients see it: three lists, the messages published so far,
-- and the calls that are still going to raise `RedisError`.
use my_frist_reop.Prelude.{ℕ, Bool, true, false, Option, none, some, List, [], ◌∷◌, ◌++◌, length}
use my_frist_reop.Prelude.Int.{ℤ}

-- A queue entry, as `json.dumps` and `json.loads` carry it. A `none` is a key that is absent.
pub record Payload : Type 0 where
  pub task_id : Option ℕ
  pub priority : Option ℤ
  pub enqueued_at : ℕ

pub data Level : Type 0 where
  high normal low : Level

-- The two channels, with the task id of the message.
pub data Message : Type 0 where
  new_task finished : ℕ → Message

-- A list is written from its right end, where `rpop` takes and `rpush` puts; `lpush` puts at the
-- other end. `faults` says of each coming call whether it raises; after its end none does.
pub record Redis : Type 0 where
  pub high : List Payload
  pub normal : List Payload
  pub low : List Payload
  pub published : List Message
  pub faults : List Bool

abbrev pub queue_at : Level → Redis → List Payload
queue_at Level.high r = r.high
queue_at Level.normal r = r.normal
queue_at Level.low r = r.low

abbrev pub set_queue : Level → List Payload → Redis → Redis
set_queue Level.high q r = record r { high = q }
set_queue Level.normal q r = record r { normal = q }
set_queue Level.low q r = record r { low = q }

-- What a call of the client returns.
pub data Reply (A : Type 0) : Type 0 where
  redis_error : Reply A
  reply : A → Reply A

abbrev pub M : Type 0 → Type 0
M A = Redis → Reply A × Redis

infixl 5 ◌>>=◌ ◌>>◌
abbrev pub ◌>>=◌ : {A B : Type 0} → M A → (A → M B) → M B
◌>>=◌ m f r = let (x, r') = m r in elim x [ redis_error ↦ (redis_error, r') | reply a ↦ f a r' ]

abbrev pub ◌>>◌ : {A B : Type 0} → M A → M B → M B
m >> k = m >>= λ _. k

abbrev pub pure : {A : Type 0} → A → M A
pure a r = (reply a, r)

abbrev next_call : List Bool → Redis → Bool × Redis
next_call [] r = (false, r)
next_call (f ∷ fs) r = (f, record r { faults = fs })

-- One round trip to the server: it raises, or it runs the command.
abbrev call : {A : Type 0} → M A → M A
call command r =
    let (fails, r') = next_call r.faults r in
    elim fails [ true ↦ (redis_error, r') | false ↦ command r' ]

abbrev pub lpush : Level → Payload → M (Unit {0})
lpush l p = call (λ r. (reply tt, set_queue l (queue_at l r ++ p ∷ []) r))

abbrev pub rpush : Level → Payload → M (Unit {0})
rpush l p = call (λ r. (reply tt, set_queue l (p ∷ queue_at l r) r))

abbrev pop_of : Level → List Payload → M (Option Payload)
pop_of l [] r = (reply none, r)
pop_of l (p ∷ q) r = (reply (some p), set_queue l q r)

abbrev pub rpop : Level → M (Option Payload)
rpop l = call (λ r. pop_of l (queue_at l r) r)

abbrev pub llen : Level → M ℕ
llen l = call (λ r. (reply (length (queue_at l r)), r))

abbrev pub publish : Message → M (Unit {0})
publish m = call (λ r. (reply tt, record r { published = r.published ++ m ∷ [] }))

abbrev pub empty_redis : Redis
empty_redis = record { high = []; normal = []; low = []; published = []; faults = [] }
