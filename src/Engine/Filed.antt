-- ===== src/Engine/Filed.antt =====
-- What one run does to Redis (executor/workers/engine.py, `_process_payload` and `_handle_retry`).
use integrated_work_tll.Prelude.{
  ℕ, ◌+◌, ◌*◌, ◌^◌, String, ◌&◌, [], ◌∷◌, Option, none, some, eqb, ltb, if◌then◌else◌,
}
use integrated_work_tll.Redis.{Redis}
use integrated_work_tll.Queue.{QueuePayload, Codec, delayed_queue}
use integrated_work_tll.Database.{Database}
use integrated_work_tll.Engine.{Permit, granted, timed_out, broke, Http, reply, raised, Run, World}

-- What becomes of a payload: nothing more, the delayed queue, or the dead letters.
pub data Fate : Type 0 where
  done : Fate
  delayed_until : (due_at : ℕ) → Fate
  dead : (reason : String) → Fate

-- The error of an answer: an exception, or the status 429.
abbrev pub error_of : Http → Option String
error_of (raised m) = some m
error_of (reply code latency headers body) =
    if eqb code 429 then some "HTTP 429 Too Many Requests" else none

abbrev pub accepted {ℓ} : {A : Type ℓ} → Option A → A → A
accepted none s = s
accepted (some t) s = t

module _ (db : Database) (redis : Redis) (codec : Codec) (queue_name : String) (backoff : ℕ) where
  abbrev pub fate_of : Option String → Run → QueuePayload → Fate
  fate_of none run p = done
  fate_of (some e) run p =
      if ltb p.attempt p.max_retries
      then delayed_until (run.now + backoff * 2 ^ p.attempt)
      else dead ("Max retries exceeded. Last error: " & e)

  abbrev pub fate : Permit → Run → QueuePayload → Fate
  fate (broke m) run p = dead m
  fate timed_out run p = dead "Rate limit timeout exceeded"
  fate granted run p = fate_of (error_of run.http) run p

  -- The store after a payload has been filed, where Redis accepts it, and the store as it was where
  -- Redis refuses.
  abbrev pub filed : Fate → QueuePayload → redis.Store → redis.Store
  filed done p s = s
  filed (delayed_until due_at) p s =
      accepted
        (redis.zadd (delayed_queue queue_name) (codec.dump (record p { attempt = p.attempt + 1 }))
          due_at s)
        s
  filed (dead reason) p s =
      accepted (redis.push (queue_name & ":dlq") (codec.dump_dead p reason ∷ []) s) s

  abbrev W : Type 0
  W = World db redis codec queue_name backoff
