-- ===== src/Redis/Safety.antt =====
-- A job that was sent to a Redis server that answers is not lost.
use capivara_rs.Prelude.{String, none, List, ◌≡◌, refl, inl}
use capivara_rs.Job.{Job}
use capivara_rs.Registry.{value}
use capivara_rs.Redis.{Redis, Codec}
use capivara_rs.Redis.Claim.{enqueue}
use capivara_rs.Redis.Laws.{Laws, Reachable}
use capivara_rs.Redis.Structures.{Structures}
use capivara_rs.Redis.Members.{NoSep}
use capivara_rs.Redis.Sending.{enqueue_plain, pushed-queue, pushed-body}
use capivara_rs.Redis.Keeps.Safe.{IsFaithful, IsSafe}
use capivara_rs.Redis.Keeps.Bodies.{IsSound}
use capivara_rs.Redis.Keeps.Written.{enqueue-Sound}
use capivara_rs.Redis.History.{Call, run, AllAllowed, run-IsSafe}

module _ {K : Type 0} (R : Redis K) (codec : Codec) (prefix : String) (laws : Laws R)
    (structures : Structures R) (reachable : Reachable R) (faithful : IsFaithful codec) (job : Job)
    (hq : NoSep job.queue) (hid : NoSep job.id) where
  sent-IsSafe :
      (body : String) (s : K)
      → job.idempotency_key ≡ none
      → codec.job_to_string job ≡ value body
      → IsSafe R codec prefix job.queue job.id (enqueue R codec prefix job s).1
  sent-IsSafe body s plain w =
      rw (enqueue_plain R codec prefix laws structures reachable job body s plain w) (
        (
          body,
          job,
          pushed-body R codec prefix laws structures reachable job body s,
          faithful job body w,
          refl,
        ),
        inl (rw (pushed-queue R codec prefix laws structures reachable job body s) (inl refl)),
      )

  -- On a Redis server that answers, for a codec that reads a job's text as the job: a job that was
  -- enqueued without an idempotency key, where every body that is read as a job is one of its own
  -- id, is not lost, whatever calls follow by whatever clients, one after the other, that neither
  -- enqueue its id again nor acknowledge it. Its id has a body that is read as a job of its queue,
  -- and it waits in its queue, is held by a claim, is delayed, or is dead. Names of queues and ids
  -- hold no separator; a reason of a dead letter is not the text of a job, nor kept under the key
  -- of this one.
  pub sent_never_lost :
      (body : String) (calls : List Call) (s : K)
      → job.idempotency_key ≡ none
      → codec.job_to_string job ≡ value body
      → AllAllowed R codec prefix job.id calls
      → IsSound R codec prefix s
      → IsSafe R codec prefix job.queue job.id
          (run R codec prefix calls (enqueue R codec prefix job s).1)
  sent_never_lost body calls s plain w allowed sound =
      let t = (enqueue R codec prefix job s).1 in
      (run-IsSafe R codec prefix laws structures reachable job.queue job.id hq hid faithful calls t
        allowed (enqueue-Sound R codec prefix laws structures reachable faithful job hq hid s sound)
        (sent-IsSafe body s plain w)).1
