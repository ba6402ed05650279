-- ===== src/Redis/DeadLetters.antt =====
-- `dead_letter` and `list_dead` on a Redis server that answers.
use capivara_rs.Prelude.{
  String, true, Option, none, some, List, [], ◌∷◌, ◌++◌, ◌≡◌, ◌≢◌, refl, sym, ◌∙◌, ap, arith, ◌⊎◌,
  inl, inr, if_pos, string_discrete,
}
use mathlib.Core.List.{reverse, reverse_aux, reverse-cons}
use capivara_rs.Error.{serialize, Result, ok, err, panic, ◌>>=◌, then_lem}
use capivara_rs.Job.{JobId, ClaimToken, Job, DeadLetter}
use capivara_rs.Registry.{value}
use capivara_rs.Redis.{Redis, Codec, or_err, call}
use capivara_rs.Redis.Keys.{
  dead_key, job_key, attempts_key, dead_reason_key, lease_key, lease_member,
}
use capivara_rs.Redis.Settle.{parsed_id, list_dead, dead_letter, get_job, settled}
use capivara_rs.Redis.Laws.{Laws, Reachable}
use capivara_rs.Redis.Structures.{Structures, Listed}
use capivara_rs.Redis.Listing.{
  and_then, and_then_assoc, and_then_congr, or_err-ok, letter_of, letters_in, list_dead_lem,
}
use capivara_rs.Redis.Apart
use capivara_rs.Redis.Apart.{reason_id}
use capivara_rs.Redis.Scripts.{dead_letter_script}
use capivara_rs.Redis.Ownership.{call-then, get_job-some}

module _ {K : Type 0} (R : Redis K) (codec : Codec) (prefix : String) (laws : Laws R)
    (structures : Structures R) (reachable : Reachable R) where
  module _ (id : JobId) (token : ClaimToken) (reason body : String) (job : Job) (s : K) where
    abbrev member : String
    member = lease_member job.queue id token

    abbrev unleased : K
    unleased = (R.zrem (lease_key prefix) member s).1

    abbrev buried : K
    buried =
        R.del (attempts_key prefix id) (
          R.set (dead_reason_key prefix id) reason
            (R.lpush (dead_key prefix job.queue) id unleased))

    -- The job's body decodes, and the lease set has the member of its queue, the id and the token.
    abbrev HeldBy : Type 0
    HeldBy =
        (R.get (job_key prefix id) s ≡ some body)
        × (codec.job_from_str body ≡ value job)
        × ((R.zrem (lease_key prefix) member s).0 ≡ true)

    unleased-body : R.get (job_key prefix id) unleased ≡ R.get (job_key prefix id) s
    unleased-body =
        (structures.zrem-Only (lease_key prefix) member s (job_key prefix id)
          (λ e. Apart.job-ne-lease prefix id (sym e))).text

    pub dead_lettered : HeldBy → dead_letter R codec prefix id token reason s ≡ (ok tt, buried)
    unfolding dead_letter dead_letter_script
    dead_lettered (h, e, z) =
        let script = λ (j : Job).
          dead_letter_script R (lease_key prefix) (dead_key prefix j.queue) (job_key prefix id)
            (lease_member j.queue id token) id (dead_reason_key prefix id) reason
            (attempts_key prefix id) in
        let kept : R.get (job_key prefix id) unleased ≡ some body = unleased-body ∙ h in
        then_lem (get_job R codec prefix id) (λ j. call R (script j) >>= settled id) job s s
          (get_job-some R codec prefix laws reachable id body job s h e)
        ∙ call-then R codec prefix laws reachable (script job) (settled id) s
        ∙ ground (arith, z, kept)

    pub buried-ids :
        R.lrange (dead_key prefix job.queue) buried ≡ id ∷ R.lrange (dead_key prefix job.queue) s
    buried-ids =
        let key = dead_key prefix job.queue in
        let listed = R.lpush key id unleased in
        let reasoned = R.set (dead_reason_key prefix id) reason listed in
        (structures.del-Only (attempts_key prefix id) reasoned key
          (Apart.attempts-ne-dead prefix id job.queue)).items
        ∙ (structures.set-Only (dead_reason_key prefix id) reason listed key
            (λ e. Apart.dead-ne-job prefix job.queue (reason_id id) (sym e))).items
        ∙ structures.lrange-lpush key id unleased
        ∙ ap (λ l. id ∷ l)
            (structures.zrem-Only (lease_key prefix) member s key
              (λ e. Apart.dead-ne-lease prefix job.queue (sym e))).items

    -- The texts of jobs and reasons, but for the new reason.
    pub buried-text :
        (other : JobId)
        → dead_reason_key prefix id ≢ job_key prefix other
        → R.get (job_key prefix other) buried ≡ R.get (job_key prefix other) s
    buried-text other ne =
        let key = job_key prefix other in
        let listed = R.lpush (dead_key prefix job.queue) id unleased in
        let reasoned = R.set (dead_reason_key prefix id) reason listed in
        (structures.del-Only (attempts_key prefix id) reasoned key
          (Apart.attempts-ne-job prefix id other)).text
        ∙ (structures.set-Only (dead_reason_key prefix id) reason listed key ne).text
        ∙ (structures.lpush-Only (dead_key prefix job.queue) id unleased key
            (Apart.dead-ne-job prefix job.queue other)).text
        ∙ (structures.zrem-Only (lease_key prefix) member s key
            (λ e. Apart.job-ne-lease prefix other (sym e))).text

    pub buried-reason : R.get (dead_reason_key prefix id) buried ≡ some reason
    buried-reason =
        let key = dead_reason_key prefix id in
        let listed = R.lpush (dead_key prefix job.queue) id unleased in
        (structures.del-Only (attempts_key prefix id) (R.set key reason listed) key
          (Apart.attempts-ne-job prefix id (reason_id id))).text
        ∙ laws.get-set key key reason listed
        ∙ if_pos (string_discrete key key) refl (some reason) (R.get key listed)

    -- The letter, behind those that were listed.
    abbrev with_letter : Result (List DeadLetter) → Result (List DeadLetter)
    with_letter r =
        and_then r (λ letters. ok (letters ++ (record { job = job; reason = reason }) ∷ []))

    letter_of-with_letter :
        (other : JobId) (text why : Option String) (rest : Result (List DeadLetter))
        → letter_of R codec prefix other text why (with_letter rest)
          ≡ with_letter (letter_of R codec prefix other text why rest)
    letter_of-with_letter other none why rest = refl
    letter_of-with_letter other (some text) why (ok letters) =
        sym (and_then_assoc (or_err serialize (codec.job_from_str text)) _ _)
    letter_of-with_letter other (some text) why (err e) =
        sym (and_then_assoc (or_err serialize (codec.job_from_str text)) _ _)
    letter_of-with_letter other (some text) why (panic p) =
        sym (and_then_assoc (or_err serialize (codec.job_from_str text)) _ _)

    -- No text is read as the job's id, or as the id under whose key its reason stands.
    abbrev Others : List String → Type 0
    Others ids =
        (text : String) (other : JobId)
        → Listed text ids
        → codec.parse_str text ≡ value other
        → (other ≢ id) × (other ≢ reason_id id)

    -- The letters of other jobs are in `buried` what they are in `s`.
    letters_in-buried :
        (ids : List String)
        → HeldBy
        → codec.parse_str id ≡ value id
        → Others ids
        → letters_in R codec prefix (ids ++ id ∷ []) buried
          ≡ with_letter (letters_in R codec prefix ids s)
    letters_in-buried [] (h, e, z) p others =
        let there = buried-text id (Apart.reason-ne-own prefix id) ∙ h in
        rw (p, there, e, buried-reason) refl
    letters_in-buried (text ∷ texts) held p others =
        let rest = letters_in R codec prefix texts s in
        and_then_congr (parsed_id R codec prefix text) _ _ (λ other q.
          let ne = others text other (inl refl) (or_err-ok _ (codec.parse_str text) other q) in
          rw
            (
              buried-text other (λ e. ne.1 (sym (Apart.job_key_inj prefix (reason_id id) other e))),
              buried-text (reason_id other)
                  (λ e. ne.0 (sym (Apart.reason_key_inj prefix id other e))),
              letters_in-buried texts held p (λ t o l. others t o (inr l)),
            )
            (letter_of-with_letter other (R.get (job_key prefix other) s)
              (R.get (dead_reason_key prefix other) s) rest))
        ∙ sym (and_then_assoc (parsed_id R codec prefix text) _ _)

    Listed-reverse_aux :
        (x : String) (xs ys : List String)
        → Listed x (reverse_aux xs ys)
        → Listed x xs ⊎ Listed x ys
    Listed-reverse_aux x [] ys l = inr l
    Listed-reverse_aux x (y ∷ xs) ys l = elim (Listed-reverse_aux x xs (y ∷ ys) l) [
      | inl m ↦ inl (inr m)
      | inr (inl e) ↦ inl (inl e)
      | inr (inr m) ↦ inr m
    ]

    -- On a Redis server that answers, where the holder of a claim dead-letters its job, whose body
    -- decodes and whose id is read back as itself: the call succeeds, and what `list_dead` then
    -- returns for the queue is what it returned before, an error included, with the job and the
    -- reason behind the other letters. No text in the list may be read as the id of the job, nor as
    -- the id under whose key its reason is kept.
    pub dead_letter_listed :
        HeldBy
        → codec.parse_str id ≡ value id
        → Others (R.lrange (dead_key prefix job.queue) s)
        → let t = (dead_letter R codec prefix id token reason s).1 in
          ((dead_letter R codec prefix id token reason s).0 ≡ ok tt)
          × ((list_dead R codec prefix job.queue t).0
              ≡ with_letter (list_dead R codec prefix job.queue s).0)
    dead_letter_listed held p others =
        let ids = R.lrange (dead_key prefix job.queue) s in
        let turned : reverse (R.lrange (dead_key prefix job.queue) buried)
            ≡ reverse ids ++ id ∷ [] =
          ap reverse buried-ids ∙ reverse-cons id ids in
        rw
          (
            dead_lettered held,
            list_dead_lem R codec prefix laws reachable job.queue buried,
            turned,
            list_dead_lem R codec prefix laws reachable job.queue s,
          )
          (
            refl,
            letters_in-buried (reverse ids) held p (λ t o l.
                others t o
                  (elim (Listed-reverse_aux t ids [] l) [ inl m ↦ m | inr m ↦ elim m [ ] ])),
          )
