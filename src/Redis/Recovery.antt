-- ===== src/Redis/Recovery.antt =====
-- The loops of the promote and recover scripts: which ids they bring back to which queues.
use capivara_rs.Prelude.{
  ℕ, String, true, false, Option, none, some, List, [], ◌∷◌, ◌≡◌, ◌≢◌, refl, sym, ◌∙◌, ap, ite,
  if_pos, if_neg, inl, inr, string_discrete,
}
use mathlib.Core.Path.{subst}
use capivara_rs.Job.{JobId}
use capivara_rs.Redis.{Redis}
use capivara_rs.Redis.Keys.{
  pending_key, pending_key_prefix, job_key, job_key_prefix, attempts_key, attempts_key_prefix,
}
use capivara_rs.Redis.Scripts.{return_members}
use capivara_rs.Redis.Returning.{
  back, onto, with_body_among, body_of, IsApart, returned, returned-items, returned-count,
  returned-Same,
}
use capivara_rs.Redis.Structures.{Distinct, Structures, Listed, Same, Same-trans}
use capivara_rs.Redis.Apart

module _ {K : Type 0} (R : Redis K) (prefix : String) (parse : String → Option (String × JobId))
    (key : String) where
  -- The loop brought the members back: they left the set, and the ids of jobs with a body are in
  -- the lists of their queues; the reply is how many these are. Other members stay, and so do all
  -- keys but the set's, the queues' and the counters of attempts.
  pub record Returns (ms : List String) (s : K) (r : ℕ × K) : Type 0 where
    pub count : r.0 ≡ with_body_among R prefix parse ms s
    pub queues :
        (q : String)
        → R.lrange (pending_key prefix q) r.1
          ≡ onto R prefix parse q ms s (R.lrange (pending_key prefix q) s)
    pub gone : (m : String) → Listed m ms → (R.zrem key m r.1).0 ≡ false
    pub stay : (m : String) → ¬ Listed m ms → (R.zrem key m r.1).0 ≡ (R.zrem key m s).0
    pub others :
        (k : String)
        → key ≢ k
        → ((q : String) → pending_key prefix q ≢ k)
        → ((id : JobId) → attempts_key prefix id ≢ k)
        → Same R k s r.1

module _ {K : Type 0} (R : Redis K) (prefix : String) (structures : Structures R) where
  module _ (parse : String → Option (String × JobId)) (key : String)
      (apart : IsApart R prefix key) where
    abbrev pub loop : List String → K → ℕ × K
    loop ms s =
        return_members R parse key (pending_key_prefix prefix) (job_key_prefix prefix)
          (attempts_key_prefix prefix) ms s

    abbrev SameBodies : K → K → Type 0
    SameBodies s t = (id : JobId) → R.get (job_key prefix id) t ≡ R.get (job_key prefix id) s

    body_of-SameBodies :
        (o : Option (String × JobId)) (s t : K)
        → SameBodies s t
        → body_of R prefix o t ≡ body_of R prefix o s
    body_of-SameBodies none s t e = refl
    body_of-SameBodies (some m) s t e = e m.1

    onto-SameBodies :
        (q : String) (ms : List String) (s t : K) (ids : List String)
        → SameBodies s t
        → onto R prefix parse q ms t ids ≡ onto R prefix parse q ms s ids
    onto-SameBodies q [] s t ids e = refl
    onto-SameBodies q (m ∷ ms) s t ids e =
        ap (λ b. onto R prefix parse q ms t (back q (parse m) b ids))
          (body_of-SameBodies (parse m) s t e)
        ∙ onto-SameBodies q ms s t (back q (parse m) (body_of R prefix (parse m) s) ids) e

    count-SameBodies :
        (ms : List String) (s t : K)
        → SameBodies s t
        → with_body_among R prefix parse ms t ≡ with_body_among R prefix parse ms s
    count-SameBodies [] s t e = refl
    count-SameBodies (m ∷ ms) s t e =
        rw (body_of-SameBodies (parse m) s t e, count-SameBodies ms s t e) refl

    unlisted : (m p : String) (ms : List String) → ¬ Listed m ms → Listed p ms → m ≢ p
    unlisted m p ms n l e = n (subst (λ x. Listed x ms) (sym e) l)

    pub return_members-Returns :
        (ms : List String) (s : K)
        → Distinct ms
        → ((m : String) → Listed m ms → (R.zrem key m s).0 ≡ true)
        → Returns R prefix parse key ms s (loop ms s)
    unfolding return_members
    return_members-Returns [] s d has = record {
      count = refl;
      queues = λ q. refl;
      gone = λ m l. elim l [ ];
      stay = λ m n. refl;
      others = λ k n p a. record { text = refl; items = refl; members = λ m. refl };
    }
    return_members-Returns (m ∷ ms) s (fresh, d) has =
        let t : K = (R.zrem key m s).1 in
        let u : K = (returned R prefix structures (parse m) t).1 in
        let taken = structures.zrem-Only key m s in
        let back_in = returned-Same R prefix structures in
        let here : (p : String)
            → (R.zrem key p u).0 ≡ ite (string_discrete m p) false (R.zrem key p s).0 =
          λ p.
            (back_in key (parse m) t apart.0 apart.1).members p ∙ structures.has-zrem key m p s in
        let apart_from : (p : String) → m ≢ p → (R.zrem key p u).0 ≡ (R.zrem key p s).0 =
          λ p n. here p ∙ if_neg (string_discrete m p) n false (R.zrem key p s).0 in
        let rest =
          return_members-Returns ms u d
            (λ p l. apart_from p (unlisted m p ms fresh l) ∙ has p (inr l)) in
        let bodies : SameBodies s u = λ id.
          (back_in (job_key prefix id) (parse m) t (λ q. Apart.pending-ne-job prefix q id)
            (λ i. Apart.attempts-ne-job prefix i id)).text
          ∙ (taken (job_key prefix id) (λ e. apart.2 id (sym e))).text in
        let body_in : body_of R prefix (parse m) t ≡ body_of R prefix (parse m) s =
          body_of-SameBodies (parse m) s t
            (λ id. (taken (job_key prefix id) (λ e. apart.2 id (sym e))).text) in
        rw (return_members, has m (inl refl))
          (record {
            count =
                rw
                  (
                    rest.count,
                    returned-count R prefix structures (parse m) t,
                    body_in,
                    count-SameBodies ms s u bodies,
                  )
                  refl;
            queues = λ q.
                let entered : R.lrange (pending_key prefix q) u
                    ≡ back q (parse m) (body_of R prefix (parse m) s)
                        (R.lrange (pending_key prefix q) s) =
                  returned-items R prefix structures q (parse m) t
                  ∙ rw (body_in, (taken (pending_key prefix q) (λ e. apart.0 q (sym e))).items)
                      refl in
                rest.queues q
                ∙ onto-SameBodies q ms s u (R.lrange (pending_key prefix q) u) bodies
                ∙ ap (onto R prefix parse q ms s) entered;
            gone = λ p l. elim l [
              | inl e ↦
                  subst (λ x. (R.zrem key x (loop ms u).1).0 ≡ false) e
                    (rest.stay m fresh
                      ∙ here m
                      ∙ if_pos (string_discrete m m) refl false (R.zrem key m s).0)
              | inr l ↦ rest.gone p l
            ];
            stay = λ p n. rest.stay p (λ l. n (inr l)) ∙ apart_from p (λ e. n (inl e));
            others = λ k n p a.
                Same-trans R k s u (loop ms u).1
                  (Same-trans R k s t u (taken k n) (back_in k (parse m) t p a))
                  (rest.others k n p a);
          })
