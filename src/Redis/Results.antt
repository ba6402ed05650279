-- ===== src/Redis/Results.antt =====
-- result/redis_result.rs: results under keys that expire. serde_json's conversions of a result are a
-- parameter.
use Prim.Native.String.{◌++◌}
use text.Mathlib.TextLemmas.{append_cancel_left}
use capivara_rs.Prelude.{
  ◌/◌, max, String, Option, none, some, ◌≡◌, ◌≢◌, refl, sym, ◌∙◌, ap, if◌then◌else◌, arith,
}
use capivara_rs.Time.{Duration, from_secs, nanos_per_sec, is_zero}
use capivara_rs.Error.{result_backend, serialize, Result, ok, err, Exec, fail, ◌>>=◌, then_lem}
use capivara_rs.Job.{JobId}
use capivara_rs.Results.{JobResult}
use capivara_rs.Registry.{Serde, value, malformed}
use capivara_rs.Redis.{Redis, or_err}
use capivara_rs.Redis.Laws.{Laws, Reachable}

abbrev pub default_result_ttl : Duration
default_result_ttl = from_secs 86_400

pub record ResultCodec : Type 0 where
  pub result_to_string : JobResult → Serde String
  pub result_from_str : String → Serde JobResult

-- The TTL that `connect_with_ttl` keeps.
abbrev pub ttl_or_default : Duration → Duration
ttl_or_default ttl = if is_zero ttl then default_result_ttl else ttl

module _ {K : Type 0} (R : Redis K) (codec : ResultCodec) (prefix : String) (ttl : Duration) where
  open codec use {result_to_string, result_from_str}

  abbrev pub result_key : JobId → String
  result_key id = prefix ++ ("result:" ++ id)

  -- `.query_async(…).await.map_err(|e| CapivaraError::ResultBackend { … })?`
  unfoldable pub query : {A : Type 0} → (K → A × K) → Exec K A
  query f s = let (r, s') = R.invoke f s in (or_err result_backend r, s')

  unfoldable pub store_body : JobId → Serde String → Exec K (Unit {0})
  unfolding query
  store_body id (malformed e) = fail (serialize e)
  store_body id (value body) =
      query (λ s. (tt, R.set_ex (result_key id) body (max (ttl / nanos_per_sec) 1) s))

  unfoldable pub store : JobId → JobResult → Exec K (Unit {0})
  unfolding store_body
  store id result = store_body id (result_to_string result)

  -- `Ok(Some(serde_json::from_str(&s)?))`
  abbrev some_of : Serde JobResult → Result (Option JobResult)
  some_of (value r) = ok (some r)
  some_of (malformed e) = err (serialize e)

  abbrev decoded : Option String → Result (Option JobResult)
  decoded none = ok none
  decoded (some body) = some_of (result_from_str body)

  unfoldable pub get : JobId → Exec K (Option JobResult)
  unfolding query
  get id = do body ← query (λ s. (R.get (result_key id) s, s)); λ s. (decoded body, s)

  module _ (laws : Laws R) (reachable : Reachable R) where
    query_lem : {A : Type 0} (f : K → A × K) (s : K) → query f s ≡ (ok (f s).0, (f s).1)
    unfolding query
    query_lem f s = rw (reachable.runs f s) refl

    get_lem :
        (id : JobId) (body : Option String) (s : K)
        → R.get (result_key id) s ≡ body
        → get id s ≡ (decoded body, s)
    unfolding get
    get_lem id body s h =
        then_lem (query (λ t. (R.get (result_key id) t, t))) (λ o t. (decoded o, t))
          (R.get (result_key id) s) s s (query_lem (λ t. (R.get (result_key id) t, t)) s)
        ∙ ap (λ o. (decoded o, s)) h

    pub get_read :
        (id : JobId) (r : JobResult) (body : String) (s : K)
        → R.get (result_key id) s ≡ some body
        → result_from_str body ≡ value r
        → (get id s).0 ≡ ok (some r)
    get_read id r body s h d = ap (λ x. x.0) (get_lem id (some body) s h) ∙ ap some_of d

    pub store_lem :
        (id : JobId) (r : JobResult) (body : String) (s : K)
        → result_to_string r ≡ value body
        → store id r s ≡ (ok tt, R.set_ex (result_key id) body (max (ttl / nanos_per_sec) 1) s)
    unfolding store store_body
    store_lem id r body s e =
        ap (λ b. store_body id b s) e
        ∙ query_lem (λ t. (tt, R.set_ex (result_key id) body (max (ttl / nanos_per_sec) 1) t)) s

    -- With a Redis server that answers, a result whose text reads back as itself is stored, and
    -- `get` of its id then returns it; what `get` of any other id returns stays as it was.
    pub get_stored :
        (id other : JobId) (r : JobResult) (body : String) (s : K)
        → result_to_string r ≡ value body
        → result_from_str body ≡ value r
        → other ≢ id
        → ((store id r s).0 ≡ ok tt)
          × ((get id (store id r s).1).0 ≡ ok (some r))
          × ((get other (store id r s).1).0 ≡ (get other s).0)
    get_stored id other r body s e d ne =
        let seconds = max (ttl / nanos_per_sec) 1 in
        let t : K = R.set_ex (result_key id) body seconds s in
        let put : store id r s ≡ (ok tt, t) = store_lem id r body s e in
        let apart : result_key id ≢ result_key other = λ p. ne (
          sym (
            append_cancel_left "result:" id other
              (append_cancel_left prefix ("result:" ++ id) ("result:" ++ other) p))) in
        let here : R.get (result_key id) t ≡ some body =
          ground (arith, laws.get-set_ex (result_key id) (result_key id) body seconds s) in
        let there : R.get (result_key other) t ≡ R.get (result_key other) s =
          ground
            (arith, apart, laws.get-set_ex (result_key id) (result_key other) body seconds s) in
        rw put (
          refl,
          get_read id r body t here d,
          ap (λ x. x.0) (get_lem other (R.get (result_key other) s) t there)
              ∙ sym (ap (λ x. x.0) (get_lem other (R.get (result_key other) s) s refl)),
        )
