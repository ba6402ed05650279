-- ===== src/Redis/Keys.antt =====
-- The keys of broker/redis_broker.rs, and the members of its sorted sets.
use Prim.Native.String.{String, [], ◌∷◌, ◌++◌}
use Prim.Native.Char.{code}
use mathlib.Core.Option
use capivara_rs.Prelude.{Option, none, some, ◌==◌, if◌then◌else◌}
use capivara_rs.Job.{JobId, ClaimToken}

module _ (prefix : String) where
  abbrev pub pending_key : String → String
  pending_key queue = prefix ++ ("q:" ++ (queue ++ ":pending"))

  abbrev pub dead_key : String → String
  dead_key queue = prefix ++ ("q:" ++ (queue ++ ":dead"))

  abbrev pub pending_key_prefix : String
  pending_key_prefix = prefix ++ "q:"

  abbrev pub job_key : JobId → String
  job_key id = prefix ++ ("job:" ++ id)

  abbrev pub job_key_prefix : String
  job_key_prefix = prefix ++ "job:"

  abbrev pub dead_reason_key : JobId → String
  dead_reason_key id = prefix ++ ("job:" ++ (id ++ ":dead_reason"))

  abbrev pub attempts_key : JobId → String
  attempts_key id = prefix ++ ("attempts:" ++ id)

  abbrev pub attempts_key_prefix : String
  attempts_key_prefix = prefix ++ "attempts:"

  abbrev pub lease_key : String
  lease_key = prefix ++ "lease"

  abbrev pub delayed_key : String
  delayed_key = prefix ++ "delayed"

  abbrev pub idempotency_key : String → String
  idempotency_key key = prefix ++ ("idempotency:" ++ key)

abbrev pub member_sep : String
member_sep = "\u{1f}"

abbrev pub lease_member : String → JobId → ClaimToken → String
lease_member queue id token = queue ++ (member_sep ++ (id ++ (member_sep ++ token)))

abbrev pub delayed_member : String → JobId → String
delayed_member queue id = queue ++ (member_sep ++ id)

-- `string.find(member, sep, 1, true)` with the `string.sub`s before and after it.
unfoldable pub split_at_sep : String → Option (String × String)
split_at_sep [] = none
split_at_sep (c ∷ s) =
    let rest = split_at_sep s in
    if code c == 0x1f then some ("", s) else Option.map (λ r. (c ∷ r.0, r.1)) rest

-- What the recover script reads of a lease member: the queue and the id.
unfoldable pub parse_lease : String → Option (String × String)
unfolding split_at_sep
parse_lease member = elim (split_at_sep member) [
  | none ↦ none
  | some (queue, rest) ↦ elim (split_at_sep rest) [
    | none ↦ some (queue, rest)
    | some (id, token) ↦ some (queue, id)
  ]
]
