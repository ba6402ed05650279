-- ===== src/Redis/Members.antt =====
-- The members of the sorted sets on Redis, written and read back.
use Prim.Native.String.{String, [], ◌∷◌, ◌++◌}
use Prim.Native.Char.{code}
use text.Mathlib.TextLemmas.{
  nil≢cons, head-eq_of_cons-eq, tail-eq_of_cons-eq, nil-append, cons-append, append_assoc,
}
use capivara_rs.Prelude.{some, ◌==◌, ◌≡◌, refl, ap, false, arith}
use capivara_rs.Job.{JobId, ClaimToken}
use capivara_rs.Redis.Keys.{member_sep, lease_member, delayed_member, split_at_sep, parse_lease}

-- No character of the text is the separator.
abbrev pub NoSep : String → Type 0
NoSep [] = Unit
NoSep (c ∷ s) = ((code c == 0x1f) ≡ false) × NoSep s

split_sep : (s t r : String) → s ++ r ≡ t → s ≡ member_sep → split_at_sep t ≡ some ("", r)
unfolding split_at_sep
split_sep [] t r e h = absurd (nil≢cons h)
split_sep (c ∷ s) t r e h =
    let one : code c ≡ 0x1f = ap code (head-eq_of_cons-eq h) in
    let none_left : s ++ r ≡ r = rw (tail-eq_of_cons-eq h) (nil-append r) in
    rw⁻¹ e (rw (cons-append c s r, none_left) (ground (arith, one)))

split_at_sep-NoSep : (q r : String) → NoSep q → split_at_sep (q ++ (member_sep ++ r)) ≡ some (q, r)
unfolding split_at_sep
split_at_sep-NoSep [] r h =
    rw (nil-append (member_sep ++ r)) (split_sep member_sep (member_sep ++ r) r refl refl)
split_at_sep-NoSep (c ∷ q) r h =
    rw (cons-append c q (member_sep ++ r)) (ground (arith, split_at_sep-NoSep q r h.1))

-- The scripts read back the members that the code writes: of a delayed member the queue and the id,
-- and of a lease member the queue and the id, whatever its token is, if neither the queue's name
-- nor the id holds the separator.
pub parse_members :
    (queue : String) (id : JobId) (token : ClaimToken)
    → NoSep queue
    → NoSep id
    → (split_at_sep (delayed_member queue id) ≡ some (queue, id))
      × (parse_lease (lease_member queue id token) ≡ some (queue, id))
unfolding parse_lease
parse_members queue id token hq hi = (
  split_at_sep-NoSep queue id hq,
  ground (
    arith,
    split_at_sep-NoSep queue (id ++ (member_sep ++ token)) hq,
    split_at_sep-NoSep id token hi,
  ),
)

-- If a queue's name holds the separator once, the recover script reads what stands before it as the
-- queue, and what stands behind it as the id of the job.
pub parse_lease_misreads :
    (before after : String) (id : JobId) (token : ClaimToken)
    → NoSep before
    → NoSep after
    → parse_lease (lease_member (before ++ (member_sep ++ after)) id token) ≡ some (before, after)
unfolding parse_lease
parse_lease_misreads before after id token hb ha =
    rw
      (
        append_assoc before (member_sep ++ after) (member_sep ++ (id ++ (member_sep ++ token))),
        append_assoc member_sep after (member_sep ++ (id ++ (member_sep ++ token))),
      )
      (ground (
        arith,
        split_at_sep-NoSep before (after ++ (member_sep ++ (id ++ (member_sep ++ token)))) hb,
        split_at_sep-NoSep after (id ++ (member_sep ++ token)) ha,
      ))
