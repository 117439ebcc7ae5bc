-- ===== src/DoubleRatchet/Tests.antt =====
-- The theorems on doubleratchet/db.go for a database in memory with one expired session.
use breez.Common.{ℕ_discrete, true, some, [], ◌∷◌, ◌++◌, codes}
use breez.Bolt.{Bolt}
use breez.Bolt.Memory.{memory}
use breez.Db.Basics.{Error, store_failed, itob}
use breez.DoubleRatchet.{Bucket, session_context, session_user_info}

same_bucket : Discrete Bucket
same_bucket = hlevel (ℕ_discrete)

abbrev store : Bolt Bucket Error
store = memory same_bucket (store_failed 0)

unfoldable with_session : store.Tx
unfolding memory
with_session = record {
  buckets = λ b. true;
  cells = λ b. elim b [
    | session_context ↦ (codes "s", some (itob 1000 ++ (1 ∷ []))) ∷ []
    | session_user_info ↦ (codes "s", some (codes "info")) ∷ []
    | _ ↦ []
  ];
  sequences = λ b. 0;
}
