-- ===== src/Backup/Store/Requests.antt =====
-- The backup requests of backup/db.go: the newest is pending until it is completed itself.
use breez.Common.{
  ℕ, ◌+◌, ◌<◌, ◌≤◌, ◌^◌, ◌≡◌, inl, inr, refl, ap, subst, ◌∙◌, Bool, false, Option, none, some, [],
  ◌∷◌, ◌==◌, if◌then◌else◌, Result, ok, ◌>>=◌, ok-injective, arith, bytes_ne, Bool-cases,
  Option-cases,
}
use breez.Bolt.{Bolt}
use breez.Bolt.Transactions.{>>=-eq-ok, last_write, AllOrNothing, update-AllOrNothing}
use breez.Db.Basics.{Error, itob, btoi}
use breez.Db.Basics.Keys.{btoi-itob, length-itob}
use breez.Backup.Store.{
  Bucket, backup, mark_id_key, use_encryption_key, add_backup_request, add_request_body,
  last_backup_request, mark_completed_body, mark_backup_request_completed, set_use_encryption,
  use_encryption,
}

-- The specification: how many requests were made, and which one is pending.
pub record Requests : Type 0 where
  pub made : ℕ
  pub pending : Option ℕ

pub data Op : Type 0 where
  requested : Op
  completed : ℕ → Op
  chosen : Bool → Op

abbrev pub spec_step : Requests → Op → Requests
spec_step r requested = record { made = r.made + 1; pending = some (r.made + 1) }
spec_step r (completed n) = record r {
  pending = elim r.pending [ none ↦ none | some p ↦ if n == p then none else some p ];
}
spec_step r (chosen enabled) = r

module _ (s : Bolt Bucket Error) where
  open s use {Tx, read, put, delete, sequence, next_sequence}

  pub apply : Op → Tx → Result Error (Unit {0}) × Tx
  apply requested t = add_backup_request s t
  apply (completed n) t = mark_backup_request_completed s t n
  apply (chosen enabled) t = set_use_encryption s t enabled

  -- The database shows `r`; ids fit a uint64, and no id is 0.
  pub record Shows (r : Requests) (t : Tx) : Type 0 where
    pub made : sequence t backup ≡ r.made
    pub mark : read t backup mark_id_key ≡ elim r.pending [ none ↦ none | some n ↦ some (itob n) ]
    pub small : r.made < 2 ^ 64
    pub known : (n : ℕ) → r.pending ≡ some n → (0 < n) × (n ≤ r.made)

  requested-Shows :
      (r : Requests) (t u : Tx) (a : Unit {0})
      → r.made + 1 < 2 ^ 64
      → Shows r t
      → add_request_body s t ≡ ok (a, u)
      → Shows (spec_step r requested) u
  unfolding add_request_body
  requested-Shows r t u a fits shows h =
      let ((n, t1), next, h1) = >>=-eq-ok (next_sequence t backup) _ h in
      let written = last_write s (put t1 backup mark_id_key (itob n)) h1 in
      let n_is : n ≡ r.made + 1 = omega (arith, s.next_sequence-value next, shows.made) in
      record {
        made = s.sequence-put written backup ∙ s.sequence-next_self next ∙ n_is;
        mark = s.read-put_self written ∙ ap (λ (n : ℕ). some (itob n)) n_is;
        small = fits;
        known = λ m e. ground (arith, e);
      }

  pending-btoi :
      (r : Requests) (t : Tx) (p : ℕ)
      → Shows r t
      → r.pending ≡ some p
      → (read t backup mark_id_key ≡ some (itob p)) × (btoi (itob p) ≡ ok p)
  pending-btoi r t p shows e = (
    shows.mark ∙ ap (λ (o : Option ℕ). elim o [ none ↦ none | some n ↦ some (itob n) ]) e,
    btoi-itob p (omega (arith, shows.known p e, shows.small)),
  )

  completed-Shows :
      (n : ℕ) (r : Requests) (t u : Tx) (a : Unit {0})
      → Shows r t
      → mark_completed_body s n t ≡ ok (a, u)
      → Shows (spec_step r (completed n)) u
  unfolding mark_completed_body
  completed-Shows n r t u a shows h = elim (Option-cases r.pending) [
    | inl e ↦
        let mark =
          shows.mark ∙ ap (λ (o : Option ℕ). elim o [ none ↦ none | some n ↦ some (itob n) ]) e in
        let done =
          ap (λ (p : Unit {0} × Tx). p.1) (ok-injective (rw (mark, mark_completed_body) at h)) in
        subst (Shows (spec_step r (completed n))) done (record {
          made = shows.made;
          mark = rw e mark;
          small = shows.small;
          known = λ m q. cc (rw e at q);
        })
    | inr (p, e) ↦
        let (mark, read_back) = pending-btoi r t p shows e in
        let h1 = rw (mark, read_back, mark_completed_body) at h in
        elim (Bool-cases (n == p)) [
          | inr other ↦
              let done = ap (λ (p : Unit {0} × Tx). p.1) (ok-injective (rw other at h1)) in
              subst (Shows (spec_step r (completed n))) done (record {
                made = shows.made;
                mark = rw (e, other) mark;
                small = shows.small;
                known = λ m q. shows.known m (e ∙ rw (e, other) at q);
              })
          | inl same ↦
              let gone = last_write s (delete t backup mark_id_key) (rw same at h1) in
              record {
                made = s.sequence-delete gone backup ∙ shows.made;
                mark = rw (e, same) (s.read-delete_self gone);
                small = shows.small;
                known = λ m q. cc (rw (e, same) at q);
              }
        ]
  ]

  chosen-Shows :
      (enabled : Bool) (r : Requests) (t u : Tx)
      → Shows r t
      → put t backup use_encryption_key ((if enabled then 1 else 0) ∷ []) ≡ ok u
      → Shows r u
  chosen-Shows enabled r t u shows written = record {
    made = s.sequence-put written backup ∙ shows.made;
    mark =
        s.read-put_ne written backup mark_id_key
          (inr (bytes_ne use_encryption_key mark_id_key refl))
        ∙ shows.mark;
    small = shows.small;
    known = shows.known;
  }

  -- Each operation of the backup database fails and changes nothing, or does the specification's
  -- step: a new request is the pending one, completing a request drops it only if it is the pending
  -- one, and the encryption setting does not touch the requests.
  pub apply-Shows :
      (op : Op) (r : Requests) (t : Tx)
      → r.made + 1 < 2 ^ 64
      → Shows r t
      → AllOrNothing s t (apply op t) (λ _ u. Shows (spec_step r op) u)
  unfolding apply add_backup_request mark_backup_request_completed set_use_encryption
  apply-Shows requested r t fits shows =
      update-AllOrNothing {0, 0} s t (add_request_body s) (λ _ u. Shows (spec_step r requested) u)
        (λ a u h. requested-Shows r t u a fits shows h)
  apply-Shows (completed n) r t fits shows =
      update-AllOrNothing {0, 0} s t (mark_completed_body s n)
        (λ _ u. Shows (spec_step r (completed n)) u) (λ a u h. completed-Shows n r t u a shows h)
  apply-Shows (chosen enabled) r t fits shows =
      update-AllOrNothing {0, 0} s t
        (λ t. put t backup use_encryption_key ((if enabled then 1 else 0) ∷ []) >>= λ u. ok (tt, u))
        (λ _ u. Shows r u)
        (λ a u h.
          chosen-Shows enabled r t u shows (last_write s (put t backup use_encryption_key _) h))

  -- The pending request is what the specification says, 0 for none; and the setting that
  -- useEncryption reports is false, whatever was set.
  pub last_backup_request-Shows :
      (r : Requests) (t : Tx)
      → Shows r t
      → (last_backup_request s t ≡ ok (elim r.pending [ none ↦ 0 | some n ↦ n ]))
        × (use_encryption s t ≡ false)
  unfolding last_backup_request use_encryption
  last_backup_request-Shows r t shows = elim (Option-cases r.pending) [
    | inl e ↦
        let mark =
          shows.mark ∙ ap (λ (o : Option ℕ). elim o [ none ↦ none | some n ↦ some (itob n) ]) e in
        (rw (e, mark, last_backup_request) refl, rw (mark, use_encryption) refl)
    | inr (p, e) ↦
        let (mark, read_back) = pending-btoi r t p shows e in
        (
          rw (e, mark, last_backup_request) read_back,
          rw (mark, use_encryption) (ground (arith, length-itob p)),
        )
  ]

  pub apply-completed :
      (n : ℕ) (t : Tx) → apply (completed n) t ≡ mark_backup_request_completed s t n
  unfolding apply
  apply-completed n t = refl
