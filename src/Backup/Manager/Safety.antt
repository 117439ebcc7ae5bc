-- ===== src/Backup/Manager/Safety.antt =====
-- IsSafeToRunNode of backup/manager.go tells whether another instance has taken the node over.
use breez.Common.{
  ◌≡◌, ◌≢◌, ◌↔◌, ◌⊎◌, inl, inr, refl, sym, ap, Bool, true, false, not, ◌&&◌, List, [], ◌∷◌, Bytes,
  bytes_eq, bytes_eq→eq, bytes_eq_refl, ok, ok-injective, Bool-cases, All, arith,
}
use breez.Bolt.{Bolt}
use breez.Db.Basics.{Error}
use breez.Backup.Store.{Bucket}
use breez.Backup.Manager.{SnapshotInfo, Manager, is_safe_snapshots, is_safe_to_run_node}

-- The snapshot is of another node, or of no instance, or of this one.
abbrev pub IsHarmless : Bytes → Bytes → SnapshotInfo → Type 0
IsHarmless node_id backup_id x =
    (x.node_id ≢ node_id) ⊎ ((x.backup_id ≡ []) ⊎ (x.backup_id ≡ backup_id))

abbrev is_foreign : Bytes → Bytes → SnapshotInfo → Bool
is_foreign node_id backup_id x =
    bytes_eq x.node_id node_id
    && (not (bytes_eq x.backup_id []) && not (bytes_eq backup_id x.backup_id))

harmless :
    (node_id backup_id : Bytes) (x : SnapshotInfo)
    → is_foreign node_id backup_id x ≡ false
    → IsHarmless node_id backup_id x
harmless node_id backup_id x h = elim (Bool-cases (bytes_eq x.node_id node_id)) [
  | inr other ↦ inl (λ same. cc (rw (same, bytes_eq_refl node_id) at other))
  | inl ours ↦ inr (elim (Bool-cases (bytes_eq x.backup_id [])) [
    | inl e ↦ inl (bytes_eq→eq x.backup_id [] e)
    | inr named ↦ elim (Bool-cases (bytes_eq backup_id x.backup_id)) [
      | inl e ↦ inr (sym (bytes_eq→eq backup_id x.backup_id e))
      | inr other ↦ cc (rw (ours, named, other) at h)
    ]
  ])
]

not_foreign :
    (node_id backup_id : Bytes) (x : SnapshotInfo)
    → IsHarmless node_id backup_id x
    → is_foreign node_id backup_id x ≡ false
not_foreign node_id backup_id x h = elim (Bool-cases (bytes_eq x.node_id node_id)) [
  | inr other ↦ rw other refl
  | inl ours ↦ elim h [
    | inl theirs ↦ elim (theirs (bytes_eq→eq x.node_id node_id ours)) [ ]
    | inr (inl nameless) ↦ rw (ours, nameless) refl
    | inr (inr same) ↦ rw (ours, same, bytes_eq_refl backup_id) (ground arith)
  ]
]

is_safe_iff :
    (node_id backup_id : Bytes) (xs : List SnapshotInfo)
    → (is_safe_snapshots node_id backup_id xs ≡ true) ↔ All (IsHarmless node_id backup_id) xs
unfolding is_safe_snapshots
is_safe_iff node_id backup_id [] = (λ _. tt, λ _. refl)
is_safe_iff node_id backup_id (x ∷ xs) =
    let (safe, all) = is_safe_iff node_id backup_id xs in
    (
      λ h. elim (Bool-cases (is_foreign node_id backup_id x)) [
        | inl e ↦ cc (rw (e, is_safe_snapshots) at h)
        | inr e ↦ (harmless node_id backup_id x e, safe (rw (e, is_safe_snapshots) at h))
      ],
      λ h. rw (not_foreign node_id backup_id x h.0, is_safe_snapshots) (all h.1),
    )

module _ (s : Bolt Bucket Error) where
  -- With known snapshots and a known identifier, the node is safe to run if and only if there is a
  -- provider and every snapshot is of another node, or has no identifier, or has this instance's.
  pub is_safe_to_run_node_iff :
      (m : Manager s.Tx) (node_id backup_id : Bytes) (xs : List SnapshotInfo)
      → (is_safe_to_run_node s m node_id (ok xs) (ok backup_id) ≡ ok true)
        ↔ ((m.has_provider ≡ true) × All (IsHarmless node_id backup_id) xs)
  unfolding is_safe_to_run_node
  is_safe_to_run_node_iff m node_id backup_id xs =
      let (safe, all) = is_safe_iff node_id backup_id xs in
      (
        λ h. elim (Bool-cases m.has_provider) [
          | inl set ↦ (set, safe (ok-injective (rw (set, is_safe_to_run_node) at h)))
          | inr unset ↦ cc (rw (unset, is_safe_to_run_node) at h)
        ],
        λ (set, h). rw (set, is_safe_to_run_node) (ap ok (all h)),
      )
