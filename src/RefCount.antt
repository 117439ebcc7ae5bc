-- ===== src/RefCount.antt =====
-- refcount/referencecountable.go: one shared instance, created by the first holder and released by
-- the last. The mutex makes each call one step. A factory call enters as its outcome, and the calls
-- that reach the outside (factory and release functions) are kept in a trace, oldest first.
pub mod Lifetime
mod Tests
use breez.Common.{
  ℕ, ◌+◌, ◌-◌, ◌%◌, ◌^◌, Option, none, some, List, [], ◌∷◌, ◌++◌, ◌==◌, if◌then◌else◌,
}

-- What `create()` returned, over the instances `I`, the release functions `R` and the errors `E`.
pub record Created (I R E : Type 0) : Type 0 where
  pub made : Option I
  pub cleanup : Option R
  pub failure : Option E

pub data Call (R : Type 0) : Type 0 where
  create_succeeded create_failed : Call R
  called_release : R → Call R

-- `ref_count` is the bit pattern of the int32.
pub record ReferenceCountable (I R : Type 0) : Type 0 where
  pub held : Option I
  pub ref_count : ℕ
  pub release_fn : Option R
  pub calls : List (Call R)

-- What Get returns: the instance (its release function is always the method Release), or an error.
pub data GetReply (I E : Type 0) : Type 0 where
  got : Option I → GetReply I E
  get_failed : E → GetReply I E

-- What Release returns; `panicked` is the call of a nil release function.
pub data ReleaseReply (E : Type 0) : Type 0 where
  released_with : Option E → ReleaseReply E
  refcount_is_zero panicked : ReleaseReply E

-- The zero value of the struct.
abbrev pub unused : (I R : Type 0) → ReferenceCountable I R
unused I R = record { held = none; ref_count = 0; release_fn = none; calls = [] }

module _ {I R : Type 0} where
  abbrev pub one_more : ReferenceCountable I R → ReferenceCountable I R
  one_more r = record r { ref_count = (r.ref_count + 1) % 2 ^ 32 }

  abbrev pub one_less : ReferenceCountable I R → ReferenceCountable I R
  one_less r = record r { ref_count = (r.ref_count + 2 ^ 32 - 1) % 2 ^ 32 }

-- The release function of a failed factory call is called, and its own error is dropped.
abbrev pub clean_up : {R : Type 0} → Option R → List (Call R)
clean_up none = []
clean_up (some f) = called_release f ∷ []

module _ {I R E : Type 0} where
  -- The instance and the release function are overwritten also when the factory fails.
  unfoldable pub get :
      ReferenceCountable I R → Created I R E → ReferenceCountable I R × GetReply I E
  get r c =
      if r.ref_count == 0
      then elim c.failure [
        | some e ↦ (
          record r {
            held = c.made;
            release_fn = c.cleanup;
            calls = r.calls ++ (create_failed ∷ clean_up c.cleanup);
          },
          get_failed e,
        )
        | none ↦ (
          one_more (record r {
            held = c.made;
            release_fn = c.cleanup;
            calls = r.calls ++ (create_succeeded ∷ []);
          }),
          got c.made,
        )
      ]
      else (one_more r, got r.held)

  -- `run_release` is what each release function returns.
  unfoldable pub release :
      (R → Option E) → ReferenceCountable I R → ReferenceCountable I R × ReleaseReply E
  release run_release r =
      if r.ref_count == 0
      then (r, refcount_is_zero)
      else if (one_less r).ref_count == 0
      then elim r.release_fn [
        | none ↦ (one_less r, panicked)
        | some f ↦ (
          record (one_less r) { calls = r.calls ++ (called_release f ∷ []) },
          released_with (run_release f),
        )
      ]
      else (one_less r, released_with none)

-- A history of calls by the holders.
pub data Op (I R E : Type 0) : Type 0 where
  gets : Created I R E → Op I R E
  releases : Op I R E

module _ {I R E : Type 0} (run_release : R → Option E) where
  pub step : ReferenceCountable I R → Op I R E → ReferenceCountable I R
  step r (gets c) = (get r c).0
  step r releases = (release run_release r).0

  pub run : ReferenceCountable I R → List (Op I R E) → ReferenceCountable I R
  run r [] = r
  run r (op ∷ ops) = run (step r op) ops
