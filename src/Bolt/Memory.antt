-- ===== src/Bolt/Memory.antt =====
-- A store in memory that has the laws of `Bolt`: each bucket is a list of entries.
use breez.Common.{
  ℕ, ◌+◌, ◌≡◌, ◌≢◌, ◌⊎◌, inl, inr, refl, sym, ap, subst, ◌∙◌, ok-injective, Bool, true, Option,
  none, some, List, [], ◌∷◌, Bytes, bytes_eq, bytes_eq→eq, bytes_eq_refl, bytes_eq-false,
  if◌then◌else◌, Result, ok, err, arith,
}
use breez.Bolt.{Bolt, Codec, entry_value}

abbrev pub Cells : Type 0
Cells = List (Bytes × Option Bytes)

unfoldable pub set_cell : Bytes → Bytes → Cells → Cells
set_cell k v [] = (k, some v) ∷ []
set_cell k v ((j, w) ∷ rest) =
    if bytes_eq j k then (k, some v) ∷ rest else (j, w) ∷ set_cell k v rest

unfoldable pub drop_cell : Bytes → Cells → Cells
drop_cell k [] = []
drop_cell k ((j, w) ∷ rest) =
    let others = drop_cell k rest in if bytes_eq j k then others else (j, w) ∷ others

pub value-set_self : (k v : Bytes) (cells : Cells) → entry_value k (set_cell k v cells) ≡ some v
unfolding set_cell
value-set_self k v [] = ground (arith, bytes_eq_refl k)
value-set_self k v ((j, w) ∷ rest) = ground (arith, bytes_eq_refl k, value-set_self k v rest)

pub value-set_ne :
    (k v j : Bytes) (cells : Cells)
    → k ≢ j
    → entry_value j (set_cell k v cells) ≡ entry_value j cells
unfolding set_cell
value-set_ne k v j [] h = ground (arith, bytes_eq-false k j)
value-set_ne k v j ((i, w) ∷ rest) h =
    ground (arith, bytes_eq-false k j, bytes_eq→eq i k, value-set_ne k v j rest)

pub value-drop_self : (k : Bytes) (cells : Cells) → entry_value k (drop_cell k cells) ≡ none
unfolding drop_cell
value-drop_self k [] = refl
value-drop_self k ((j, w) ∷ rest) = ground (arith, value-drop_self k rest)

pub value-drop_ne :
    (k j : Bytes) (cells : Cells) → k ≢ j → entry_value j (drop_cell k cells) ≡ entry_value j cells
unfolding drop_cell
value-drop_ne k j [] h = refl
value-drop_ne k j ((i, w) ∷ rest) h =
    ground (arith, bytes_eq-false k j, bytes_eq→eq i k, value-drop_ne k j rest)

pub record Contents (B : Type 0) : Type 0 where
  pub buckets : B → Bool
  pub cells : B → Cells
  pub sequences : B → ℕ

module _ {B : Type 0} (same : Discrete B) where
  unfoldable pub replace {ℓ} : {A : Type ℓ} → (B → A) → B → A → B → A
  replace f b a c = elim (same b c) [ yes _ ↦ a | no _ ↦ f c ]

  pub replace_self {ℓ} : {A : Type ℓ} (f : B → A) (b : B) (a : A) → replace f b a b ≡ a
  unfolding replace
  replace_self f b a = elim (same b b) as (λ d. elim d [ yes _ ↦ a | no _ ↦ f b ] ≡ a) [
    | yes _ ↦ refl
    | no h ↦ absurd (h refl)
  ]

  pub replace_ne {ℓ} :
      {A : Type ℓ} (f : B → A) (b : B) (a : A) (c : B) → b ≢ c → replace f b a c ≡ f c
  unfolding replace
  replace_ne f b a c h = elim (same b c) as (λ d. elim d [ yes _ ↦ a | no _ ↦ f c ] ≡ f c) [
    | yes e ↦ absurd (h e)
    | no _ ↦ refl
  ]

  -- A new value of one bucket that shows the same under `j` changes no read of `j`.
  pub value-replace :
      (f : B → Cells) (b c : B) (new : Cells) (j : Bytes)
      → entry_value j new ≡ entry_value j (f b)
      → entry_value j (replace f b new c) ≡ entry_value j (f c)
  unfolding replace
  value-replace f b c new j h =
      elim (same b c)
        as (λ d. entry_value j (elim d [ yes _ ↦ new | no _ ↦ f c ]) ≡ entry_value j (f c)) [
          | yes e ↦ h ∙ ap (λ x. entry_value j (f x)) e
          | no _ ↦ refl
        ]

  pub true-replace : (f : B → Bool) (b c : B) → f c ≡ true → replace f b true c ≡ true
  unfolding replace
  true-replace f b c h = elim (same b c) as (λ d. elim d [ yes _ ↦ true | no _ ↦ f c ] ≡ true) [
    | yes _ ↦ refl
    | no _ ↦ h
  ]

  module _ {E : Type 0} (key_required : E) where
    unfoldable pub write : Contents B → B → Bytes → Bytes → Contents B
    write t b k v = record t { cells = replace t.cells b (set_cell k v (t.cells b)) }

    unfoldable pub erase : Contents B → B → Bytes → Contents B
    erase t b k = record t { cells = replace t.cells b (drop_cell k (t.cells b)) }

    unfoldable pub advance : Contents B → B → Contents B
    advance t b = record t { sequences = replace t.sequences b (t.sequences b + 1) }

    unfoldable pub try_put : Contents B → B → Bytes → Bytes → Result E (Contents B)
    try_put t b [] v = err key_required
    try_put t b (x ∷ k) v = ok (write t b (x ∷ k) v)

    pub put-ok :
        (t u : Contents B) (b : B) (k v : Bytes) → try_put t b k v ≡ ok u → write t b k v ≡ u
    unfolding try_put
    put-ok t u b [] v h = cc
    put-ok t u b (x ∷ k) v h = cc

    abbrev value : Contents B → B → Bytes → Option Bytes
    value t b k = entry_value k (t.cells b)

    pub memory_next-ok :
        (t u : Contents B) (b : B) (n : ℕ)
        → ◌≡◌ {A = Result E (ℕ × Contents B)} (ok (t.sequences b + 1, advance t b)) (ok (n, u))
        → (t.sequences b + 1 ≡ n) × (advance t b ≡ u)
    memory_next-ok t u b n h = (cc, cc)

    pub read-write-ne :
        (t : Contents B) (b : B) (k v : Bytes) (c : B) (j : Bytes)
        → (b ≢ c) ⊎ (k ≢ j)
        → value (write t b k v) c j ≡ value t c j
    unfolding write
    read-write-ne t b k v c j (inl h) = ap (entry_value j) (replace_ne t.cells b _ c h)
    read-write-ne t b k v c j (inr h) =
        value-replace t.cells b c (set_cell k v (t.cells b)) j (value-set_ne k v j (t.cells b) h)

    pub read-erase-ne :
        (t : Contents B) (b : B) (k : Bytes) (c : B) (j : Bytes)
        → (b ≢ c) ⊎ (k ≢ j)
        → value (erase t b k) c j ≡ value t c j
    unfolding erase
    read-erase-ne t b k c j (inl h) = ap (entry_value j) (replace_ne t.cells b _ c h)
    read-erase-ne t b k c j (inr h) =
        value-replace t.cells b c (drop_cell k (t.cells b)) j (value-drop_ne k j (t.cells b) h)

    unfoldable pub memory : Bolt B E
    unfolding write erase advance try_put replace set_cell drop_cell
    memory = record {
      Tx = Contents B;
      has_bucket = λ t b. t.buckets b;
      create_bucket = λ t b. ok (record t { buckets = replace t.buckets b true });
      read = value;
      put = try_put;
      delete = λ t b k. ok (erase t b k);
      sequence = λ t b. t.sequences b;
      next_sequence = λ t b. ok (t.sequences b + 1, advance t b);
      entries = λ t b. t.cells b;
      commit = λ t. none;
      create-has_self = λ {t} {u} {b} h.
          subst (λ (u : Contents B). u.buckets b ≡ true) (ok-injective h)
            (replace_self t.buckets b true);
      create-has = λ {t} {u} {b} h c p.
          subst (λ (u : Contents B). u.buckets c ≡ true) (ok-injective h)
            (true-replace t.buckets b c p);
      create-read = λ {t} {u} {b} h c j.
          subst (λ (u : Contents B). value u c j ≡ value t c j) (ok-injective h) refl;
      read-put_self = λ {t} {u} {b} {k} {v} h.
          subst (λ (u : Contents B). value u b k ≡ some v) (put-ok t u b k v h)
            (ap (entry_value k) (replace_self t.cells b _) ∙ value-set_self k v (t.cells b));
      read-put_ne = λ {t} {u} {b} {k} {v} h c j d.
          subst (λ (u : Contents B). value u c j ≡ value t c j) (put-ok t u b k v h)
            (read-write-ne t b k v c j d);
      sequence-put = λ {t} {u} {b} {k} {v} h c.
          subst (λ (u : Contents B). u.sequences c ≡ t.sequences c) (put-ok t u b k v h) refl;
      has-put = λ {t} {u} {b} {k} {v} h c.
          subst (λ (u : Contents B). u.buckets c ≡ t.buckets c) (put-ok t u b k v h) refl;
      read-delete_self = λ {t} {u} {b} {k} h.
          subst (λ (u : Contents B). value u b k ≡ none) (ok-injective h)
            (ap (entry_value k) (replace_self t.cells b _) ∙ value-drop_self k (t.cells b));
      read-delete_ne = λ {t} {u} {b} {k} h c j d.
          subst (λ (u : Contents B). value u c j ≡ value t c j) (ok-injective h)
            (read-erase-ne t b k c j d);
      sequence-delete = λ {t} {u} {b} {k} h c.
          subst (λ (u : Contents B). u.sequences c ≡ t.sequences c) (ok-injective h) refl;
      has-delete = λ {t} {u} {b} {k} h c.
          subst (λ (u : Contents B). u.buckets c ≡ t.buckets c) (ok-injective h) refl;
      next_sequence-value = λ {t} {u} {b} {n} h. sym (memory_next-ok t u b n h).0;
      sequence-next_self = λ {t} {u} {b} {n} h.
          subst (λ (u : Contents B). u.sequences b ≡ n) (memory_next-ok t u b n h).1
            (replace_self t.sequences b _ ∙ (memory_next-ok t u b n h).0);
      read-next = λ {t} {u} {b} {n} h c j.
          subst (λ (u : Contents B). value u c j ≡ value t c j) (memory_next-ok t u b n h).1 refl;
      entries-read = λ t b k. refl;
    }

-- A codec that keeps what `make` recovers from the bytes of `key`.
abbrev pub keyed : {A E : Type 0} (key : A → Bytes) (make : Bytes → A) → Codec E A
keyed key make = record {
  encode = λ a. ok (key a);
  decode = λ b. ok (make b);
  Plain = λ a. make (key a) ≡ a;
  decode-encode = λ a {b} plain e. ap (λ b. ok (make b)) (sym (ok-injective e)) ∙ ap ok plain;
}
