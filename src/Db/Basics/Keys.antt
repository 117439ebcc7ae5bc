-- ===== src/Db/Basics/Keys.antt =====
-- itob and btoi of db/db.go: ids as keys of eight bytes.
use breez.Common.{ℕ, ◌^◌, ◌<◌, ◌≡◌, refl, sym, ap, ◌∙◌, ok, ok-injective, arith, length}
use breez.Db.Basics.{itob, btoi}

-- Every uint64 is read back from its key.
pub btoi-itob : (v : ℕ) → v < 2 ^ 64 → btoi (itob v) ≡ ok v
unfolding btoi itob
btoi-itob v h = ap ok (omega arith)

pub itob-injective : (v w : ℕ) → v < 2 ^ 64 → w < 2 ^ 64 → itob v ≡ itob w → v ≡ w
itob-injective v w hv hw e = ok-injective (sym (btoi-itob v hv) ∙ ap btoi e ∙ btoi-itob w hw)

pub length-itob : (v : ℕ) → length (itob v) ≡ 8
unfolding itob
length-itob v = refl
