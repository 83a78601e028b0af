-- ===== src/Realtime/Integer.antt =====
-- The integers of Redis counters, which DECR takes below 0.
pub use attendence_v.Prelude.Double.{ℤ, pos, negsuc}
use attendence_v.Prelude.{ℕ, zero, suc, ◌≡◌, refl, Bool, false, ltb}

unfoldable pub suc_int : ℤ → ℤ
suc_int (pos n) = pos (suc n)
suc_int (negsuc zero) = pos 0
suc_int (negsuc (suc n)) = negsuc n

unfoldable pub pred_int : ℤ → ℤ
pred_int (pos zero) = negsuc 0
pred_int (pos (suc n)) = pos n
pred_int (negsuc n) = negsuc (suc n)

-- `z > n`
unfoldable pub above : ℤ → ℕ → Bool
above (pos k) n = ltb n k
above (negsuc k) n = false

pub pred-suc_int : (z : ℤ) → pred_int (suc_int z) ≡ z
unfolding pred_int suc_int
pred-suc_int (pos n) = refl
pred-suc_int (negsuc zero) = refl
pred-suc_int (negsuc (suc n)) = refl
