-- ===== src/Utils/Curves.antt =====
-- EcKeySizeToCurve and EcCurveToKeySize of android_keymaster_utils.cpp.
use platform_system_keymaste.Common.{ℕ, ◌≡◌, ◌↔◌, some, arith}
use platform_system_keymaste.Defs.{ok}
use platform_system_keymaste.Utils.{EcCurve, ec_key_size_to_curve, ec_curve_to_key_size}

-- The two conversions are inverse to each other: a key size gives a curve exactly where that curve gives
-- the key size.
pub ec_key_size_to_curve-inverse :
    (bits : ℕ) (curve : EcCurve)
    → (ec_key_size_to_curve bits ≡ (ok, some curve))
      ↔ (ec_curve_to_key_size curve ≡ (ok, some bits))
unfolding ec_key_size_to_curve ec_curve_to_key_size
ec_key_size_to_curve-inverse bits EcCurve.p_224 = ground arith
ec_key_size_to_curve-inverse bits EcCurve.p_256 = ground arith
ec_key_size_to_curve-inverse bits EcCurve.p_384 = ground arith
ec_key_size_to_curve-inverse bits EcCurve.p_521 = ground arith
ec_key_size_to_curve-inverse bits (EcCurve.other_curve n) = ground arith
