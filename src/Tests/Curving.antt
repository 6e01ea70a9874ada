-- ===== src/Tests/Curving.antt =====
-- Witnesses for android_keymaster_utils.cpp.
use platform_system_keymaste.Common.{◌≡◌, ◌↔◌, some}
use platform_system_keymaste.Defs.{ok}
use platform_system_keymaste.Utils.{EcCurve, ec_key_size_to_curve, ec_curve_to_key_size}
use platform_system_keymaste.Utils.Curves.{ec_key_size_to_curve-inverse}

ec_key_size_to_curve-inverse_example :
    (ec_key_size_to_curve 521 ≡ (ok, some EcCurve.p_521))
    ↔ (ec_curve_to_key_size EcCurve.p_521 ≡ (ok, some 521))
ec_key_size_to_curve-inverse_example = ec_key_size_to_curve-inverse 521 EcCurve.p_521
