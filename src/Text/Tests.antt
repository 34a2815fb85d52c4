-- ===== src/Text/Tests.antt =====
-- Tests of the text functions.
use over.Base.{◌+◌, ◌*◌, ◌≡◌, refl, some, [], ◌∷◌}
use over.Text.{codes, decimal, inet_pton, scan_quad}

decimal_255 : decimal 255 ≡ codes "255"
unfolding decimal
decimal_255 = refl

inet_pton_example : inet_pton (codes "13.8.0.7") ≡ some (13 + 256 * 8 + 16777216 * 7)
unfolding inet_pton
inet_pton_example = refl

scan_quad_example : scan_quad (codes " 202.106.0.20 x") ≡ some (202 ∷ 106 ∷ 0 ∷ 20 ∷ [])
unfolding scan_quad
scan_quad_example = refl
