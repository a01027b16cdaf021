-- ===== src/Hex/Tests.antt =====
-- Texts of numbers.
use suba_sync.Prelude.{◌≡◌, refl, codes, [], ◌∷◌}
use suba_sync.Hex.{hex_from_bytes}

three_bytes : hex_from_bytes (0 ∷ 10 ∷ 255 ∷ []) ≡ codes "000aff"
unfolding hex_from_bytes
three_bytes = refl
