-- ===== src/StreamId/Order.antt =====
-- `operator<` of vrs/StreamId.h orders the ids totally, in step with `operator==`.
use vrs.Base.{◌≡◌, true, false, ◌⊎◌, arith}
use vrs.StreamId.{StreamId, same, less}

pub same→eq : (a b : StreamId) → same a b ≡ true → a ≡ b
same→eq a b h = ground arith

pub same_refl : (a : StreamId) → same a a ≡ true
same_refl a = ground arith

-- `<` on stream ids never holds both ways, is transitive, and relates any two ids that
-- `operator==` tells apart.
pub less_total_order :
    (a b c : StreamId)
    → (less a a ≡ false)
      × (less a b ≡ true → less b a ≡ false)
      × (less a b ≡ true → less b c ≡ true → less a c ≡ true)
      × (same a b ≡ false → (less a b ≡ true) ⊎ (less b a ≡ true))
less_total_order a b c = (ground arith, λ h. ground arith, λ h k. ground arith, λ h. ground arith)
