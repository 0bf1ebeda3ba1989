-- ===== src/StreamId/Examples.antt =====
-- Runs on stream ids, and their theorems at concrete inputs.
use vrs.Base.{◌≡◌, refl, arith, [], ◌∷◌}
use vrs.StreamId.{StreamId, undefined, get_numeric_name, from_numeric_name}
use vrs.StreamId.Name.{from_numeric_name-get_numeric_name}

abbrev camera : StreamId
camera = record { type_id = 1201; instance_id = 2 }

abbrev microphone : StreamId
microphone = record { type_id = 1201; instance_id = 3 }

camera_name : get_numeric_name camera ≡ b'1' ∷ b'2' ∷ b'0' ∷ b'1' ∷ b'-' ∷ b'2' ∷ []
unfolding get_numeric_name
camera_name = refl

cut_name : from_numeric_name (b'1' ∷ b'2' ∷ b'-' ∷ []) ≡ undefined
unfolding from_numeric_name
cut_name = refl

from_numeric_name-get_numeric_name_example : from_numeric_name (get_numeric_name camera) ≡ camera
from_numeric_name-get_numeric_name_example =
    from_numeric_name-get_numeric_name camera
      (record { type_fits = omega arith; instance_fits = omega arith })
