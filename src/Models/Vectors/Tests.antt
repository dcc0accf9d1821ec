-- ===== src/Models/Vectors/Tests.antt =====
-- The column type at natural numbers.
use ai_secure_collaboration.Prelude.{◌≡◌, refl, [], ◌∷◌, codes, join}
use ai_secure_collaboration.External.Concrete.Tally.{natural_floats, tally}
use ai_secure_collaboration.Models.Vectors.{vector, text, bind}

bind_run : bind natural_floats (vector (0 ∷ 1 ∷ [])) ≡ text (codes "[1,11]")
unfolding bind join tally codes
bind_run = refl
