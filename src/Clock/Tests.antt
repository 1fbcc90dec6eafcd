-- ===== src/Clock/Tests.antt =====
-- The clock at concrete readings.
use nginx_quic_stack.Base.{[], ◌∷◌, ◌≡◌, refl}
use nginx_quic_stack.Base.Int.{pos}
use nginx_quic_stack.Clock.{new_clock, nows}

goes_back : nows (pos 5 ∷ pos 3 ∷ pos 7 ∷ []) new_clock ≡ pos 5 ∷ pos 5 ∷ pos 7 ∷ []
unfolding nows
goes_back = refl
