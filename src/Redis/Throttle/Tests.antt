-- ===== src/Redis/Throttle/Tests.antt =====
-- The throttle at a concrete sequence of requests.
use meridian_backend.Prelude.{ℕ, List, [], ◌∷◌, ◌≡◌, refl, min, length, arith}
use meridian_backend.Redis.Throttle.Memory.{memory, memory-IsLawful, no_counters}
use meridian_backend.Redis.Throttle.Windows.{admitted, admitted-min}

abbrev delays : List ℕ
delays = 10 ∷ 200 ∷ 300 ∷ []

admitted-min_example : admitted memory "ip" 1000 2 50 delays no_counters ≡ min (length delays) 2
admitted-min_example =
    admitted-min memory-IsLawful "ip" 1000 2 10 (200 ∷ 300 ∷ []) 50 no_counters refl (omega arith)
