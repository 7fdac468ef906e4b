-- ===== src/Redis/Tests.antt =====
-- Tests of src/redis, and its theorems at concrete inputs, on the Redis of Redis/Memory.antt.
use meridian_backend.Prelude.{◌≤◌, [], ◌∷◌, ◌≡◌, refl}
use meridian_backend.Redis.{stage_proposal, peek_proposal, consume_proposal}
use meridian_backend.Redis.Memory.{memory, memory-IsLawful, no_keys}
use meridian_backend.Redis.Methods.Proposals.{peek, consume, decline, claim_count, claim_count-once}

abbrev staged : memory.State
staged = stage_proposal memory 0 3 "proposal" 900 no_keys

-- Two authors accept at once, and a third one later.
race :
    claim_count memory 3 0
      ((10, peek 3 900) ∷ (1, peek 3 900) ∷ (5, consume 3) ∷ (0, consume 3) ∷ (9, consume 3) ∷ [])
      staged
    ≡ 1
unfolding stage_proposal peek_proposal consume_proposal claim_count
race = refl

claim_count-once_example :
    claim_count memory 3 0 ((10, consume 3) ∷ (0, consume 3) ∷ (0, decline 3) ∷ []) staged ≤ 1
claim_count-once_example =
    claim_count-once memory-IsLawful 3 0 ((10, consume 3) ∷ (0, consume 3) ∷ (0, decline 3) ∷ [])
      staged (refl, (refl, (refl, tt)))
