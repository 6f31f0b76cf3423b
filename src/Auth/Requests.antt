-- ===== src/Auth/Requests.antt =====
-- Sequences of calls of the auth service.
use pet_urls.Prelude.{Bytes, List, [], ◌∷◌}
use pet_urls.Auth.Types.{Auth}
use pet_urls.Auth.Service.{health_check, register, login, logout, refresh, authenticate}

pub data Request : Type 0 where
  check : Request
  registration : Bytes → Bytes → Request
  entry : Bytes → Bytes → Request
  exit : Bytes → Request
  renewal : Bytes → Request
  proof : Bytes → Request

module _ {W : Type 0} (a : Auth W) where
  -- The world after one call; its result goes to the caller.
  unfoldable pub serve : Request → W → W
  serve check w = (health_check a w).1
  serve (registration name password) w = (register a name password w).1
  serve (entry name password) w = (login a name password w).1
  serve (exit token) w = (logout a token w).1
  serve (renewal token) w = (refresh a token w).1
  serve (proof token) w = (authenticate a token w).1

  unfoldable pub run : List Request → W → W
  run [] w = w
  run (r ∷ rs) w = run rs (serve r w)
