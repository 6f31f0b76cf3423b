-- ===== src/Examples/Threads.antt =====
-- Concurrent calls of the shortener over the small world of Memory: two creations, one of them with a
-- random token, and resolutions of the token of the other one.
use pet_urls.Prelude.{
  ℕ, zero, suc, ◌≡◌, ◌⊎◌, inl, inr, refl, Bytes, codes, false, none, some, List, [], ◌∷◌,
}
use pet_urls.Prelude.Int.{pos}
use pet_urls.Errors.{is_not_found_error, ok}
use pet_urls.Url.{normalize_http}
use pet_urls.Shortener.Types.{UrlToken, kept_row, CreateTokenInput}
use pet_urls.Shortener.Threads.{
  resolved, deleted, created, Task, read_cache, fetch_row, ended, create_task, IsCall, resolution,
  creation, advance, turn, System, Reach, begun, run, run-Reach,
}
use pet_urls.Shortener.Threads.Origin.{
  Holds, IsAllowed, IsSound, Reach-IsSound, IsNormalized, Normal, Reach-IsNormalized,
}
use pet_urls.Shortener.Threads.Unique.{deletes, creations_apart}
use pet_urls.Shortener.Coherence.{IsCoherent}
use pet_urls.Shortener.Threads.Coherent.{HasUrl, Reach-IsCoherent}
use pet_urls.Examples.Memory.{stored, cached, start, plain_urls}
use pet_urls.Examples.MemoryLaws.{ticking-EnvLaws}
use pet_urls.Examples.Tokens.{
  demo, demo_repo, demo_cache, alice, made, first_input, first_token, service_steps,
}

abbrev t : Bytes
t = codes "t"

abbrev second_input : CreateTokenInput
second_input = record { url = codes "b.io"; ttl = pos 1000; token = []; owner_id = none }

abbrev call_of : ℕ → Task
call_of zero = create_task demo first_input (normalize_http plain_urls first_input.url)
call_of (suc zero) = create_task demo second_input (normalize_http plain_urls second_input.url)
call_of (suc (suc n)) = read_cache t

abbrev at_start : System demo
at_start = record { world = start; task = call_of }

abbrev schedule : List ℕ
schedule = 0 ∷ 0 ∷ 2 ∷ 2 ∷ 1 ∷ 1 ∷ 2 ∷ 2 ∷ 1 ∷ 2 ∷ 1 ∷ 1 ∷ 0 ∷ 0 ∷ []

abbrev at_end : System demo
at_end = run demo schedule at_start

reached : Reach demo at_start at_end
reached = run-Reach demo schedule begun

calls : (i : ℕ) → IsCall demo (at_start.task i)
calls zero = creation first_input
calls (suc zero) = creation second_input
calls (suc (suc n)) = resolution t

calm : (i : ℕ) → deletes (at_start.task i) ≡ false
unfolding deletes normalize_http
calm zero = refl
calm (suc zero) = refl
calm (suc (suc n)) = refl

-- What the run unfolds.
unfoldable thread_steps : Unit {0}
unfolding service_steps advance turn run
thread_steps = tt

first_end : at_end.task 0 ≡ ended (created first_token none)
unfolding thread_steps
first_end = refl

abbrev second_token : UrlToken
second_token = record {
  token = codes "xy";
  url = codes "http://b.io";
  expires_at = pos 1001;
  owner_id = none;
}

second_end : at_end.task 1 ≡ ended (created second_token none)
unfolding thread_steps
second_end = refl

third_end : at_end.task 2 ≡ ended (resolved t (ok (codes "http://a.io")))
unfolding thread_steps
third_end = refl

start-IsAllowed : (Allowed : Bytes → Bytes → Type 0) → IsAllowed Allowed demo stored cached start
start-IsAllowed Allowed = record { rows = λ k r row. cc; entries = λ k u hit. cc }

-- One of the URLs of the two creations.
abbrev Expected : Bytes → Bytes → Type 0
Expected k u = (u ≡ codes "http://a.io") ⊎ (u ≡ codes "http://b.io")

calls_hold : (i : ℕ) → Holds Expected (at_start.task i)
unfolding Holds normalize_http
calls_hold zero = λ token named. inl refl
calls_hold (suc zero) = λ token named. inr refl
calls_hold (suc (suc i)) = tt

at_start-IsSound : IsSound Expected demo stored cached ticking-EnvLaws demo_repo demo_cache at_start
at_start-IsSound = record { world = start-IsAllowed Expected; tasks = calls_hold }

Reach-IsSound_example :
    IsSound Expected demo stored cached ticking-EnvLaws demo_repo demo_cache at_end
Reach-IsSound_example =
    Reach-IsSound Expected demo stored cached ticking-EnvLaws demo_repo demo_cache reached
      at_start-IsSound

Reach-IsNormalized_example : IsNormalized demo (codes "http://a.io")
Reach-IsNormalized_example =
    Reach-IsNormalized demo stored cached ticking-EnvLaws demo_repo demo_cache reached
      (start-IsAllowed (Normal demo)) calls 2 t (codes "http://a.io") third_end

creations_apart_example :
    (stored at_end.world t ≡ some (kept_row first_token)) × (t ≡ codes "xy" → ◌≡◌ {A = ℕ} 0 1)
creations_apart_example =
    creations_apart demo stored cached ticking-EnvLaws demo_repo demo_cache reached calls calm 0 1
      first_token second_token first_end second_end

start-IsCoherent : IsCoherent stored cached start
start-IsCoherent k u h = cc

Reach-IsCoherent_example :
    IsCoherent stored cached at_end.world
    × ((i : ℕ) (k u : Bytes)
        → at_end.task i ≡ ended (resolved k (ok u))
        → HasUrl demo stored cached at_end.world k u)
Reach-IsCoherent_example =
    Reach-IsCoherent demo stored cached ticking-EnvLaws demo_repo demo_cache reached calls calm
      start-IsCoherent

-- Two deletions by Alice of her token "t" and a creation of "t" by Bob: the first deletion has seen
-- Alice's row, and then removes Bob's.
abbrev bobs_input : CreateTokenInput
bobs_input = record first_input { owner_id = some (codes "bob") }

abbrev call_again : ℕ → Task
call_again zero = fetch_row t alice
call_again (suc zero) = fetch_row t alice
call_again (suc (suc n)) = create_task demo bobs_input (normalize_http plain_urls bobs_input.url)

abbrev before_last : System demo
before_last =
    run demo (0 ∷ 0 ∷ 1 ∷ 1 ∷ 1 ∷ 2 ∷ 2 ∷ 2 ∷ 2 ∷ []) (record { world = made; task = call_again })

bobs_row :
    (stored before_last.world t
      ≡ some (record first_token { expires_at = pos 1000; owner_id = some (codes "bob") }))
unfolding thread_steps is_not_found_error
bobs_row = refl

bobs_row_gone :
    ((turn demo 0 before_last).task 0 ≡ ended (deleted none))
    × (stored (turn demo 0 before_last).world t ≡ none)
unfolding thread_steps is_not_found_error
bobs_row_gone = (refl, refl)
