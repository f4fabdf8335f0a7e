-- ===== src/Idempotency/Samples.antt =====
-- The same order twice, and the handler that counts it.
use sfa_routing.Prelude.{ℕ, ◌+◌, ◌≡◌, refl, Bool, false, Option, some, List, [], ◌∷◌, map, range}
use sfa_routing.Idempotency.{Server, Method, post, dispatch_all}
use sfa_routing.Idempotency.Repeats.{dispatch_all_repeats}

abbrev fresh_server : Server
fresh_server = record { stored = λ k. false; runs = 0 }

abbrev steady : ℕ → Option ℕ
steady k = some 201

abbrev twice : List (Method × Option ℕ × Bool)
twice = (post, some 7, false) ∷ (post, some 7, false) ∷ []

dispatch_all_repeats_example :
    let (after, responses) = dispatch_all steady twice fresh_server in
    (after.runs ≡ 0 + 2)
    × (responses ≡ map steady (range 0 2))
    × (after.stored ≡ fresh_server.stored)
dispatch_all_repeats_example = dispatch_all_repeats steady twice fresh_server (λ k. refl)
