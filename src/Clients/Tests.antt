-- ===== src/Clients/Tests.antt =====
-- Two clients that come at the same time, for one slot.
use dnscrypt_proxy_fork.Base.{ℕ, ◌+◌, ◌≤◌, ◌≡◌, List, [], ◌∷◌, arith}
use dnscrypt_proxy_fork.Clients.{Thread, inc_load, run, run_lem, total, lost, gained}

abbrev clients : List Thread
clients = inc_load ∷ inc_load ∷ []

abbrev schedule : List ℕ
schedule = 0 ∷ 1 ∷ 1 ∷ 0 ∷ 0 ∷ []

run_lem_example :
    let (count, threads) = run 1 schedule 0 clients in
    (count ≤ 1)
    × (count + total lost threads + total gained clients
        ≡ 0 + total lost clients + total gained threads)
run_lem_example = run_lem 1 schedule 0 clients (omega arith) (omega arith) (ground arith)
