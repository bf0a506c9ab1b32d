-- ===== src/Server/Tests.antt =====
-- Runs of the theorems about TcpServer: one of three addresses cannot be bound and another cannot
-- listen, and a server that is stopped in the third round.
use lo_netfw.Base.{List, refl, ◌≡◌, true, false, [], ◌∷◌, ◌++◌, none, some}
use lo_netfw.Server.{Attempt, create, bind, Accept, start_accepting}
use lo_netfw.Server.Bind.{Binds, bind-Binds}
use lo_netfw.Server.Life.{
  Accepts, no_round, no_client, one_client, with_timeouts, start_accepting-clients,
}

abbrev attempts : List Attempt
attempts =
    record { addr = 1; socket = 11; binds = true; listens = true }
    ∷ record { addr = 2; socket = 12; binds = false; listens = true }
    ∷ record { addr = 1; socket = 13; binds = true; listens = false }
    ∷ []

bind-Binds_example : Binds attempts (create 90) (bind attempts [] (create 90))
bind-Binds_example = bind-Binds attempts (create 90)

abbrev round : Accept
round = record { stopped = false; client = some 4; timeout = 90 }

abbrev failing : Accept
failing = record { stopped = false; client = none; timeout = 90 }

abbrev last : Accept
last = record { stopped = true; client = none; timeout = 90 }

abbrev rounds : List Accept
rounds = round ∷ failing ∷ []

rounds-Accepts : Accepts rounds ((4, round) ∷ [])
rounds-Accepts = one_client refl (no_client refl no_round)

start_accepting-clients_example :
    (start_accepting rounds [] ≡ (false, [] ++ with_timeouts ((4, round) ∷ [])))
    × (start_accepting (rounds ++ last ∷ []) [] ≡ (true, [] ++ with_timeouts ((4, round) ∷ [])))
start_accepting-clients_example =
    start_accepting-clients rounds ((4, round) ∷ []) last [] [] (refl, (refl, tt)) rounds-Accepts
      refl
