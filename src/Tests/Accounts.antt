-- ===== src/Tests/Accounts.antt =====
-- The clients' service without clients, over a store that counts.
use zmux_server.Base.{ℕ, suc, ◌<◌, ◌≡◌, refl, List, [], some, Bytes, lookup, arith}
use zmux_server.ObjectStore.{empty, get_one}
use zmux_server.B2bClient.{ClientResource}
use zmux_server.B2bService.Clients.{ClientStore, Limited, Clients, create, update, erase}
use zmux_server.B2bService.Clients.Tokens.{empty-IsIndexed}
use zmux_server.B2bService.Clients.Laws.{Kept, Erased, GivesNew, calls-Kept}
use zmux_server.Tests.Services.{manager}

abbrev clients_store : ClientStore ℕ
clients_store = record {
  create = λ m n. some (suc n, suc n);
  update = λ id m n. some n;
  erase = λ id n. some n;
}

abbrev limits : Limited (List ℕ)
limits = record { make = λ pre on. []; update_limits = λ pre on p. some p }

abbrev nobody : Clients ℕ (List ℕ)
nobody = record {
  ds = 7;
  objs = empty;
  by_token = [];
  service = record {
    procmngrs = [];
    channel_client = [];
    client_channels = [];
    channels_usage = [];
    outputs_usage = [];
  };
}

gives_new : GivesNew clients_store manager limits nobody
unfolding empty get_one lookup
gives_new m id ds h = let e : 8 ≡ id = cc h in (omega (arith, e), refl)

calls-Kept_example :
    ((r : ClientResource) (raws : List Bytes)
      → Kept (create clients_store manager limits r raws nobody))
    × ((id : ℕ) (r : ClientResource)
        → 0 < id
        → Kept (update clients_store manager limits id r nobody))
    × ((id : ℕ) → Erased (erase clients_store manager limits id nobody))
calls-Kept_example = calls-Kept clients_store manager limits nobody empty-IsIndexed gives_new
