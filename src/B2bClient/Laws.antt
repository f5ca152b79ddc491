-- ===== src/B2bClient/Laws.antt =====
-- A client's quotas on their way from a request to a response (internal/domain/b2b-client).
use zmux_server.Base.{ℕ, ◌≡◌, refl, ap, List, [], ◌∷◌, some, Bytes, Map, lookup, bytes_eq, map}
use zmux_server.Base.Int.{ℤ}
use zmux_server.B2bClient.{ClientResource, new_client_model, new_client, view}
use zmux_server.B2bClient.Quota.{
  EnabledOutputResource, EnabledOutputView, output_model, output_quota, view_output, or_zero,
  new_quotas_model, new_quotas, view_quotas,
}

-- What a response says of one requested output quota.
abbrev pub shown : Map Bytes ℤ → EnabledOutputResource → EnabledOutputView
shown usage o = record { ref = o.ref; quota = o.quota; usage = or_zero (lookup o.ref usage) }

shown_outputs :
    (os : List EnabledOutputResource) (usage : Map Bytes ℤ)
    → map
        (λ eo. view_output eo (or_zero (lookup eo.ref usage)))
        (map output_quota (map output_model os))
      ≡ map (shown usage) os
unfolding view_output
shown_outputs [] usage = refl
shown_outputs (o ∷ os) usage = ap (λ t. shown usage o ∷ t) (shown_outputs os usage)

-- The view of the client that a request makes shows the name and the quotas of the request, with
-- the usage of each.
pub view-new_client :
    (r : ClientResource) (token : Bytes) (id : ℕ) (channels online : ℤ) (outputs : Map Bytes ℤ)
    (channel_ids : List ℕ)
    → view (new_client (new_client_model (some r) token) id) channels outputs online channel_ids
      ≡ some (record {
        id = id;
        name = r.name;
        bearer_token = token;
        quotas = record {
          enabled_channels = record { quota = r.quotas.enabled_channels.quota; usage = channels };
          enabled_outputs = map (shown outputs) r.quotas.enabled_outputs;
          online_channels = record {
            quota = r.quotas.online_channels.quota;
            max_preflight = r.quotas.online_channels.max_preflight;
            usage = online;
          };
        };
        channel_ids = channel_ids;
      })
unfolding new_client_model new_client view new_quotas_model new_quotas view_quotas
view-new_client r token id channels online outputs channel_ids =
    rw (shown_outputs r.quotas.enabled_outputs outputs)
