-- ===== src/Tests/Requests.antt =====
-- Requests for channels, with one channel in the table.
use zmux_server.Base.{ℕ, ◌≡◌, ◌⊎◌, ◌↔◌, refl, List, [], ◌∷◌, some, lookup, is_some, nat_eq, true}
use zmux_server.Channel.Views.{ClientChannel, b2b_client_view}
use zmux_server.ObjectStore.{get_many}
use zmux_server.B2bService.{start, lookup_by_channel_id}
use zmux_server.Dto.Fields.{admin, b2b_client}
use zmux_server.Handler.Authz.{next, require_channel_id_access, require_channel_id_access_iff}
use zmux_server.Handler.Listing.{owned, get_channel_list, get_many_channels}
use zmux_server.Handler.Listing.Laws.{
  AreSeen, Selects, AreListed, get_channel_list-owned, get_many_channels_iff,
}
use zmux_server.Tests.Channels.{sd}
use zmux_server.Tests.Services.{database, manager, after}

-- The client asks for its channel and for one that it does not have.
abbrev seen : List ClientChannel
seen = b2b_client_view (start sd) ∷ []

get_channel_list-owned_example :
    (shown : List ℕ) × Selects 3 after.service (7 ∷ 9 ∷ []) shown × AreSeen after.objs shown seen
unfolding get_channel_list owned lookup_by_channel_id lookup get_many_channels get_many
get_channel_list-owned_example =
    get_channel_list-owned database manager manager 3 7 (9 ∷ []) after seen refl

get_many_channels_iff_example :
    (is_some (get_many_channels (7 ∷ 9 ∷ []) after.objs) ≡ true) ↔ AreListed after.objs (7 ∷ 9 ∷ [])
get_many_channels_iff_example = get_many_channels_iff (7 ∷ 9 ∷ []) after.objs

require_channel_id_access_iff_example :
    (require_channel_id_access (some (record { id = 3; kind = b2b_client })) 7 after.service ≡ next)
    ↔ ((b2b_client ≡ admin) ⊎ (lookup_by_channel_id 7 after.service ≡ some 3))
require_channel_id_access_iff_example =
    require_channel_id_access_iff (record { id = 3; kind = b2b_client }) 7 after.service
