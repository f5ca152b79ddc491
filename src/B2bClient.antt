-- ===== src/B2bClient.antt =====
-- internal/domain/b2b-client: a client and its quotas, as requested, stored, kept and shown. A nil
-- receiver or argument is `none`; a nil slice is the empty one.
pub mod Quota
pub mod Laws
use zmux_server.Base.{
  ℕ, zero, suc, ◌≡◌, refl, ap, List, [], ◌∷◌, Option, none, some, Bytes, Map, lookup, insert,
  bytes_eq, map, arith,
}
use zmux_server.Base.Int.{ℤ}
use Quota.{
  QuotasResource, QuotasModel, Quotas, QuotasView, EnabledOutputView, new_quotas_model, new_quotas,
  view_quotas,
}

-- `B2BClientResource`, a request
pub record ClientResource : Type 0 where
  pub name : Bytes
  pub quotas : QuotasResource

-- `B2BClientModel`, the stored form
pub record ClientModel : Type 0 where
  pub name : Bytes
  pub bearer_token : Bytes
  pub quotas : QuotasModel

-- `B2BClient`
pub record Client : Type 0 where
  pub id : ℕ
  pub name : Bytes
  pub bearer_token : Bytes
  pub quotas : Quotas

-- `B2BClientView`, a response
pub record ClientView : Type 0 where
  pub id : ℕ
  pub name : Bytes
  pub bearer_token : Bytes
  pub quotas : QuotasView
  pub channel_ids : List ℕ

unfoldable pub new_client_model : Option ClientResource → Bytes → Option ClientModel
new_client_model none token = none
new_client_model (some r) token =
    some (record { name = r.name; bearer_token = token; quotas = new_quotas_model (some r.quotas) })

unfoldable pub new_client : Option ClientModel → ℕ → Option Client
new_client none id = none
new_client (some m) id = some (record {
  id = id;
  name = m.name;
  bearer_token = m.bearer_token;
  quotas = new_quotas (some m.quotas);
})

unfoldable pub view : Option Client → ℤ → Map Bytes ℤ → ℤ → List ℕ → Option ClientView
view none channels outputs online channel_ids = none
view (some c) channels outputs online channel_ids = some (record {
  id = c.id;
  name = c.name;
  bearer_token = c.bearer_token;
  quotas = view_quotas c.quotas channels outputs online;
  channel_ids = channel_ids;
})

-- `SliceToMapByRef`: of two items with one ref the later one stays.
unfoldable pub slice_to_map_by_ref :
    List EnabledOutputView → Map Bytes EnabledOutputView → Map Bytes EnabledOutputView
slice_to_map_by_ref [] out = out
slice_to_map_by_ref (v ∷ items) out = slice_to_map_by_ref items (insert v.ref v out)
