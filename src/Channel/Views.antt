-- ===== src/Channel/Views.antt =====
-- internal/domain/channel/transformers.go and views: what a client and an administrator see.
use zmux_server.Base.{
  ℕ, suc, ◌≡◌, ◌≢◌, ◌⊎◌, refl, ◌∙◌, Bool, true, false, ◌||◌, List, [], ◌∷◌, Option, none, some,
  Bytes, bytes_eq, bytes_beq_iff, ◌==◌, codes, map, if◌then◌else◌, Map, lookup, insert,
  lookup-insert, Bool-cases, inl, inr,
}
use zmux_server.Base.Int.{ℤ}
use zmux_server.Channel.Types.{Output, Channel}
use zmux_server.Channel.Outputs.{OutputEntry, outputs_from, outputs_by_ref}

-- `B2BClientOutput`
pub record ClientOutput : Type 0 where
  pub enabled : Bool

-- `B2BClientInput`
pub record ClientInput : Type 0 where
  pub url : Option Bytes
  pub username : Option Bytes
  pub password : Option Bytes

-- `B2BClientZmuxChannel`; a nil map of outputs is `none`.
pub record ClientChannel : Type 0 where
  pub id : ℕ
  pub name : Option Bytes
  pub input : ClientInput
  pub outputs : Option (Map Bytes ClientOutput)
  pub enabled : Bool

unfoldable pub is_exported : Bytes → Bool
is_exported ref =
    ref == codes "onprem_mr01" || ref == codes "onprem_mz01" || ref == codes "pubcloud_sky320"

-- The loop over the outputs, once the map is made.
unfoldable pub view_outputs : List Output → Map Bytes ClientOutput → Map Bytes ClientOutput
unfolding is_exported
view_outputs [] m = m
view_outputs (o ∷ os) m =
    view_outputs os
      (if is_exported o.ref then insert o.ref (record { enabled = o.enabled }) m else m)

unfoldable pub client_outputs : List Output → Option (Map Bytes ClientOutput)
unfolding view_outputs
client_outputs [] = none
client_outputs (o ∷ os) = some (view_outputs (o ∷ os) [])

unfoldable pub b2b_client_view : Channel → ClientChannel
unfolding client_outputs
b2b_client_view ch = record {
  id = ch.id;
  name = ch.name;
  input = record { url = ch.input.url; username = ch.input.username; password = ch.input.password };
  outputs = client_outputs ch.outputs;
  enabled = ch.enabled;
}

pub record AdminInput : Type 0 where
  pub url : Option Bytes
  pub username : Option Bytes
  pub password : Option Bytes
  pub avioflags : Option Bytes
  pub probesize : ℕ
  pub analyzeduration : ℕ
  pub fflags : Option Bytes
  pub max_delay : ℤ
  pub localaddr : Option Bytes
  pub timeout : ℕ
  pub rtsp_transport : Option Bytes

pub record AdminOutput : Type 0 where
  pub ref : Bytes
  pub url : Option Bytes
  pub localaddr : Option Bytes
  pub pkt_size : ℕ
  pub stream_mapping : List Bytes
  pub enabled : Bool

-- `AdminZmuxChannel`
pub record AdminChannel : Type 0 where
  pub id : ℕ
  pub b2b_client_id : Option ℕ
  pub name : Option Bytes
  pub input : AdminInput
  pub outputs : List AdminOutput
  pub enabled : Bool
  pub restart_sec : ℕ

unfoldable pub admin_output : Output → AdminOutput
admin_output o = record {
  ref = o.ref;
  url = o.url;
  localaddr = o.localaddr;
  pkt_size = o.pkt_size;
  stream_mapping = o.stream_mapping;
  enabled = o.enabled;
}

unfoldable pub admin_view : Channel → AdminChannel
unfolding admin_output
admin_view ch = record {
  id = ch.id;
  b2b_client_id = ch.b2b_client_id;
  name = ch.name;
  input = record {
    url = ch.input.url;
    username = ch.input.username;
    password = ch.input.password;
    avioflags = ch.input.avioflags;
    probesize = ch.input.probesize;
    analyzeduration = ch.input.analyzeduration;
    fflags = ch.input.fflags;
    max_delay = ch.input.max_delay;
    localaddr = ch.input.localaddr;
    timeout = ch.input.timeout;
    rtsp_transport = ch.input.rtsp_transport;
  };
  outputs = map admin_output ch.outputs;
  enabled = ch.enabled;
  restart_sec = ch.restart_sec;
}

-- What the client sees of one output.
abbrev pub seen : Option OutputEntry → Option ClientOutput
seen none = none
seen (some e) = some (record { enabled = e.output.enabled })

-- Both maps of outputs say the same of every ref that is shown, and the shown map has no other.
abbrev Agree : Map Bytes ClientOutput → Map Bytes OutputEntry → Type 0
Agree m n = (r : Bytes) → lookup r m ≡ (if is_exported r then seen (lookup r n) else none)

same_ref :
    (a r : Bytes) (i : ℕ) (o : Output) (m : Map Bytes ClientOutput) (n : Map Bytes OutputEntry)
    → (a == r) ≡ true
    → is_exported a ≡ true
    → lookup r (insert a (record { enabled = o.enabled }) m) ≡ (
        if is_exported r
        then seen (lookup r (insert a (record { index = i; output = o }) n))
        else none)
same_ref a r i o m n e x = rw (
  lookup-insert a r (record { enabled = o.enabled }) m,
  lookup-insert a r (record { index = i; output = o }) n,
  e,
  ← (bytes_beq_iff a r).0 e,
  x,
)

Agree-insert :
    (i : ℕ) (o : Output) (m : Map Bytes ClientOutput) (n : Map Bytes OutputEntry)
    → Agree m n
    → Agree
        (if is_exported o.ref then insert o.ref (record { enabled = o.enabled }) m else m)
        (insert o.ref (record { index = i; output = o }) n)
Agree-insert i o m n h r = elim (Bool-cases (is_exported o.ref)) [
  | inl shown ↦ elim (Bool-cases (o.ref == r)) [
    | inl e ↦ rw shown (same_ref o.ref r i o m n e shown)
    | inr ne ↦
        rw
          (
            shown,
            lookup-insert o.ref r (record { enabled = o.enabled }) m,
            lookup-insert o.ref r (record { index = i; output = o }) n,
            ne,
          )
          (h r)
  ]
  | inr hidden ↦ elim (Bool-cases (o.ref == r)) [
    | inl e ↦
        let hidden' : is_exported r ≡ false = rw (← (bytes_beq_iff o.ref r).0 e) hidden in
        rw (hidden, hidden') (h r ∙ rw hidden')
    | inr ne ↦ rw (hidden, lookup-insert o.ref r (record { index = i; output = o }) n, ne) (h r)
  ]
]

view_outputs-Agree :
    (i : ℕ) (os : List Output) (m : Map Bytes ClientOutput) (n : Map Bytes OutputEntry)
    → Agree m n
    → Agree (view_outputs os m) (outputs_from i os n)
unfolding view_outputs outputs_from
view_outputs-Agree i [] m n h = h
view_outputs-Agree i (o ∷ os) m n h =
    view_outputs-Agree (suc i) os
      (if is_exported o.ref then insert o.ref (record { enabled = o.enabled }) m else m)
      (insert o.ref (record { index = i; output = o }) n) (Agree-insert i o m n h)

-- The refs that are shown to clients.
abbrev pub IsExportedRef : Bytes → Type 0
IsExportedRef r =
    (r ≡ codes "onprem_mr01") ⊎ (r ≡ codes "onprem_mz01") ⊎ (r ≡ codes "pubcloud_sky320")

is_exported-IsExportedRef : (r : Bytes) → is_exported r ≡ true → IsExportedRef r
unfolding is_exported
is_exported-IsExportedRef r h = elim (Bool-cases (r == codes "onprem_mr01")) [
  | inl a ↦ inl ((bytes_beq_iff r (codes "onprem_mr01")).0 a)
  | inr a ↦ elim (Bool-cases (r == codes "onprem_mz01")) [
    | inl b ↦ inr (inl ((bytes_beq_iff r (codes "onprem_mz01")).0 b))
    | inr b ↦
        inr (inr ((bytes_beq_iff r (codes "pubcloud_sky320")).0 (rw (is_exported, a, b) at h)))
  ]
]

IsExportedRef-is_exported : (r : Bytes) → IsExportedRef r → is_exported r ≡ true
unfolding is_exported
IsExportedRef-is_exported r (inl e) = rw e refl
IsExportedRef-is_exported r (inr (inl e)) = rw e refl
IsExportedRef-is_exported r (inr (inr e)) = rw e refl

-- What the map of a client's view holds under a ref, given what `OutputsByRef` finds there.
abbrev pub ShowsRef : Map Bytes ClientOutput → Map Bytes OutputEntry → Bytes → Type 0
ShowsRef m n r =
    (IsExportedRef r × (lookup r m ≡ seen (lookup r n)))
    ⊎ ((¬ (IsExportedRef r)) × (lookup r m ≡ none))

Agree-ShowsRef :
    (m : Map Bytes ClientOutput) (n : Map Bytes OutputEntry) (r : Bytes)
    → Agree m n
    → ShowsRef m n r
Agree-ShowsRef m n r h = elim (Bool-cases (is_exported r)) [
  | inl shown ↦ inl (is_exported-IsExportedRef r shown, rw shown at (h r))
  | inr hidden ↦ inr (λ e. absurd (cc (hidden, IsExportedRef-is_exported r e)), rw hidden at (h r))
]

-- The two cases of the outputs in a client's view: null, or a map.
abbrev pub ShowsOutputs : List Output → Option (Map Bytes ClientOutput) → Type 0
ShowsOutputs os none = os ≡ []
ShowsOutputs os (some m) = (os ≢ []) × ((r : Bytes) → ShowsRef m (outputs_by_ref os) r)

client_outputs-ShowsOutputs : (os : List Output) → ShowsOutputs os (client_outputs os)
unfolding client_outputs outputs_by_ref lookup
client_outputs-ShowsOutputs [] = refl
client_outputs-ShowsOutputs (o ∷ os) = (
  λ e. absurd (cc e),
  λ r.
      Agree-ShowsRef (view_outputs (o ∷ os) []) (outputs_from 0 (o ∷ os) []) r
        (view_outputs-Agree 0 (o ∷ os) [] [] nothing),
)
  where
    nothing : Agree [] []
    nothing r = elim (Bool-cases (is_exported r)) [ inl e ↦ rw e | inr e ↦ rw e ]

-- The outputs in the view of a client are null exactly when the channel has none. Otherwise they
-- are a map with what `OutputsByRef` finds under the refs onprem_mr01, onprem_mz01 and
-- pubcloud_sky320, each output with its enabled flag alone, and with nothing under another ref.
pub b2b_client_view-outputs : (ch : Channel) → ShowsOutputs ch.outputs (b2b_client_view ch).outputs
unfolding b2b_client_view
b2b_client_view-outputs ch = client_outputs-ShowsOutputs ch.outputs
