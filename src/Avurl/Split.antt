-- ===== src/Avurl/Split.antt =====
-- pkg/avurl/av_url_split.go
use zmux_server.Base.{
  ℕ, zero, suc, ◌-◌, Bool, true, false, ◌||◌, [], ◌∷◌, ◌++◌, Option, none, some, Bytes, ◌==◌,
  nat_eq, if◌then◌else◌, length, take, drop, codes,
}

-- `metadata`
pub record Metadata : Type 0 where
  pub has_schema : Bool
  pub slash_num : ℕ
  pub has_at_sign : Bool
  pub has_brks : Bool
  pub has_port : Bool
  pub junk : Bytes

-- The named results of `avurlSplit`.
pub record Parts : Type 0 where
  pub schema : Bytes
  pub userinfo : Bytes
  pub host : Bytes
  pub port : Bytes
  pub path : Bytes
  pub md : Metadata

-- Their initial values.
abbrev pub no_parts : Parts
no_parts = record {
  schema = [];
  userinfo = [];
  host = [];
  port = [];
  path = [];
  md = record {
    has_schema = false;
    slash_num = 0;
    has_at_sign = false;
    has_brks = false;
    has_port = false;
    junk = [];
  };
}

-- `strings.IndexByte`
unfoldable pub index_byte : ℕ → Bytes → Option ℕ
index_byte c [] = none
index_byte c (x ∷ s) =
    if x == c then some 0 else elim (index_byte c s) [ none ↦ none | some i ↦ some (suc i) ]

abbrev pub contains : Bytes → ℕ → Bool
contains [] c = false
contains (x ∷ s) c = c == x || contains s c

-- `strings.IndexAny`
unfoldable pub index_any : Bytes → Bytes → Option ℕ
index_any [] reject = none
index_any (x ∷ s) reject =
    if contains reject x
    then some 0
    else elim (index_any s reject) [ none ↦ none | some i ↦ some (suc i) ]

unfoldable pub strcspn : Bytes → Bytes → ℕ
unfolding index_any
strcspn s reject = elim (index_any s reject) [ none ↦ length s | some idx ↦ idx ]

abbrev pub is_empty : Bytes → Bool
is_empty [] = true
is_empty (x ∷ s) = false

-- `url[cursor] == c`, where the cursor is inside the URL
abbrev pub at_byte : Bytes → ℕ → Bool
at_byte [] c = false
at_byte (x ∷ s) c = x == c

-- Where the loop over '@' leaves `userinfo`, `_md.hasAtSign` and the cursor (`url[cursor:pathAt]`).
pub record Userinfo : Type 0 where
  pub info : Bytes
  pub found : Bool
  pub rest : Bytes

-- The loop over '@'. `taken` is `url[userinfoAt:cursor]`, `rest` is `url[cursor:pathAt]`. The loop
-- moves the cursor on each round, so `length rest + 1` rounds are enough. The `return` at the end
-- of the URL leaves an empty `rest`, on which the code after the loop changes nothing.
unfoldable pub userinfo_loop : ℕ → Bytes → Userinfo → Userinfo
unfolding index_byte
userinfo_loop zero taken u = u
userinfo_loop (suc fuel) taken u = elim (index_byte b'@' u.rest) [
  | none ↦ u
  | some at_sign ↦ userinfo_loop fuel (taken ++ (take at_sign u.rest ++ b'@' ∷ [])) (record {
    info = taken ++ take at_sign u.rest;
    found = true;
    rest = drop (suc at_sign) u.rest;
  })
]

unfoldable pub split_userinfo : Bytes → Userinfo
unfolding userinfo_loop
split_userinfo authority =
    userinfo_loop (suc (length authority)) []
      (record { info = []; found = false; rest = authority })

-- `host`, `port` and the metadata on them.
pub record HostPort : Type 0 where
  pub host : Bytes
  pub port : Bytes
  pub has_brks : Bool
  pub has_port : Bool
  pub junk : Bytes

-- `[host]:port`, with the closing bracket at `brk`
unfoldable pub split_brackets : ℕ → Bytes → Bytes → HostPort
split_brackets brk rest path =
    let host = take (brk - 1) (drop 1 rest) in
    let after = drop (suc brk) rest in
    if at_byte (after ++ path) b':'
    then record { host = host; port = drop 1 after; has_brks = true; has_port = true; junk = [] }
    else record { host = host; port = []; has_brks = true; has_port = false; junk = after }

-- `host:port` or `host`
unfoldable pub split_colon : Bytes → HostPort
unfolding index_byte
split_colon rest = elim (index_byte b':' rest) [
  | some colon ↦ record {
    host = take colon rest;
    port = drop (suc colon) rest;
    has_brks = false;
    has_port = true;
    junk = [];
  }
  | none ↦ record { host = rest; port = []; has_brks = false; has_port = false; junk = [] }
]

unfoldable pub split_host : Bytes → Bytes → HostPort
unfolding index_byte split_brackets split_colon
split_host rest path = elim (index_byte b']' rest) [
  | some brk ↦ if at_byte rest b'[' then split_brackets brk rest path else split_colon rest
  | none ↦ split_colon rest
]

-- From `pathAt` on: `authority` is `url[cursor:pathAt]`.
unfoldable pub split_authority : Parts → Bytes → Parts
unfolding split_userinfo split_host
split_authority p authority =
    if is_empty authority
    then p
    else (let u = split_userinfo authority in
        let h = split_host u.rest p.path in
        record p {
          userinfo = u.info;
          host = h.host;
          port = h.port;
          md = record {
            has_schema = p.md.has_schema;
            slash_num = p.md.slash_num;
            has_at_sign = u.found;
            has_brks = h.has_brks;
            has_port = h.has_port;
            junk = h.junk;
          };
        })

unfoldable pub split_path : Parts → Bytes → Parts
unfolding strcspn split_authority
split_path p rest =
    let n = strcspn rest (codes "/?#") in
    split_authority (record p { path = drop n rest }) (take n rest)

abbrev pub bump : Parts → Parts
bump p = record p { md = record (p.md) { slash_num = suc p.md.slash_num } }

-- The second `if url[cursor] == '/'`, with its return at the end of the URL.
unfoldable pub second_slash : Parts → Bytes → Parts
unfolding split_path
second_slash p [] = p
second_slash p (c ∷ s) =
    if c == b'/'
    then (if is_empty s then bump p else split_path (bump p) s)
    else split_path p (c ∷ s)

-- The first one.
unfoldable pub first_slash : Parts → Bytes → Parts
unfolding second_slash
first_slash p [] = p
first_slash p (c ∷ s) = if c == b'/' then second_slash (bump p) s else second_slash p (c ∷ s)

unfoldable pub avurl_split : Bytes → Parts
unfolding index_byte first_slash
avurl_split url = elim (index_byte b':' url) [
  | some colon ↦
      first_slash
        (record no_parts {
          schema = take colon url;
          md = record (no_parts.md) { has_schema = true };
        })
        (drop (suc colon) url)
  | none ↦ record no_parts { path = url }
]
