-- ===== src/Avurl/Userinfo.antt =====
-- pkg/avurl/av_url.go: credentials put into a URL, and the parse without checks.
pub mod Laws
use zmux_server.Base.{
  Bool, true, false, [], ◌∷◌, ◌++◌, Option, none, some, Bytes, bytes_eq, nat_eq, ◌==◌,
  if◌then◌else◌, codes,
}
use zmux_server.Avurl.Split.{avurl_split}
use zmux_server.Avurl.Join.{avurl_join}

-- The replacers: each replaces single bytes, independently of one another.
unfoldable pub escap_username : Bytes → Bytes
escap_username [] = []
escap_username (c ∷ s) =
    (if c == b'/'
      then codes "%2F"
      else if c == b'?'
      then codes "%3F"
      else if c == b'#'
      then codes "%23"
      else if c == b':'
      then codes "%3A"
      else c ∷ [])
    ++ escap_username s

unfoldable pub escap_password : Bytes → Bytes
escap_password [] = []
escap_password (c ∷ s) =
    (if c == b'/'
      then codes "%2F"
      else if c == b'?'
      then codes "%3F"
      else if c == b'#'
      then codes "%23"
      else c ∷ [])
    ++ escap_password s

-- The userinfo that is put in.
unfoldable pub new_userinfo : Option Bytes → Option Bytes → Bytes
unfolding escap_username escap_password
new_userinfo none password = []
new_userinfo (some u) none = escap_username u
new_userinfo (some u) (some p) = escap_username u ++ (codes ":" ++ escap_password p)

abbrev pub is_given : Option Bytes → Bool
is_given none = false
is_given (some u) = true

unfoldable pub embedd_userinfo : Option Bytes → Option Bytes → Option Bytes → Option Bytes
unfolding avurl_split avurl_join new_userinfo
embedd_userinfo none username password = none
embedd_userinfo (some url) username password =
    let p = avurl_split url in
    some (
      avurl_join (record p {
        userinfo = new_userinfo username password;
        md = record (p.md) { has_at_sign = if is_given username then true else p.md.has_at_sign };
      }))

-- `URL`
pub record Url : Type 0 where
  pub schema : Bytes
  pub userinfo : Bytes
  pub host : Bytes
  pub port : Bytes
  pub path : Bytes

-- `none` is the error "unable to parse URL".
unfoldable pub raw_parse : Bytes → Option Url
unfolding avurl_split avurl_join
raw_parse url =
    let p = avurl_split url in
    if url == avurl_join p
    then some (record {
      schema = p.schema;
      userinfo = p.userinfo;
      host = p.host;
      port = p.port;
      path = p.path;
    })
    else none
