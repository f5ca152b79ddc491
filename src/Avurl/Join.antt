-- ===== src/Avurl/Join.antt =====
-- pkg/avurl/av_url_join.go
pub mod Laws
use zmux_server.Base.{Bool, true, false, [], ◌∷◌, ◌++◌, Bytes, replicate, if◌then◌else◌, codes}
use zmux_server.Avurl.Split.{Parts, Metadata}

abbrev pub at_sign : Bool → Bytes
at_sign b = if b then codes "@" else []

abbrev pub host_with_brks : Bytes → Bool → Bytes
host_with_brks host has_brks = if has_brks then codes "[" ++ (host ++ codes "]") else host

abbrev pub colon : Bool → Bytes
colon b = if b then codes ":" else []

unfoldable pub avurl_join : Parts → Bytes
avurl_join p =
    p.schema
    ++ (colon p.md.has_schema
        ++ (replicate p.md.slash_num b'/'
            ++ (p.userinfo
                ++ (at_sign p.md.has_at_sign
                    ++ (host_with_brks p.host p.md.has_brks
                        ++ (colon p.md.has_port ++ (p.port ++ (p.md.junk ++ p.path))))))))
