-- ===== src/Avurl/Userinfo/Laws.antt =====
-- RawParse (pkg/avurl/av_url.go) over the split and the join.
use zmux_server.Base.{◌≡◌, refl, sym, true, some, Bytes, bytes_eq, bytes_beq_iff, ◌==◌}
use zmux_server.Avurl.Split.{avurl_split}
use zmux_server.Avurl.Join.{avurl_join}
use zmux_server.Avurl.Join.Laws.{join-split}
use zmux_server.Avurl.Userinfo.{raw_parse}

-- `RawParse` accepts every byte string, with the parts that the split gives: its error cannot
-- occur.
pub raw_parse_lem :
    (url : Bytes)
    → raw_parse url
      ≡ some (record {
        schema = (avurl_split url).schema;
        userinfo = (avurl_split url).userinfo;
        host = (avurl_split url).host;
        port = (avurl_split url).port;
        path = (avurl_split url).path;
      })
unfolding raw_parse
raw_parse_lem url =
    let same : (url == avurl_join (avurl_split url)) ≡ true =
      (bytes_beq_iff url (avurl_join (avurl_split url))).1 (sym (join-split url)) in
    rw same refl
