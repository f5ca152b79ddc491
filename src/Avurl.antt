-- ===== src/Avurl.antt =====
-- pkg/avurl: the URL splitter ported from FFmpeg, its inverse, and the embedding of credentials.
-- Strings are lists of bytes. In `avurlSplit` a position into the URL is the slice that starts
-- there: `cursor` is `url[cursor:]`, and `pathAt` is the pair of `url[cursor:pathAt]` and
-- `url[pathAt:]`. So `cursor == len(url)` is that the slice is empty.
pub mod Split
pub mod Join
pub mod Userinfo
