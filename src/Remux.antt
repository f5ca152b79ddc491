-- ===== src/Remux.antt =====
-- pkg/remuxcmd: the command line of `remux` for a channel. A builder is the list of its arguments.
pub mod Decimal
pub mod Quote
pub mod Laws
use zmux_server.Base.{
  ℕ, Bool, true, false, List, [], ◌∷◌, ◌++◌, Option, none, some, Bytes, if◌then◌else◌, codes, map,
}
use zmux_server.Base.Int.{ℤ}
use zmux_server.Avurl.Userinfo.{embedd_userinfo}
use zmux_server.Channel.Types.{Channel, Output}
use zmux_server.Channel.Outputs.{has_video, has_audio, has_data}
use Decimal.{format_uint, format_int}
use Quote.{sh_quote, join_words}

abbrev pub Builder : Type 0
Builder = List Bytes

unfoldable pub new_builder : Builder
new_builder = codes "remux" ∷ []

unfoldable pub with_int64_flag : Bytes → ℤ → Builder → Builder
unfolding format_int
with_int64_flag flag val b = b ++ (flag ∷ format_int val ∷ [])

unfoldable pub with_int_flag : Bytes → ℤ → Builder → Builder
unfolding format_int
with_int_flag flag val b = b ++ (flag ∷ format_int val ∷ [])

unfoldable pub with_uint_flag : Bytes → ℕ → Builder → Builder
unfolding format_uint
with_uint_flag flag val b = b ++ (flag ∷ format_uint val ∷ [])

unfoldable pub with_string_flag : Bytes → Bytes → Builder → Builder
with_string_flag flag [] b = b
with_string_flag flag (c ∷ val) b = b ++ (flag ∷ (c ∷ val) ∷ [])

unfoldable pub with_string_p_flag : Bytes → Option Bytes → Builder → Builder
with_string_p_flag flag none b = b
with_string_p_flag flag (some []) b = b
with_string_p_flag flag (some (c ∷ val)) b = b ++ (flag ∷ (c ∷ val) ∷ [])

unfoldable pub with_bool_flag : Bytes → Bool → Builder → Builder
with_bool_flag flag val b =
    if val then b ++ ((flag ++ codes "=true") ∷ []) else b ++ ((flag ++ codes "=false") ∷ [])

unfoldable pub with_string : Bytes → Builder → Builder
with_string [] b = b
with_string (c ∷ arg) b = b ++ ((c ∷ arg) ∷ [])

unfoldable pub with_string_p : Option Bytes → Builder → Builder
with_string_p none b = b
with_string_p (some []) b = b
with_string_p (some (c ∷ arg)) b = b ++ ((c ∷ arg) ∷ [])

-- One round of the loop over the outputs.
unfoldable pub with_output : Output → Builder → Builder
unfolding with_string with_string_p with_string_p_flag with_string_flag with_bool_flag
with_output out b =
    if out.enabled
    then (let b1 = with_string_p out.url (with_string (codes "--output") b) in
        let b2 = with_string_p_flag (codes "--localaddr") out.localaddr b1 in
        let b3 = with_string_flag (codes "--pkt-size") (format_uint out.pkt_size) b2 in
        let b4 = with_bool_flag (codes "--map-video") (has_video out.stream_mapping) b3 in
        let b5 = with_bool_flag (codes "--map-audio") (has_audio out.stream_mapping) b4 in
        with_bool_flag (codes "--map-data") (has_data out.stream_mapping) b5)
    else b

unfoldable pub with_outputs : List Output → Builder → Builder
unfolding with_output
with_outputs [] b = b
with_outputs (out ∷ outs) b = with_outputs outs (with_output out b)

-- The flags and the input, up to the loop over the outputs.
unfoldable pub with_input : Channel → Builder → Builder
unfolding with_string with_string_p with_string_p_flag with_string_flag with_bool_flag
with_input c b =
    let i = c.input in
    let b1 = with_string_flag (codes "--id") (format_uint c.id) b in
    let b2 = with_bool_flag (codes "--interactive") c.interactive b1 in
    let b3 = with_string (codes "--input") b2 in
    let b4 = with_string_p (embedd_userinfo i.url i.username i.password) b3 in
    let b5 = with_string_p_flag (codes "--avioflags") i.avioflags b4 in
    let b6 = with_string_flag (codes "--probesize") (format_uint i.probesize) b5 in
    let b7 = with_string_flag (codes "--analyzeduration") (format_uint i.analyzeduration) b6 in
    let b8 = with_string_p_flag (codes "--fflags") i.fflags b7 in
    let b9 = with_string_flag (codes "--max-delay") (format_int i.max_delay) b8 in
    let b10 = with_string_p_flag (codes "--localaddr") i.localaddr b9 in
    let b11 = with_string_flag (codes "--timeout") (format_uint i.timeout) b10 in
    with_string_p_flag (codes "--rtsp-transport") i.rtsp_transport b11

unfoldable pub from_channel : Channel → Builder
unfolding new_builder with_input with_outputs
from_channel c = with_outputs c.outputs (with_input c new_builder)

-- `BuildArgv`; the copy holds the same arguments.
unfoldable pub build_argv : Channel → List Bytes
unfolding from_channel
build_argv c = from_channel c

unfoldable pub build_string : Builder → Bytes
unfolding sh_quote join_words
build_string b = join_words (map sh_quote b)
