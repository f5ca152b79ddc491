-- ===== src/Remux/Laws.antt =====
-- What the command line of a channel holds (pkg/remuxcmd/builder.go and from_channel.go).
use zmux_server.Base.{
  ℕ, ◌≡◌, ◌≢◌, refl, ap, ◌∙◌, Bool, true, false, List, [], ◌∷◌, ◌++◌, Option, none, some, Bytes,
  if◌then◌else◌, codes, All, All-append, Bool-cases, inl, inr,
}
use zmux_server.Channel.Types.{Channel, Output}
use zmux_server.Channel.Outputs.{has_video, has_audio, has_data}
use zmux_server.Avurl.Userinfo.{embedd_userinfo}
use zmux_server.Remux.Decimal.{format_uint, format_int}
use zmux_server.Remux.Quote.{sh_words, blank, words-join_words}
use zmux_server.Remux.{
  Builder, new_builder, with_string_flag, with_string_p_flag, with_bool_flag, with_string,
  with_string_p, with_output, with_outputs, with_input, from_channel, build_argv, build_string,
}

-- A POSIX shell that reads the command string of a channel gets exactly the argument vector.
pub words-build_string :
    (c : Channel) → sh_words blank (build_string (from_channel c)) ≡ some (build_argv c)
unfolding build_string build_argv
words-build_string c = unfold from_channel in words-join_words (from_channel c)

abbrev pub enabled_only : List Output → List Output
enabled_only [] = []
enabled_only (o ∷ os) = if o.enabled then o ∷ enabled_only os else enabled_only os

with_outputs-enabled_only :
    (os : List Output) (b : Builder) → with_outputs (enabled_only os) b ≡ with_outputs os b
unfolding with_outputs with_output
with_outputs-enabled_only [] b = refl
with_outputs-enabled_only (o ∷ os) b = elim (Bool-cases o.enabled) [
  | inl on ↦
      let kept : enabled_only (o ∷ os) ≡ o ∷ enabled_only os = rw on in
      ap (λ l. with_outputs l b) kept ∙ with_outputs-enabled_only os (with_output o b)
  | inr off ↦
      let skipped : b ≡ with_output o b = rw off in
      let dropped : enabled_only (o ∷ os) ≡ enabled_only os = rw off in
      ap (λ l. with_outputs l b) dropped
      ∙ (with_outputs-enabled_only os b ∙ ap (with_outputs os) skipped)
]

-- The argument vector of a channel is that of the channel with its disabled outputs left out.
pub build_argv-enabled_only :
    (c : Channel) → build_argv (record c { outputs = enabled_only c.outputs }) ≡ build_argv c
unfolding build_argv from_channel
build_argv-enabled_only c = with_outputs-enabled_only c.outputs (with_input c new_builder)

abbrev pub IsFilled : Bytes → Type 0
IsFilled w = w ≢ []

-- A builder without an empty argument.
record Filled (b : Builder) : Type 0 where
  args : All IsFilled b

append-Filled : {b : Builder} → Filled b → (more : Builder) → All IsFilled more → Filled (b ++ more)
append-Filled {b} h more m = record { args = All-append IsFilled b more h.args m }

module _ {b : Builder} (h : Filled b) where
  with_string_flag-Filled :
      (flag : Bytes) → IsFilled flag → (val : Bytes) → Filled (with_string_flag flag val b)
  unfolding with_string_flag
  with_string_flag-Filled flag f [] = h
  with_string_flag-Filled flag f (c ∷ val) = append-Filled h _ (f, ((λ e. cc), tt))

  with_string_p_flag-Filled :
      (flag : Bytes) → IsFilled flag → (val : Option Bytes) → Filled (with_string_p_flag flag val b)
  unfolding with_string_p_flag
  with_string_p_flag-Filled flag f none = h
  with_string_p_flag-Filled flag f (some []) = h
  with_string_p_flag-Filled flag f (some (c ∷ val)) = append-Filled h _ (f, ((λ e. cc), tt))

  with_bool_flag-Filled :
      (c : ℕ) (flag : Bytes) (val : Bool) → Filled (with_bool_flag (c ∷ flag) val b)
  unfolding with_bool_flag
  with_bool_flag-Filled c flag true = append-Filled h _ ((λ e. cc), tt)
  with_bool_flag-Filled c flag false = append-Filled h _ ((λ e. cc), tt)

  with_string-Filled : (arg : Bytes) → Filled (with_string arg b)
  unfolding with_string
  with_string-Filled [] = h
  with_string-Filled (c ∷ arg) = append-Filled h _ ((λ e. cc), tt)

  with_string_p-Filled : (arg : Option Bytes) → Filled (with_string_p arg b)
  unfolding with_string_p
  with_string_p-Filled none = h
  with_string_p-Filled (some []) = h
  with_string_p-Filled (some (c ∷ arg)) = append-Filled h _ ((λ e. cc), tt)

with_output-Filled : {b : Builder} (o : Output) → Filled b → Filled (with_output o b)
unfolding with_output
with_output-Filled {b} o h = elim (Bool-cases o.enabled) [
  | inr off ↦ rw off h
  | inl on ↦
      let h1 = with_string_p-Filled (with_string-Filled h (codes "--output")) o.url in
      let h2 = with_string_p_flag-Filled h1 (codes "--localaddr") (λ e. cc) o.localaddr in
      let h3 = with_string_flag-Filled h2 (codes "--pkt-size") (λ e. cc) (format_uint o.pkt_size) in
      let h4 = with_bool_flag-Filled h3 45 (codes "-map-video") (has_video o.stream_mapping) in
      let h5 = with_bool_flag-Filled h4 45 (codes "-map-audio") (has_audio o.stream_mapping) in
      rw on (with_bool_flag-Filled h5 45 (codes "-map-data") (has_data o.stream_mapping))
]

with_outputs-Filled : {b : Builder} (os : List Output) → Filled b → Filled (with_outputs os b)
unfolding with_outputs
with_outputs-Filled [] h = h
with_outputs-Filled {b} (o ∷ os) h =
    with_outputs-Filled {b = with_output o b} os (with_output-Filled o h)

with_input-Filled : {b : Builder} (c : Channel) → Filled b → Filled (with_input c b)
unfolding with_input
with_input-Filled c h0 =
    let i = c.input in
    let h1 = with_string_flag-Filled h0 (codes "--id") (λ e. cc) (format_uint c.id) in
    let h2 = with_bool_flag-Filled h1 45 (codes "-interactive") c.interactive in
    let h3 = with_string-Filled h2 (codes "--input") in
    let h4 = with_string_p-Filled h3 (embedd_userinfo i.url i.username i.password) in
    let h5 = with_string_p_flag-Filled h4 (codes "--avioflags") (λ e. cc) i.avioflags in
    let h6 = with_string_flag-Filled h5 (codes "--probesize") (λ e. cc) (format_uint i.probesize) in
    let h7 =
      with_string_flag-Filled h6 (codes "--analyzeduration") (λ e. cc)
        (format_uint i.analyzeduration) in
    let h8 = with_string_p_flag-Filled h7 (codes "--fflags") (λ e. cc) i.fflags in
    let h9 = with_string_flag-Filled h8 (codes "--max-delay") (λ e. cc) (format_int i.max_delay) in
    let h10 = with_string_p_flag-Filled h9 (codes "--localaddr") (λ e. cc) i.localaddr in
    let h11 = with_string_flag-Filled h10 (codes "--timeout") (λ e. cc) (format_uint i.timeout) in
    with_string_p_flag-Filled h11 (codes "--rtsp-transport") (λ e. cc) i.rtsp_transport

new_builder-Filled : Filled new_builder
unfolding new_builder
new_builder-Filled = record { args = ((λ e. cc), tt) }

-- No argument of the vector of a channel is the empty string.
pub build_argv-IsFilled : (c : Channel) → All IsFilled (build_argv c)
unfolding build_argv from_channel
build_argv-IsFilled c =
    (with_outputs-Filled c.outputs (with_input-Filled c new_builder-Filled)).args
