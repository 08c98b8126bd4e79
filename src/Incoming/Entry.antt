-- ===== src/Incoming/Entry.antt =====
-- src/incoming.c: the end of `incoming_parse`, from the APRS parser on, and `incoming_handler`.
use aprsc.Prelude.{
  ℕ, Bool, not, ◌&&◌, Option, none, some, ltb, ◌==◌, if◌then◌else◌, Bytes, codes, length, drop,
  get_or, memmem,
}
use aprsc.Packet.{Pbuf}
use aprsc.Client.{Client}
use aprsc.Incoming.Error.{
  InError, disallow_unverified, disallow_unverified_path, general_query, Checked, passed, dropped,
}
use aprsc.Incoming.Callsign.{memcasestr}
use aprsc.Incoming.Quirks.{quirked}
use aprsc.Incoming.{Env, Assembled, assemble}

-- What becomes of a packet that is not dropped: it goes to the worker's queue, and its source is
-- heard if the flag says so; or it is a message to the server; or its buffer is freed.
pub data Entry : Type 0 where
  queued : Pbuf → Bool → Entry
  to_server : Pbuf → Entry
  freed : Entry

-- The result of the parse, and the packet that the client's location is taken from, if any.
pub record Handled : Type 0 where
  pub result : Checked Entry
  pub location : Option Pbuf

abbrev pub no_location : Checked Entry → Handled
no_location result = record { result = result; location = none }

-- `disallow_unverified`: the client's own state, and the path that it sent.
abbrev pub unverified : Env → Client → Bytes → Option InError
unverified env c via =
    if not env.server.disallow_unverified
    then none
    else if not c.validated
    then some disallow_unverified
    else elim (memmem (codes ",TCPXX") via) [ none ↦ none | some _ ↦ some disallow_unverified_path ]

-- After the parser: messages to the server, queries, the client's location, unverified clients.
unfoldable pub admit : Env → Client → Assembled → Handled
admit env c a =
    let aprs = env.parse_aprs a.pb in
    elim aprs.refused [
      | some reason ↦ no_location (dropped reason)
      | none ↦
          if aprs.server_message
          then no_location (passed (if a.own then to_server aprs.pb else freed))
          else if aprs.query
          then no_location (dropped general_query)
          else record {
            result = elim (unverified env c a.via) [
              | some reason ↦ dropped reason
              | none ↦ passed (queued (env.filter_preprocess aprs.pb) c.igate)
            ];
            location = if a.own && aprs.pb.position then some aprs.pb else none;
          }
    ]

abbrev pub admitted : Env → Client → Checked (Option Assembled) → Handled
admitted env c (dropped reason) = no_location (dropped reason)
admitted env c (passed none) = no_location (passed freed)
admitted env c (passed (some a)) = admit env c a

abbrev pub as_sent : Client → Bytes → Checked Bytes
as_sent c s = if c.quirks_mode then quirked s else passed s

abbrev pub parsed : Env → Client → Checked Bytes → Handled
parsed env c (dropped reason) = no_location (dropped reason)
parsed env c (passed s) = admitted env c (assemble env c s)

unfoldable pub incoming_parse : Env → Client → Bytes → Handled
incoming_parse env c s = parsed env c (as_sent c s)

-- `PACKETLEN_MAX` without the line end
abbrev pub packetlen_max : ℕ
packetlen_max = 510

-- A line is too long, a comment with or without a filter command in it, or a packet.
pub data Line : Type 0 where
  too_long : Line
  comment : Option Bytes → Line
  packet : Handled → Line

-- `commands_ok` is that the line did not come by UDP and CLFLAGS_USERFILTEROK.
unfoldable pub incoming_handler : Env → Client → Bool → Bytes → Line
incoming_handler env c commands_ok s =
    if ltb packetlen_max (length s)
    then too_long
    else if get_or s 0 0 == b'#'
    then comment (
        if commands_ok
        then elim (memcasestr (codes "filter") s) [ none ↦ none | some i ↦ some (drop i s) ]
        else none)
    else packet (incoming_parse env c s)
