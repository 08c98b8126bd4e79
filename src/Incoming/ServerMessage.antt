-- ===== src/Incoming/ServerMessage.antt =====
-- src/incoming.c: the APRS parser's part in `incoming_parse`, and messages to the server.
use aprsc.Prelude.{
  ℕ, ◌+◌, Bool, false, ◌&&◌, Option, none, some, List, [], ◌∷◌, ◌++◌, ◌==◌, if◌then◌else◌, Bytes,
  codes, length, take, drop, same_nocase,
}
use aprsc.Prelude.Int.{ℤ, pos, negsuc}
use aprsc.Packet.{Pbuf}
use aprsc.Qconstruct.Parse.{slice}
use aprsc.Messaging.{messaging_ack, messaging_message_client}
use aprsc.ParseAprs.Scanf.{until_nul}
use aprsc.ParseAprs.Body.{parse_aprs}
use aprsc.ParseAprs.Body.Message.{Message, no_message, no_colon, message_read, parse_aprs_message}
use aprsc.ParseAprs.{Floats, Parsing, ParseAnswer, nothing, located, refused, memory}
use aprsc.Incoming.{Aprs, Env}

-- The packet with the fields that the parser has written and that are read on the way.
unfoldable pub with_parsing : Pbuf → Parsing → Pbuf
with_parsing pb st = record pb {
  position = st.position;
  object = st.object;
  item = st.item;
  has_pos = st.has_pos;
  lat = st.lat;
  lng = st.lng;
  cos_lat = st.cos_lat;
  srcname = st.srcname;
  srcname_len = st.srcname_len;
}

-- T_MESSAGE to the address SERVER, in any letter case.
abbrev pub is_to_server : Pbuf → Bytes → Parsing → Bool
is_to_server pb beyond st =
    st.message
    && (st.dstname_len == 6
        && same_nocase (slice (memory pb beyond) st.dstname (st.dstname + 6)) (codes "SERVER"))

unfoldable pub aprs_of : Pbuf → Bytes → Option (ParseAnswer × Parsing) → Aprs
unfolding with_parsing same_nocase
aprs_of pb beyond none = record { refused = none; pb = pb; server_message = false; query = false }
aprs_of pb beyond (some (refused reason, st)) = record {
  refused = some reason;
  pb = with_parsing pb st;
  server_message = false;
  query = st.query;
}
aprs_of pb beyond (some (located, st)) = record {
  refused = none;
  pb = with_parsing pb st;
  server_message = false;
  query = st.query;
}
aprs_of pb beyond (some (nothing, st)) = record {
  refused = none;
  pb = with_parsing pb st;
  server_message = is_to_server pb beyond st;
  query = st.query;
}

-- `incoming_parse` with the parser; `beyond` is what the buffer of a packet holds behind it.
unfoldable pub with_parser : Floats → (Pbuf → Bytes) → Env → Env
unfolding aprs_of parse_aprs
with_parser fl beyond env = record env {
  parse_aprs = λ pb. aprs_of pb (beyond pb) (parse_aprs fl (beyond pb) pb);
}

-- What the server does on a message to it: lines to the client, or a filter command.
pub data ServerReply : Type 0 where
  send : Bytes → ServerReply
  filter_commands : Bytes → ServerReply

-- "%.*s" at an offset: a negative precision is as if there were none.
abbrev pub printed : Bytes → ℕ → ℤ → Bytes
printed mem i (pos n) = take n (until_nul (drop i mem))
printed mem i (negsuc n) = until_nul (drop i mem)

-- The settings of the server and the client that the replies name; `random` is the identifier's.
pub record Names : Type 0 where
  pub serverid : Bytes
  pub username : Bytes
  pub filter_s : Bytes
  pub random : List ℕ

abbrev pub says : Bytes → ℕ → Bytes → Bool
says mem i word = same_nocase (take (length word) (drop i mem)) word

-- By the text of the message, once it is acknowledged.
unfoldable pub answer_message : Names → Bytes → Message → List ServerReply
unfolding same_nocase messaging_message_client
answer_message names mem am =
    if says mem am.body (codes "filter?")
    then send (
        messaging_message_client names.serverid names.username
          (codes "filter " ++ names.filter_s ++ codes " active") names.random)
      ∷ []
    else if says mem am.body (codes "filter")
    then filter_commands (slice mem am.body (am.body + am.body_len)) ∷ []
    else send (
        messaging_message_client names.serverid names.username (codes "Unknown command")
          names.random)
      ∷ []

-- The acknowledgement of a message with an identifier, and whether it can be written.
unfoldable pub incoming_server_message :
    Names → (Bytes → Bool) → Pbuf → Bytes → Parsing → List ServerReply
unfolding parse_aprs_message messaging_ack until_nul answer_message
incoming_server_message names writes pb beyond st =
    let mem = memory pb beyond in
    elim (parse_aprs_message beyond pb st) [
      | no_message ↦ []
      | no_colon ↦ []
      | message_read am ↦ if am.is_ack then [] else elim am.msgid [
        | none ↦ answer_message names mem am
        | some i ↦
            let ack =
              messaging_ack names.serverid (printed mem st.srcname (pos st.srcname_len))
                (printed mem i am.msgid_len) in
            if writes ack then send ack ∷ answer_message names mem am else send ack ∷ []
      ]
    ]
