-- ===== src/Tests/Stations.antt =====
-- A station on the heard list of src/client_heard.c.
use aprsc.Prelude.{false, ◌≡◌, refl, arith, true, [], ◌∷◌, codes, same_nocase}
use aprsc.ClientHeard.{HeardList, heard_list_update}
use aprsc.Prelude.Int.{pos}
use aprsc.Packet.{Pbuf}
use aprsc.ParseAprs.{Parsing}
use aprsc.ParseAprs.Body.{before_parsing}
use aprsc.Filter.Process.{Filters, filter_process}
use aprsc.Filter.Igate.{Igate, recipient, igate_support}
use aprsc.Filter.Igate.Messages.{message_to_heard_passes}
use aprsc.Tests.Parser.{integers}
use aprsc.Tests.Purge.{packet}

abbrev list : HeardList
list = record {
  buckets = λ i. record { hash = i; last_heard = 90; callsign = codes "N0X-9" } ∷ [];
  entrycount = 32;
  cells = 4;
}

abbrev igate : Igate
igate = record { is_igate = true; username = codes "OH7AA"; heard = list; courtesy = list }

abbrev message_packet : Pbuf
message_packet = record (packet 1 100) { bytes = codes "SRC>APRS::OH7LZB-9 :hello\r\n" }

-- Its recipient is in upper case.
abbrev parsed_message : Parsing
parsed_message = record (before_parsing integers [] message_packet false) {
  message = true;
  dstname = 10;
  dstname_len = 8;
}

abbrev no_filters : Filters
no_filters = record {
  igate_passes = false;
  negdefault = [];
  posdefault = [];
  neguser = [];
  posuser = [];
}

one_call : same_nocase (codes "oh7lzb-9") (recipient [] message_packet parsed_message) ≡ true
unfolding same_nocase
one_call = refl

message_to_heard_passes_example :
    filter_process
      (λ f. pos 0)
      (λ f. pos 0)
      (record no_filters {
        igate_passes =
            (igate_support
              (record igate { heard = heard_list_update (codes "oh7lzb-9") 100 list })
              []
              message_packet
              parsed_message).0;
      })
    ≡ pos 1
message_to_heard_passes_example =
    message_to_heard_passes igate [] message_packet parsed_message (codes "oh7lzb-9") 100
      (λ f. pos 0) (λ f. pos 0) no_filters refl refl (λ e. cc) one_call (omega arith) (omega arith)
