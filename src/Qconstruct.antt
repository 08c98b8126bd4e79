-- ===== src/Qconstruct.antt =====
-- src/parse_qc.c: the Q construct of a packet, in the order of `q_process`. The packet is the bytes
-- `pdata`, pointers into it are offsets, and generated text is returned whole: its length is what
-- the source returns. `Parse` finds an existing construct, and `Drop` is `q_dropcheck`.
pub mod Parse
pub mod Drop
pub mod Ends
pub mod Branches
pub mod Kept
pub mod Construct
pub mod Fits
pub mod Within
use aprsc.Prelude.{
  ℕ, zero, suc, ◌+◌, ◌-◌, Bool, true, false, not, ◌&&◌, ◌||◌, Option, none, some, List, [], ◌∷◌,
  ◌++◌, ltb, leb, ◌==◌, if◌then◌else◌, Bytes, codes, length, take, drop, get_or, same_bytes,
  same_nocase,
}
use aprsc.Client.{Client, ClientState, Server}
use Parse.{
  Result, ok, err, nonval_multi_q_calls, i_no_viacall, Request, slice, byte, Existing, find_q,
  Outcome,
}
use Drop.{is_connected, q_dropcheck}

-- ",q%c%c,%s"
abbrev pub q_text : ℕ → ℕ → Bytes → Bytes
q_text proto type who = codes ",q" ++ (proto ∷ type ∷ b',' ∷ who)

abbrev pub tcpip_q : ℕ → ℕ → Bytes → Bytes
tcpip_q proto type who = codes ",TCPIP*" ++ q_text proto type who

abbrev pub tcpxx_q : ℕ → ℕ → Bytes → Bytes
tcpxx_q proto type who = codes ",TCPXX*" ++ q_text proto type who

module _ (r : Request) where
  open r use {server, client, pdata, via_start, pathlen, originated_by_client}
  open server use {serverid, q_protocol_id}
  open client use {validated, inport, uplinkport, udpsubmit, clientonly, username, addr_hex, state}

  -- Nothing changed but the end of the path, and a text to put there.
  abbrev pub append_q : ℕ → Bytes → Outcome
  append_q path_end text = record {
    patched = pdata;
    path_end = path_end;
    new_q_start = none;
    q_replace = none;
    new_q = text;
  }

  -- The path is replaced by a text from `via_start` on.
  abbrev pub replace_path : ℕ → Bytes → Outcome
  replace_path path_end text = record (append_q path_end text) { q_replace = some via_start }

  -- An existing construct is kept. Without one, which comes up only for a client that is neither
  -- inbound nor an uplink, the source goes on with the null pointer plus one; that is `none` here.
  abbrev pub keep_q : Bytes → ℕ → Option ℕ → Outcome
  keep_q bytes path_end q_start = record {
    patched = bytes;
    path_end = path_end;
    new_q_start = elim q_start [ none ↦ none | some start ↦ some (start + 1) ];
    q_replace = none;
    new_q = [];
  }

  -- "Skip to All packets with q constructs".
  unfoldable pub finish : Existing → ℕ → ℕ → Outcome → Result Outcome
  finish q proto type out = q_dropcheck (record r { pdata = out.patched }) proto type q.q_start out

  -- `pathlen > 2 && *(*path_end -1) == 'I' && *(*path_end -2) == ','`
  abbrev pub ends_with_i : ℕ → Bool
  ends_with_i path_end =
      ltb 2 pathlen && (byte pdata (path_end - 1) == b'I' && byte pdata (path_end - 2) == b',')

  -- `while (p > via_start && *p != ',') p--;`
  unfoldable pub back_to_comma : ℕ → ℕ
  back_to_comma zero = zero
  back_to_comma (suc p) =
      let before = back_to_comma p in
      if ltb via_start (suc p) && not (byte pdata (suc p) == b',') then before else suc p

  -- The comma before the callsign that stands before ",I", if there is one.
  abbrev pub viacall_comma : ℕ → Option ℕ
  viacall_comma path_end =
      let p = back_to_comma (path_end - 3) in if byte pdata p == b',' then some p else none

  -- ",TCPIP*" at the end of the path is not put there again.
  abbrev pub has_tcpip : ℕ → Bool
  has_tcpip path_end =
      ltb 7 pathlen && same_bytes (slice pdata (path_end - 7) path_end) (codes ",TCPIP*")

  abbrev pub q_protocol : ℕ → ℕ → Bytes → Bytes
  q_protocol path_end type who =
      if has_tcpip path_end then q_text q_protocol_id type who else tcpip_q q_protocol_id type who

  -- `*path_end = q_start`, if there is a construct.
  pub udp_path_end : Existing → ℕ
  udp_path_end q =
      if q.proto == 0 then q.path_end else elim q.q_start [ none ↦ q.path_end | some s ↦ s ]

  pub udp_submit : Existing → Outcome
  udp_submit q = append_q (udp_path_end q) (q_protocol (udp_path_end q) b'U' serverid)

  pub unverified_own : Existing → Result Outcome
  unverified_own q =
      if not (q.proto == 0) && ltb q.nextcall_end q.path_end
      then err nonval_multi_q_calls
      else ok (append_q via_start (tcpxx_q q_protocol_id b'X' serverid))

  -- `*(q_start + 3) = q_type = …`
  abbrev pub client_only_type : ℕ → ℕ
  client_only_type type =
      if type == b'R' || type == b'r'
      then b'o'
      else if type == b'S' || type == b'C'
      then b'O'
      else type

  abbrev pub patch : Bytes → ℕ → ℕ → Bytes
  patch bytes p v = take p bytes ++ (v ∷ drop (p + 1) bytes)

  pub client_only_bytes : ℕ → ℕ → Bytes
  client_only_bytes type start =
      if client_only_type type == type
      then pdata
      else patch pdata (start + 3) (client_only_type type)

  pub client_only_own : Existing → Outcome
  client_only_own q =
      append_q (elim q.q_start [ none ↦ via_start | some start ↦ start ])
        (q_text q_protocol_id b'C' serverid)

  -- `add_qAO`
  pub client_only_append : Existing → Result Outcome
  client_only_append q =
      finish q q_protocol_id b'O' (append_q q.path_end (q_text q_protocol_id b'O' username))

  pub client_only_other : Existing → Result Outcome
  client_only_other q =
      if not (q.proto == 0)
      then elim q.q_start [
        | none ↦ client_only_append q
        | some start ↦
            finish q q.proto (client_only_type q.type)
              (keep_q (client_only_bytes q.type start) q.path_end (some start))
      ]
      else if ends_with_i q.path_end
      then elim (viacall_comma q.path_end) [
        | none ↦ client_only_append q
        | some p ↦
            finish q q_protocol_id b'o'
              (append_q p (q_text q_protocol_id b'o' (slice pdata (p + 1) (q.path_end - 2))))
      ]
      else client_only_append q

  -- The callsign between that comma and ",I".
  abbrev pub viacall : ℕ → ℕ → Bytes
  viacall p path_end = slice pdata (p + 1) (path_end - 2)

  -- Change from ,VIACALL,I to ,qAR,VIACALL or ,qAr,VIACALL.
  unfoldable pub convert_viacall : Existing → Result Outcome
  convert_viacall q = elim (viacall_comma q.path_end) [
    | none ↦ err i_no_viacall
    | some p ↦
        let call = viacall p q.path_end in
        if length username == length call && same_nocase username call
        then finish q q_protocol_id b'R' (append_q p (q_text q_protocol_id b'R' username))
        else finish q q_protocol_id b'r' (append_q p (q_text q_protocol_id b'r' call))
  ]

  -- All packets from an inbound connection.
  unfoldable pub q_inport : Existing → Result Outcome
  q_inport q =
      if udpsubmit
      then ok (udp_submit q)
      else if not validated && originated_by_client
      then unverified_own q
      else if validated && (clientonly && originated_by_client)
      then ok (client_only_own q)
      else if validated && (clientonly && not originated_by_client)
      then client_only_other q
      else if not (q.proto == 0)
      then finish q q.proto q.type (keep_q pdata q.path_end q.q_start)
      else if ends_with_i q.path_end
      then convert_viacall q
      else if originated_by_client
      then ok (
          append_q q.path_end (
            if has_tcpip q.path_end then q_text b'A' b'C' serverid else tcpip_q b'A' b'C' serverid))
      else finish q q_protocol_id b'S' (append_q q.path_end (q_text q_protocol_id b'S' username))

  -- Packets from a peer or an uplink.
  pub q_outbound : Existing → Result Outcome
  q_outbound q =
      if q.proto == 0 && uplinkport
      then (if ends_with_i q.path_end
          then elim (viacall_comma q.path_end) [
            | none ↦ err i_no_viacall
            | some p ↦
                finish q q_protocol_id b'r'
                  (append_q p (q_text q_protocol_id b'r' (viacall p q.path_end)))
          ]
          else finish q q_protocol_id b'S'
              (append_q q.path_end (q_text q_protocol_id b'S' addr_hex)))
      else finish q q.proto q.type (keep_q pdata q.path_end q.q_start)

  abbrev pub no_construct : Existing → Bool
  no_construct q = elim q.q_start [ none ↦ true | some _ ↦ false ]

  unfoldable pub q_dispatch : Existing → ℕ → Result Outcome
  q_dispatch q path_end =
      if no_construct q && (originated_by_client && not udpsubmit)
      then ok (
          replace_path path_end (
            if validated
            then tcpip_q q_protocol_id b'C' serverid
            else tcpxx_q q_protocol_id b'X' serverid))
      else if validated
          && (originated_by_client && (inport && (not (q.type == b'I') && not udpsubmit)))
      then ok (replace_path q.path_end (tcpip_q q_protocol_id b'C' serverid))
      else if is_connected state && inport
      then q_inport q
      else q_outbound q

  unfoldable pub q_process : ℕ → Result Outcome
  q_process path_end = q_dispatch (find_q pdata via_start path_end) path_end
