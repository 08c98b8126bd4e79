-- ===== src/Filter/Igate/Messages.antt =====
-- Which messages src/filter.c gates to an igate client.
use aprsc.Prelude.{
  taken, not_taken, ℕ, arith, ◌≡◌, ◌≢◌, ◌<◌, ap, ◌∙◌, Bool, true, not, ◌&&◌, ◌||◌, ◌==◌, Bytes,
  same_nocase,
}
use aprsc.Prelude.Int.{ℤ, pos}
use aprsc.Packet.{Pbuf}
use aprsc.Keyhash.{keyhashuc}
use aprsc.ParseAprs.{Parsing}
use aprsc.ClientHeard.{HeardList, heard_list_update, client_heard_check, max_heard_per_client}
use aprsc.ClientHeard.Found.{heard_is_found}
use aprsc.Filter.Process.{Filter, Filters, filter_process}
use aprsc.Filter.Igate.{Igate, recipient, dstname_hash, is_gated, igate_support}

both_true : (m a h : Bool) → m ≡ true → h ≡ true → (m && (a || h)) ≡ true
both_true m a h e f = ground arith

heard-is_gated :
    (c : Igate) (beyond : Bytes) (pb : Pbuf) (st : Parsing)
    → st.message ≡ true
    → st.dstname ≢ 0
    → client_heard_check (recipient beyond pb st) (keyhashuc (recipient beyond pb st) 0) c.heard
      ≡ true
    → is_gated c beyond pb st ≡ true
unfolding is_gated dstname_hash
heard-is_gated c beyond pb st m d h = both_true st.message _ _ m (
    ap (λ hash. client_heard_check (recipient beyond pb st) hash c.heard)
      (not_taken (st.dstname == 0) _ _ (ground arith))
    ∙ h)

gated-igate_support :
    (c : Igate) (beyond : Bytes) (pb : Pbuf) (st : Parsing)
    → c.is_igate ≡ true
    → is_gated c beyond pb st ≡ true
    → (igate_support c beyond pb st).0 ≡ true
unfolding igate_support
gated-igate_support c beyond pb st i g =
    ap (λ (r : Bool × HeardList). r.0)
      (not_taken (not c.is_igate) _ _ (ground (arith, i)) ∙ taken (is_gated c beyond pb st) _ _ g)

-- A message that has a recipient, of which an igate client has just sent a packet in whatever letter
-- case, is passed to the client whatever its filters are, if its heard list was not full and had a cell
-- to spare.
pub message_to_heard_passes :
    (c : Igate) (beyond : Bytes) (pb : Pbuf) (st : Parsing) (call : Bytes) (t : ℕ)
    (one notify : Filter → ℤ) (filters : Filters)
    → c.is_igate ≡ true
    → st.message ≡ true
    → st.dstname ≢ 0
    → same_nocase call (recipient beyond pb st) ≡ true
    → c.heard.entrycount < max_heard_per_client
    → 0 < c.heard.cells
    → filter_process one notify (record filters {
      igate_passes =
          (igate_support (record c { heard = heard_list_update call t c.heard }) beyond pb st).0;
    })
      ≡ pos 1
unfolding filter_process
message_to_heard_passes c beyond pb st call t one notify filters i m d same few room =
    taken _ (pos 1) _ (
      gated-igate_support (record c { heard = heard_list_update call t c.heard }) beyond pb st i
        (heard-is_gated (record c { heard = heard_list_update call t c.heard }) beyond pb st m d
          (heard_is_found call (recipient beyond pb st) t c.heard same few room)))
