-- ===== src/Passcode/Laws.antt =====
-- About `aprs_passcode` of src/passcode.c.
use aprsc.Prelude.{
  ℕ, zero, suc, ◌<◌, ◌≡◌, refl, arith, [], ◌∷◌, ◌++◌, map, ◌||◌, ◌==◌, Bytes, to_upper,
  to_upper-to_upper, take,
}
use aprsc.Passcode.{root_call, aprs_passcode}

-- A byte ends the base callsign in either case.
ends_upper : (c : ℕ) → (to_upper c == b'-' || to_upper c == 0) ≡ (c == b'-' || c == 0)
unfolding to_upper
ends_upper c = ground arith

root_call-upper :
    (room : ℕ) (call : Bytes) → root_call room (map to_upper call) ≡ root_call room call
unfolding root_call
root_call-upper zero call = refl
root_call-upper (suc room) [] = refl
root_call-upper (suc room) (c ∷ call) =
    simp (ends_upper, to_upper-to_upper, root_call-upper room call)

root_call-ssid :
    (room : ℕ) (call ssid : Bytes) → root_call room (call ++ b'-' ∷ ssid) ≡ root_call room call
unfolding root_call
root_call-ssid zero call ssid = refl
root_call-ssid (suc room) [] ssid = refl
root_call-ssid (suc room) (c ∷ call) ssid = rw (root_call-ssid room call ssid)

root_call-take : (room : ℕ) (call : Bytes) → root_call room (take room call) ≡ root_call room call
unfolding root_call
root_call-take zero call = refl
root_call-take (suc room) [] = refl
root_call-take (suc room) (c ∷ call) = rw (root_call-take room call)

-- The passcode fits 15 bits, and stays the same when letters change case, when an SSID is put
-- behind the callsign, and when all but the first nine bytes are cut off.
pub passcode_of_base_call :
    (call ssid : Bytes)
    → (aprs_passcode call < 0x8000)
      × (aprs_passcode (map to_upper call) ≡ aprs_passcode call)
      × (aprs_passcode (call ++ b'-' ∷ ssid) ≡ aprs_passcode call)
      × (aprs_passcode (take 9 call) ≡ aprs_passcode call)
unfolding aprs_passcode
passcode_of_base_call call ssid =
    (omega arith, rw root_call-upper, rw root_call-ssid, rw root_call-take)
