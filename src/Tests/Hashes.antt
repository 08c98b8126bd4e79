-- ===== src/Tests/Hashes.antt =====
-- The hash and the passcode on callsigns.
use aprsc.Prelude.{◌<◌, ◌≡◌, refl, ◌∷◌, ◌++◌, map, take, codes, to_upper}
use aprsc.Keyhash.{keyhash, keyhashuc}
use aprsc.Keyhash.Laws.{keyhashuc-upper}
use aprsc.Passcode.{aprs_passcode}
use aprsc.Passcode.Laws.{passcode_of_base_call}

-- The passcode of N0CALL, as every client's documentation has it.
n0call : aprs_passcode (codes "n0call-7") ≡ 13023
unfolding aprs_passcode
n0call = refl

keyhashuc-upper_example : keyhashuc (codes "oh7lzb") 0 ≡ keyhash (map to_upper (codes "oh7lzb")) 0
keyhashuc-upper_example = keyhashuc-upper (codes "oh7lzb") 0

passcode_of_base_call_example :
    (aprs_passcode (codes "n0call") < 0x8000)
    × (aprs_passcode (map to_upper (codes "n0call")) ≡ aprs_passcode (codes "n0call"))
    × (aprs_passcode (codes "n0call" ++ b'-' ∷ codes "7") ≡ aprs_passcode (codes "n0call"))
    × (aprs_passcode (take 9 (codes "n0call")) ≡ aprs_passcode (codes "n0call"))
passcode_of_base_call_example = passcode_of_base_call (codes "n0call") (codes "7")
