-- ===== src/EchonetLite/Esv.antt =====
-- The service codes of a message (ESVType in echonet_lite/echonet_lite.go); any other byte may occur too.
use echonet_list.Base.{ℕ, Bool, ◌||◌, List, [], ◌∷◌, ◌==◌, if◌then◌else◌}

abbrev pub set_i : ℕ
set_i = 0x60

abbrev pub set_c : ℕ
set_c = 0x61

abbrev pub get : ℕ
get = 0x62

abbrev pub inf_req : ℕ
inf_req = 0x63

abbrev pub set_get : ℕ
set_get = 0x6e

abbrev pub set_res : ℕ
set_res = 0x71

abbrev pub get_res : ℕ
get_res = 0x72

abbrev pub inf : ℕ
inf = 0x73

abbrev pub infc : ℕ
infc = 0x74

abbrev pub infc_res : ℕ
infc_res = 0x7a

abbrev pub set_get_res : ℕ
set_get_res = 0x7e

abbrev pub set_i_sna : ℕ
set_i_sna = 0x50

abbrev pub set_c_sna : ℕ
set_c_sna = 0x51

abbrev pub get_sna : ℕ
get_sna = 0x52

abbrev pub inf_req_sna : ℕ
inf_req_sna = 0x53

abbrev pub set_get_sna : ℕ
set_get_sna = 0x5e

unfoldable pub is_set_get : ℕ → Bool
is_set_get e = e == set_get || e == set_get_res || e == set_get_sna

-- `ESVType.ResponseESVs`
unfoldable pub response_esvs : ℕ → List ℕ
response_esvs e =
    if e == set_i
    then set_i_sna ∷ []
    else if e == set_c
    then set_res ∷ set_c_sna ∷ []
    else if e == get
    then get_res ∷ get_sna ∷ []
    else if e == inf_req
    then inf ∷ inf_req_sna ∷ []
    else if e == set_get
    then set_get_res ∷ set_get_sna ∷ []
    else if e == infc
    then infc_res ∷ []
    else []

-- The services whose sender is the object that a message is about (`ECHONETLiteMessage.EOJ`).
unfoldable pub is_response : ℕ → Bool
is_response e =
    e == set_res
    || e == get_res
    || e == inf
    || e == infc
    || e == infc_res
    || e == set_get_res
    || e == set_i_sna
    || e == set_c_sna
    || e == get_sna
    || e == inf_req_sna
    || e == set_get_sna
