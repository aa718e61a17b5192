-- ===== src/Relay/Texts.antt =====
-- The texts of the answers to a publisher, as lists of bytes.
use rtmp_abr_transcoder.Base.{ℕ, List, [], ◌∷◌}

-- "app"
abbrev pub app_key : List ℕ
app_key = 97 ∷ 112 ∷ 112 ∷ []

-- "fmsVer"
abbrev pub fms_ver_key : List ℕ
fms_ver_key = 102 ∷ 109 ∷ 115 ∷ 86 ∷ 101 ∷ 114 ∷ []

-- "FMS/3,0,1,123"
abbrev pub fms_ver_text : List ℕ
fms_ver_text = 70 ∷ 77 ∷ 83 ∷ 47 ∷ 51 ∷ 44 ∷ 48 ∷ 44 ∷ 49 ∷ 44 ∷ 49 ∷ 50 ∷ 51 ∷ []

-- "capabilities"
abbrev pub capabilities_key : List ℕ
capabilities_key = 99 ∷ 97 ∷ 112 ∷ 97 ∷ 98 ∷ 105 ∷ 108 ∷ 105 ∷ 116 ∷ 105 ∷ 101 ∷ 115 ∷ []

-- "level"
abbrev pub level_key : List ℕ
level_key = 108 ∷ 101 ∷ 118 ∷ 101 ∷ 108 ∷ []

-- "status"
abbrev pub status_text : List ℕ
status_text = 115 ∷ 116 ∷ 97 ∷ 116 ∷ 117 ∷ 115 ∷ []

-- "code"
abbrev pub code_key : List ℕ
code_key = 99 ∷ 111 ∷ 100 ∷ 101 ∷ []

-- "NetConnection.Connect.Success"
abbrev pub connect_success_text : List ℕ
connect_success_text =
    78 ∷ 101 ∷ 116 ∷ 67 ∷ 111 ∷ 110 ∷ 110 ∷ 101 ∷ 99 ∷ 116 ∷ 105 ∷ 111 ∷ 110 ∷ 46 ∷ 67 ∷ 111 ∷ 110
    ∷ 110 ∷ 101 ∷ 99 ∷ 116 ∷ 46 ∷ 83 ∷ 117 ∷ 99 ∷ 99 ∷ 101 ∷ 115 ∷ 115 ∷ []

-- "description"
abbrev pub description_key : List ℕ
description_key = 100 ∷ 101 ∷ 115 ∷ 99 ∷ 114 ∷ 105 ∷ 112 ∷ 116 ∷ 105 ∷ 111 ∷ 110 ∷ []

-- "Connection succeeded"
abbrev pub connection_succeeded_text : List ℕ
connection_succeeded_text =
    67 ∷ 111 ∷ 110 ∷ 110 ∷ 101 ∷ 99 ∷ 116 ∷ 105 ∷ 111 ∷ 110 ∷ 32 ∷ 115 ∷ 117 ∷ 99 ∷ 99 ∷ 101 ∷ 101
    ∷ 100 ∷ 101 ∷ 100 ∷ []

-- "objectEncoding"
abbrev pub object_encoding_key : List ℕ
object_encoding_key =
    111 ∷ 98 ∷ 106 ∷ 101 ∷ 99 ∷ 116 ∷ 69 ∷ 110 ∷ 99 ∷ 111 ∷ 100 ∷ 105 ∷ 110 ∷ 103 ∷ []

-- "NetStream.Publish.Start"
abbrev pub publish_start_text : List ℕ
publish_start_text =
    78 ∷ 101 ∷ 116 ∷ 83 ∷ 116 ∷ 114 ∷ 101 ∷ 97 ∷ 109 ∷ 46 ∷ 80 ∷ 117 ∷ 98 ∷ 108 ∷ 105 ∷ 115 ∷ 104
    ∷ 46 ∷ 83 ∷ 116 ∷ 97 ∷ 114 ∷ 116 ∷ []

-- "Stream is now published"
abbrev pub now_published_text : List ℕ
now_published_text =
    83 ∷ 116 ∷ 114 ∷ 101 ∷ 97 ∷ 109 ∷ 32 ∷ 105 ∷ 115 ∷ 32 ∷ 110 ∷ 111 ∷ 119 ∷ 32 ∷ 112 ∷ 117 ∷ 98
    ∷ 108 ∷ 105 ∷ 115 ∷ 104 ∷ 101 ∷ 100 ∷ []
