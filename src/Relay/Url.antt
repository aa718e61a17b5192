-- ===== src/Relay/Url.antt =====
-- RelayManager::build_push_url, and the parts of the URL that handle_pusher_connected sends. A
-- position is a size_t, and `npos` its greatest value.
use rtmp_abr_transcoder.Base.{
  ℕ, ◌+◌, ◌-◌, ◌%◌, ◌^◌, Bool, List, [], ◌∷◌, ◌++◌, Option, none, some, ◌==◌, if◌then◌else◌, length,
  take, drop, get_or,
}
use rtmp_abr_transcoder.Base.Texts.{find, find_from}
use rtmp_abr_transcoder.Amf0.Value.{no_fields, string, object, insert}
use rtmp_abr_transcoder.Commands.{CommandMessage}
use rtmp_abr_transcoder.Relay.Types.{StreamId, connect_text, one}

abbrev pub app_placeholder : List ℕ
app_placeholder = 123 ∷ 97 ∷ 112 ∷ 112 ∷ 125 ∷ []

abbrev pub stream_placeholder : List ℕ
stream_placeholder = 123 ∷ 115 ∷ 116 ∷ 114 ∷ 101 ∷ 97 ∷ 109 ∷ 125 ∷ []

-- The template "{app}/{stream}" of a new RelayManager.
abbrev pub default_template : List ℕ
default_template = app_placeholder ++ (47 ∷ stream_placeholder)

-- The first occurrence of a placeholder is replaced.
unfoldable pub replace_first : List ℕ → List ℕ → List ℕ → List ℕ
replace_first placeholder text s = elim (find placeholder s) [
  | none ↦ s
  | some pos ↦ take pos s ++ (text ++ drop (pos + length placeholder) s)
]

-- s.back(), of a text that is not empty.
abbrev pub ends_in_slash : List ℕ → Bool
ends_in_slash s = get_or s (length s - 1) 0 == 47

unfoldable pub build_push_url : List ℕ → List ℕ → StreamId → List ℕ
build_push_url push_url push_template id =
    let result : List ℕ =
      replace_first stream_placeholder id.stream
        (replace_first app_placeholder id.app push_template) in
    if length push_url == 0
    then result
    else if ends_in_slash push_url
    then push_url ++ result
    else push_url ++ (47 ∷ result)

abbrev pub npos : ℕ
npos = 2 ^ 64 - 1

abbrev pub position : Option ℕ → ℕ
position none = npos
position (some i) = i

-- The path of a URL: from the first slash behind "://" on, or "/".
unfoldable pub path_start : List ℕ → Option ℕ
path_start url = find_from (47 ∷ []) ((position (find (58 ∷ 47 ∷ 47 ∷ []) url) + 3) % 2 ^ 64) url

unfoldable pub path_of : List ℕ → List ℕ
path_of url = elim (path_start url) [ none ↦ 47 ∷ [] | some i ↦ drop i url ]

-- The first part of the path.
unfoldable pub app_of : List ℕ → List ℕ
app_of path = elim (find_from (47 ∷ []) 1 path) [
  | none ↦ drop 1 path
  | some app_end ↦ take (app_end - 1) (drop 1 path)
]

-- The command connect of handle_pusher_connected.
unfoldable pub connect_command : List ℕ → CommandMessage
connect_command url =
    let app : List ℕ = app_of (path_of url) in
    let tc_url : List ℕ = take ((position (path_start url) + length app + 1) % 2 ^ 64) url in
    let app_key : List ℕ = 97 ∷ 112 ∷ 112 ∷ [] in
    let type_key : List ℕ = 116 ∷ 121 ∷ 112 ∷ 101 ∷ [] in
    let url_key : List ℕ = 116 ∷ 99 ∷ 85 ∷ 114 ∷ 108 ∷ [] in
    let nonprivate : List ℕ = 110 ∷ 111 ∷ 110 ∷ 112 ∷ 114 ∷ 105 ∷ 118 ∷ 97 ∷ 116 ∷ 101 ∷ [] in
    record {
      name = connect_text;
      transaction_id = one;
      arguments =
          object (
            insert url_key (string tc_url)
              (insert type_key (string nonprivate) (insert app_key (string app) no_fields)))
          ∷ [];
    }
