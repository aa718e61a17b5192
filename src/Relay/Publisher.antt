-- ===== src/Relay/Publisher.antt =====
-- RelayManager::handle_publisher_message and handle_publisher_command. What they ask of the
-- transcoder and of the pushers is the list of their calls, in order.
use rtmp_abr_transcoder.Base.{
  ℕ, ◌+◌, ◌-◌, ◌%◌, ◌/◌, ◌^◌, Bool, true, false, ◌&&◌, List, [], ◌∷◌, ◌++◌, Option, none, some,
  Result, ltb, leb, ◌==◌, if◌then◌else◌, length,
}
use rtmp_abr_transcoder.Base.Options.{◌>>=◌}
use rtmp_abr_transcoder.Bytes.{byte_at}
use rtmp_abr_transcoder.Base.Texts.{same_text}
use rtmp_abr_transcoder.Messages.Control.{
  Message, type_number, audio, video, data_amf0, command_amf0,
}
use rtmp_abr_transcoder.Amf0.Value.{
  Value, Fields, null, number, string, object, no_fields, insert, lookup,
}
use rtmp_abr_transcoder.Commands.{CommandMessage, parse_command}
use rtmp_abr_transcoder.Net.Socket.{SysResult, SocketError, Socket, write}
use rtmp_abr_transcoder.Session.{Session, send_command, get_outgoing_data}
use rtmp_abr_transcoder.Relay.Texts.{
  app_key, fms_ver_key, fms_ver_text, capabilities_key, level_key, status_text, code_key,
  connect_success_text, description_key, connection_succeeded_text, object_encoding_key,
  publish_start_text, now_published_text,
}
use rtmp_abr_transcoder.Relay.Types.{
  StreamId, result_text, on_status_text, connect_text, create_stream_text, publish_text, one,
}

pub record SinkStats : Type 0 where
  pub audio_messages : ℕ
  pub video_messages : ℕ
  pub data_messages : ℕ
  pub audio_bytes : ℕ
  pub video_bytes : ℕ
  pub keyframes : ℕ
  pub start_time : ℕ

-- `pending_messages` is never used. `written` is no member: it is what the calls of socket.write were
-- given, one after the other. What the system took of that is in the socket.
pub record Publisher : Type 0 where
  pub session : Session
  pub socket : Socket
  pub stream_id : StreamId
  pub ready : Bool
  pub stats : SinkStats
  pub last_stats_log : ℕ
  pub written : List (List ℕ)

pub data Call : Type 0 where
  start_transcoder : Call
  -- on_source_metadata(0, 0, 30, 44100, 2).
  source_metadata : Call
  video_data : List ℕ → ℕ → Bool → Call
  audio_data : List ℕ → ℕ → Call
  create_pusher : StreamId → Call
  -- The search of the stream's pusher, and relay_message if there is one.
  relay_to : StreamId → Message → Call

-- `++` and `+=` on uint64_t.
abbrev pub counted : ℕ → ℕ → ℕ
counted a b = (a + b) % 2 ^ 64

-- !payload.empty() && (payload[0] & 0xF0) == 0x10.
abbrev pub is_keyframe : List ℕ → Bool
is_keyframe payload = ltb 0 (length payload) && byte_at payload 0 / 16 == 1

-- The statistics of a message.
unfoldable pub count_message : Message → SinkStats → SinkStats
count_message msg stats =
    let size = length msg.payload in
    if msg.type_id == type_number audio
    then record stats {
      audio_messages = counted stats.audio_messages 1;
      audio_bytes = counted stats.audio_bytes size;
    }
    else if msg.type_id == type_number video
    then record stats {
      video_messages = counted stats.video_messages 1;
      video_bytes = counted stats.video_bytes size;
      keyframes = if is_keyframe msg.payload then counted stats.keyframes 1 else stats.keyframes;
    }
    else if msg.type_id == type_number data_amf0
    then record stats { data_messages = counted stats.data_messages 1 }
    else stats

-- What a media message is passed on to.
unfoldable pub media_calls : Bool → Message → StreamId → List Call
media_calls true msg id =
    if msg.type_id == type_number video
    then video_data msg.payload msg.timestamp (is_keyframe msg.payload) ∷ []
    else if msg.type_id == type_number audio
    then audio_data msg.payload msg.timestamp ∷ []
    else []
media_calls false msg id = relay_to id msg ∷ []

-- The branch for a publisher that is ready; the statistics are logged every 5 seconds.
unfoldable pub handle_media : Bool → ℕ → Message → Publisher → Publisher × List Call
handle_media has_transcoder now msg pub' =
    let log = leb 5000 ((now + 2 ^ 64 - pub'.last_stats_log) % 2 ^ 64) in
    (
      record pub' {
        stats = count_message msg pub'.stats;
        last_stats_log = if log then now else pub'.last_stats_log;
      },
      media_calls has_transcoder msg pub'.stream_id,
    )

-- The text of the member "app" of the first argument.
abbrev pub text_or_empty : Option Value → List ℕ
text_or_empty (some (string s)) = s
text_or_empty v = []

abbrev pub app_name_of : List Value → List ℕ
app_name_of (object fs ∷ vs) = text_or_empty (lookup app_key fs)
app_name_of vs = []

abbrev pub status_info : List ℕ → List ℕ → Fields
status_info code description =
    insert description_key (string description)
      (insert code_key (string code) (insert level_key (string status_text) no_fields))

-- 31.0 and 0.0 are the numbers in the answer to connect.
abbrev pub connect_response : ℕ → CommandMessage
connect_response transaction_id = record {
  name = result_text;
  transaction_id = transaction_id;
  arguments =
      object (
        insert capabilities_key (number 0x403f_0000_0000_0000)
          (insert fms_ver_key (string fms_ver_text) no_fields))
      ∷ object (
          insert object_encoding_key (number 0)
            (status_info connect_success_text connection_succeeded_text))
      ∷ [];
}

abbrev pub create_stream_response : ℕ → CommandMessage
create_stream_response transaction_id = record {
  name = result_text;
  transaction_id = transaction_id;
  arguments = null ∷ number one ∷ [];
}

abbrev pub publish_response : CommandMessage
publish_response = record {
  name = on_status_text;
  transaction_id = 0;
  arguments = null ∷ object (status_info publish_start_text now_published_text) ∷ [];
}

-- The stream that publish names: its first argument is null, and the second a string.
abbrev pub published_stream : List Value → Option (List ℕ)
published_stream (null ∷ string s ∷ vs) = some s
published_stream vs = none

-- What the system answers to a write of bytes, behind the writes that were made before.
abbrev pub Answers : Type 0
Answers = List (List ℕ) → List ℕ → SysResult ℕ

-- pub->socket.write.
abbrev pub write_socket : Answers → List ℕ → Publisher → Result SocketError ℕ × Publisher
write_socket answers data' pub' =
    let (result, socket) = write (answers pub'.written data') data' pub'.socket in
    (result, record pub' { socket = socket; written = pub'.written ++ (data' ∷ []) })

-- The buffer is cleared before the write, whose result, an error or a number of bytes, is only
-- logged.
unfoldable pub flush_publisher_responses : Answers → Publisher → Publisher
flush_publisher_responses answers pub' =
    let (data', session) = get_outgoing_data pub'.session in
    let cleared = record pub' { session = session } in
    if length data' == 0
    then cleared
    else (let (result, flushed) = write_socket answers data' cleared in flushed)

module _ (grow : ℕ → ℕ → ℕ) (memory : ℕ) (answers : Answers) where
  -- send_command on the chunk stream 3, and the flush.
  unfoldable pub respond : CommandMessage → Publisher → Option Publisher
  respond cmd pub' = do
    session ← send_command grow memory cmd 3 pub'.session
    some (flush_publisher_responses answers (record pub' { session = session }))

  unfoldable pub handle_connect : CommandMessage → Publisher → Option (Publisher × List Call)
  handle_connect cmd pub' = do
    answered ←
        respond (connect_response cmd.transaction_id)
          (record pub' { stream_id = record pub'.stream_id { app = app_name_of cmd.arguments } })
    some (answered, [])

  unfoldable pub handle_create_stream : CommandMessage → Publisher → Option (Publisher × List Call)
  handle_create_stream cmd pub' = do
    answered ← respond (create_stream_response cmd.transaction_id) pub'
    some (answered, [])

  unfoldable pub handle_publish : Bool → ℕ → List ℕ → Publisher → Option (Publisher × List Call)
  handle_publish has_transcoder now stream pub' = do
    answered ← respond publish_response (record pub' {
      stream_id = record pub'.stream_id { stream = stream };
      ready = true;
      stats = record pub'.stats { start_time = now };
      last_stats_log = now;
    })
    some (
      answered,
      if has_transcoder
          then start_transcoder ∷ source_metadata ∷ []
          else create_pusher answered.stream_id ∷ [],
    )

  unfoldable pub handle_publisher_command :
      Bool → ℕ → CommandMessage → Publisher → Option (Publisher × List Call)
  handle_publisher_command has_transcoder now cmd pub' =
      if same_text cmd.name connect_text
      then handle_connect cmd pub'
      else if same_text cmd.name create_stream_text
      then handle_create_stream cmd pub'
      else if same_text cmd.name publish_text
      then elim (published_stream cmd.arguments) [
        | none ↦ some (pub', [])
        | some stream ↦ handle_publish has_transcoder now stream pub'
      ]
      else some (pub', [])

  unfoldable pub handle_publisher_message :
      Bool → ℕ → Message → Publisher → Option (Publisher × List Call)
  handle_publisher_message has_transcoder now msg pub' =
      if msg.type_id == type_number command_amf0
      then elim (parse_command memory msg.payload) [
        | none ↦ some (pub', [])
        | some cmd ↦ handle_publisher_command has_transcoder now cmd pub'
      ]
      else if pub'.ready
      then some (handle_media has_transcoder now msg pub')
      else some (pub', [])
