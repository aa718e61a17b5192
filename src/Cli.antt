-- ===== src/Cli.antt =====
-- include/core/cli.hpp and src/core/cli.cpp: the command line. What print_help and the error stream
-- print is left out.
pub mod OutputSpecs
pub mod Arguments
mod Tests
use rtmp_abr_transcoder.Base.{
  ℕ, ◌+◌, ◌-◌, ◌*◌, Bool, true, false, ◌||◌, List, [], ◌∷◌, ◌++◌, Option, none, some, Result, ok,
  err, leb, if◌then◌else◌, take, drop,
}
use rtmp_abr_transcoder.Base.Options.{◌>>=◌}
use rtmp_abr_transcoder.Base.Texts.{codes, same_text, find, find_from}
use rtmp_abr_transcoder.Base.Numbers.{ℤ, pos, negsuc, stoi, stoull}

pub record OutputSpec : Type 0 where
  pub name : List ℕ
  pub width : ℤ
  pub height : ℤ
  pub video_bitrate_kbps : ℤ
  pub audio_bitrate_kbps : ℤ
  pub url : List ℕ

pub record Config : Type 0 where
  pub listen_addr : List ℕ
  pub push_url : List ℕ
  pub push_template : List ℕ
  pub max_pending_bytes : ℕ
  pub pusher_down_disconnect_ms : ℕ
  pub log_level : List ℕ
  pub mode : List ℕ
  pub outputs : List OutputSpec

abbrev pub default_config : Config
default_config = record {
  listen_addr = codes "0.0.0.0:1935";
  push_url = [];
  push_template = codes "{app}/{stream}";
  max_pending_bytes = 2 * 1024 * 1024;
  pusher_down_disconnect_ms = 2000;
  log_level = codes "info";
  mode = codes "relay";
  outputs = [];
}

-- s.substr(from, count).
abbrev pub substr : ℕ → ℕ → List ℕ → List ℕ
substr from count s = take count (drop from s)

-- The audio bitrate that goes with a video bitrate.
unfoldable pub default_audio_bitrate : ℤ → ℤ
default_audio_bitrate (pos n) = if leb 2000 n then pos 128 else pos 64
default_audio_bitrate (negsuc n) = pos 64

-- The result is `none` where the function returns false; an exception of stoi is caught.
unfoldable pub parse_output_spec : List ℕ → Option OutputSpec
parse_output_spec spec = do
  colon_pos ← find (codes ":") spec
  x_pos ← find_from (codes "x") colon_pos spec
  at_pos ← find_from (codes "@") x_pos spec
  comma_pos ← find_from (codes ",") at_pos spec
  width ← stoi (substr (colon_pos + 1) (x_pos - colon_pos - 1) spec)
  height ← stoi (substr (x_pos + 1) (at_pos - x_pos - 1) spec)
  video ← stoi (substr (at_pos + 1) (comma_pos - at_pos - 1) spec)
  some (record {
    name = take colon_pos spec;
    width = width;
    height = height;
    video_bitrate_kbps = video;
    audio_bitrate_kbps = default_audio_bitrate video;
    url = drop (comma_pos + 1) spec;
  })

-- Why parse_args returns no configuration: --help, an argument that it does not know, an output that
-- it cannot read, or an exception of stoull, which nothing catches.
pub data ArgsError : Type 0 where
  help_shown unknown_argument invalid_output uncaught : ArgsError

-- The branches of the loop. `unknown` is the last one.
pub data Choice : Type 0 where
  help listen push_url push_template max_pending_bytes : Choice
  pusher_down_disconnect_ms log_level mode output unknown : Choice

unfoldable pub choice_of : List ℕ → Choice
choice_of arg =
    if same_text arg (codes "--help") || same_text arg (codes "-h")
    then help
    else if same_text arg (codes "--listen")
    then listen
    else if same_text arg (codes "--push-url")
    then push_url
    else if same_text arg (codes "--push-template")
    then push_template
    else if same_text arg (codes "--max-pending-bytes")
    then max_pending_bytes
    else if same_text arg (codes "--pusher-down-disconnect-ms")
    then pusher_down_disconnect_ms
    else if same_text arg (codes "--log-level")
    then log_level
    else if same_text arg (codes "--mode")
    then mode
    else if same_text arg (codes "--output")
    then output
    else unknown

-- What a call that may throw gives the loop.
abbrev pub or_throw : {A B : Type 0} → Option A → (A → B) → Result ArgsError B
or_throw none f = err uncaught
or_throw (some a) f = ok (f a)

abbrev pub or_invalid : {A B : Type 0} → Option A → (A → B) → Result ArgsError B
or_invalid none f = err invalid_output
or_invalid (some a) f = ok (f a)

-- A branch with a value behind the argument.
unfoldable pub apply_choice : Choice → List ℕ → Config → Result ArgsError Config
apply_choice help value c = err help_shown
apply_choice listen value c = ok (record c { listen_addr = value })
apply_choice push_url value c = ok (record c { push_url = value })
apply_choice push_template value c = ok (record c { push_template = value })
apply_choice max_pending_bytes value c =
    or_throw (stoull value) (λ n. record c { max_pending_bytes = n })
apply_choice pusher_down_disconnect_ms value c =
    or_throw (stoull value) (λ n. record c { pusher_down_disconnect_ms = n })
apply_choice log_level value c = ok (record c { log_level = value })
apply_choice mode value c = ok (record c { mode = value })
apply_choice output value c =
    or_invalid (parse_output_spec value) (λ spec. record c { outputs = c.outputs ++ (spec ∷ []) })
apply_choice unknown value c = err unknown_argument

-- The last argument has no value behind it.
unfoldable pub last_choice : Choice → Result ArgsError Config
last_choice help = err help_shown
last_choice _ = err unknown_argument

-- The loop over the arguments behind the program's name.
unfoldable pub parse_loop : List (List ℕ) → Config → Result ArgsError Config
parse_loop [] c = ok c
parse_loop (arg ∷ []) c = last_choice (choice_of arg)
parse_loop (arg ∷ value ∷ rest) c = elim (apply_choice (choice_of arg) value c) [
  | err e ↦ err e
  | ok c' ↦ parse_loop rest c'
]

unfoldable pub parse_args : List (List ℕ) → Result ArgsError Config
parse_args argv = parse_loop argv default_config
