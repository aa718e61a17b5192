-- ===== src/Cli/Arguments.antt =====
-- A configuration that is written as options is read back.
use rtmp_abr_transcoder.Base.{ℕ, ◌<◌, ◌^◌, ◌≡◌, refl, List, [], ◌∷◌, ◌++◌, ok, length}
use rtmp_abr_transcoder.Base.Texts.{codes, IsWithout}
use rtmp_abr_transcoder.Base.Numbers.{pos, IsDigits, IsInt, value, stoull_digits}
use rtmp_abr_transcoder.Cli.{
  OutputSpec, Config, default_config, default_audio_bitrate, choice_of, apply_choice, parse_loop,
  parse_args,
}
use rtmp_abr_transcoder.Cli.OutputSpecs.{spec_text, parse_output_spec-spec_text}

-- An output as a user writes it.
pub record Written : Type 0 where
  pub name : List ℕ
  pub width : List ℕ
  pub height : List ℕ
  pub video : List ℕ
  pub url : List ℕ

abbrev pub written_text : Written → List ℕ
written_text o = spec_text o.name o.width o.height o.video o.url

abbrev pub spec_of : Written → OutputSpec
spec_of o = record {
  name = o.name;
  width = pos (value 0 o.width);
  height = pos (value 0 o.height);
  video_bitrate_kbps = pos (value 0 o.video);
  audio_bitrate_kbps = default_audio_bitrate (pos (value 0 o.video));
  url = o.url;
}

pub record IsWritten (o : Written) : Type 0 where
  pub plain : IsWithout 58 o.name
  pub width : IsInt o.width
  pub height : IsInt o.height
  pub video : IsInt o.video

-- One option with its value for each setting.
pub data Setting : Type 0 where
  listens pushes templates logs runs : List ℕ → Setting
  bounds waits : List ℕ → Setting
  outputs : Written → Setting

abbrev pub option_of : Setting → List ℕ
option_of (listens s) = codes "--listen"
option_of (pushes s) = codes "--push-url"
option_of (templates s) = codes "--push-template"
option_of (logs s) = codes "--log-level"
option_of (runs s) = codes "--mode"
option_of (bounds s) = codes "--max-pending-bytes"
option_of (waits s) = codes "--pusher-down-disconnect-ms"
option_of (outputs o) = codes "--output"

abbrev pub text_of : Setting → List ℕ
text_of (listens s) = s
text_of (pushes s) = s
text_of (templates s) = s
text_of (logs s) = s
text_of (runs s) = s
text_of (bounds s) = s
text_of (waits s) = s
text_of (outputs o) = written_text o

-- Numbers are digits that fit 64 bits.
abbrev pub IsSetting : Setting → Type 0
IsSetting (bounds s) = (0 < length s) × IsDigits s × (value 0 s < 2 ^ 64)
IsSetting (waits s) = (0 < length s) × IsDigits s × (value 0 s < 2 ^ 64)
IsSetting (outputs o) = IsWritten o
IsSetting _ = Unit {0}

-- What a setting means.
abbrev pub set : Setting → Config → Config
set (listens s) c = record c { listen_addr = s }
set (pushes s) c = record c { push_url = s }
set (templates s) c = record c { push_template = s }
set (logs s) c = record c { log_level = s }
set (runs s) c = record c { mode = s }
set (bounds s) c = record c { max_pending_bytes = value 0 s }
set (waits s) c = record c { pusher_down_disconnect_ms = value 0 s }
set (outputs o) c = record c { outputs = c.outputs ++ (spec_of o ∷ []) }

abbrev pub arguments : List Setting → List (List ℕ)
arguments [] = []
arguments (s ∷ settings) = option_of s ∷ text_of s ∷ arguments settings

abbrev pub set_all : List Setting → Config → Config
set_all [] c = c
set_all (s ∷ settings) c = set_all settings (set s c)

abbrev pub All-IsSetting : List Setting → Type 0
All-IsSetting [] = Unit {0}
All-IsSetting (s ∷ settings) = IsSetting s × All-IsSetting settings

apply_choice-set :
    (s : Setting) (c : Config)
    → IsSetting s
    → apply_choice (choice_of (option_of s)) (text_of s) c ≡ ok (set s c)
unfolding apply_choice choice_of
apply_choice-set (listens s) c i = refl
apply_choice-set (pushes s) c i = refl
apply_choice-set (templates s) c i = refl
apply_choice-set (logs s) c i = refl
apply_choice-set (runs s) c i = refl
apply_choice-set (bounds s) c (p, d, f) = rw (stoull_digits s p d f) refl
apply_choice-set (waits s) c (p, d, f) = rw (stoull_digits s p d f) refl
apply_choice-set (outputs o) c i =
    rw
      (parse_output_spec-spec_text o.name o.width o.height o.video o.url i.plain i.width i.height
        i.video)
      refl

parse_loop-set_all :
    (settings : List Setting) (c : Config)
    → All-IsSetting settings
    → parse_loop (arguments settings) c ≡ ok (set_all settings c)
unfolding parse_loop
parse_loop-set_all [] c all = refl
parse_loop-set_all (s ∷ settings) c (i, all) =
    rw (apply_choice-set s c i, parse_loop) (parse_loop-set_all settings (set s c) all)

-- Settings that are written as options, any number of them in any order, are read back: a later
-- setting of the same option wins, and outputs are collected in order. Numbers are digits that fit
-- 64 bits; an output has a name without a colon, and sizes and a bitrate that fit an int.
pub parse_args-arguments :
    (settings : List Setting)
    → All-IsSetting settings
    → parse_args (arguments settings) ≡ ok (set_all settings default_config)
unfolding parse_args
parse_args-arguments settings all = parse_loop-set_all settings default_config all
