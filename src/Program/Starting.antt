-- ===== src/Program/Starting.antt =====
-- The program that is started for a ladder of outputs.
use rtmp_abr_transcoder.Base.{
  ℕ, ◌%◌, ◌^◌, ◌<◌, ◌≡◌, refl, ap, sym, ◌∙◌, true, false, List, [], ◌∷◌, ◌++◌, Option, some, ok,
  arith, ◌==◌, length, map, append_assoc, append-nil,
}
use rtmp_abr_transcoder.Base.Texts.{codes}
use rtmp_abr_transcoder.Base.Numbers.{value, IsInt}
use rtmp_abr_transcoder.Net.Address.{first_address, with_port, parse_address, parse_address_lem}
use rtmp_abr_transcoder.Cli.{OutputSpec, Config, default_config, parse_args}
use rtmp_abr_transcoder.Cli.Arguments.{
  Written, spec_of, IsWritten, Setting, listens, runs, outputs, All-IsSetting, arguments, set_all,
  parse_args-arguments,
}
use rtmp_abr_transcoder.Chunks.RoundTrip.{All}
use rtmp_abr_transcoder.Relay.Types.{default_policy}
use rtmp_abr_transcoder.Program.{
  mode_is_usable, policy_of, output_config, add_outputs, service_of, start_service, start_main,
}

abbrev ladder_settings : List Written → List Setting
ladder_settings [] = []
ladder_settings (o ∷ os) = outputs o ∷ ladder_settings os

set_all-ladder :
    (os : List Written) (c : Config)
    → set_all (ladder_settings os) c ≡ record c { outputs = c.outputs ++ map spec_of os }
set_all-ladder [] c = let same = sym (append-nil c.outputs) in λ i. record c { outputs = same i }
set_all-ladder (o ∷ os) c =
    set_all-ladder os (record c { outputs = c.outputs ++ (spec_of o ∷ []) }) ∙ λ i. record c {
      outputs = append_assoc c.outputs (spec_of o ∷ []) (map spec_of os) i;
    }

ladder-IsSetting : (os : List Written) → All IsWritten os → All-IsSetting (ladder_settings os)
ladder-IsSetting [] all = tt
ladder-IsSetting (o ∷ os) (w, all) = (w, ladder-IsSetting os all)

add_outputs-map : (specs : List OutputSpec) → add_outputs specs ≡ map output_config specs
unfolding add_outputs
add_outputs-map [] = refl
add_outputs-map (s ∷ specs) = ap (◌∷◌ (output_config s)) (add_outputs-map specs)

-- The arguments for a transcoder that listens on a host and a port.
abbrev pub ladder_arguments : List ℕ → List ℕ → List Written → List (List ℕ)
ladder_arguments host ds os =
    arguments (runs (codes "transcode") ∷ listens (host ++ (58 ∷ ds)) ∷ ladder_settings os)

abbrev ladder_config : List ℕ → List ℕ → List Written → Config
ladder_config host ds os = record default_config {
  mode = codes "transcode";
  listen_addr = host ++ (58 ∷ ds);
  outputs = map spec_of os;
}

some_length {ℓ} : {A : Type ℓ} (xs : List A) → 0 < length xs → (length xs == 0) ≡ false
some_length xs h = ground arith

address-ladder :
    (resolve : List ℕ → Option (List (Option (List ℕ)))) (host ds : List ℕ)
    → (entries : List (Option (List ℕ))) → IsInt ds
    → resolve host ≡ some entries
    → 0 < length (first_address entries)
    → parse_address resolve (host ++ (58 ∷ ds)) ≡ ok (first_address entries, value 0 ds % 2 ^ 16)
unfolding with_port
address-ladder resolve host ds entries i e p =
    (parse_address_lem resolve host ds i).0 ∙ rw (e, some_length (first_address entries) p) refl

start_service-ladder :
    (resolve : List ℕ → Option (List (Option (List ℕ)))) (host ds : List ℕ)
    → (entries : List (Option (List ℕ))) (o : Written) (os : List Written) → IsInt ds
    → resolve host ≡ some entries
    → 0 < length (first_address entries)
    → start_service resolve true (ladder_config host ds (o ∷ os))
      ≡ ok (record {
        debug = false;
        policy = default_policy;
        push_url = [];
        push_template = codes "{app}/{stream}";
        transcoder = some (map output_config (map spec_of (o ∷ os)));
        address = first_address entries;
        port = value 0 ds % 2 ^ 16;
      })
unfolding start_service service_of policy_of
start_service-ladder resolve host ds entries o os i e p =
    rw
      (
        address-ladder resolve host ds entries i e p,
        start_service,
        add_outputs-map (map spec_of (o ∷ os)),
      )
      refl

-- A program that is started in the mode transcode, on a host and a port, with one or more outputs
-- in the format of the help, has a transcoder with just these outputs, in order, listens at the
-- first address of the host, at the port modulo 2 ^ 16, and keeps the default policy. The host can
-- be resolved to an address, the server starts, the port fits an int, and the outputs are as the
-- format allows.
pub start_main-ladder :
    (resolve : List ℕ → Option (List (Option (List ℕ)))) (host ds : List ℕ)
    → (entries : List (Option (List ℕ))) (o : Written) (os : List Written) → IsInt ds
    → resolve host ≡ some entries
    → 0 < length (first_address entries)
    → All IsWritten (o ∷ os)
    → start_main resolve true (ladder_arguments host ds (o ∷ os))
      ≡ ok (record {
        debug = false;
        policy = default_policy;
        push_url = [];
        push_template = codes "{app}/{stream}";
        transcoder = some (map output_config (map spec_of (o ∷ os)));
        address = first_address entries;
        port = value 0 ds % 2 ^ 16;
      })
unfolding start_main mode_is_usable service_of policy_of
start_main-ladder resolve host ds entries o os i e p all =
    let settings : List Setting =
      runs (codes "transcode") ∷ listens (host ++ (58 ∷ ds)) ∷ ladder_settings (o ∷ os) in
    let config = ladder_config host ds (o ∷ os) in
    let parsed : parse_args (ladder_arguments host ds (o ∷ os)) ≡ ok config =
      parse_args-arguments settings (tt, (tt, ladder-IsSetting (o ∷ os) all))
      ∙ ap (λ (c : Config). ok c)
          (set_all-ladder (o ∷ os) (record default_config {
            mode = codes "transcode";
            listen_addr = host ++ (58 ∷ ds);
          })) in
    let usable : mode_is_usable config ≡ true =
      rw (some_length (map spec_of (o ∷ os)) (omega arith)) refl in
    rw (parsed, start_main, usable) (start_service-ladder resolve host ds entries o os i e p)
