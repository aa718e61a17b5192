-- ===== src/Transcode/OutputUrls.antt =====
-- What an output reads of its URL.
use rtmp_abr_transcoder.Base.{
  ℕ, ◌+◌, ◌-◌, ◌≡◌, refl, ap, sym, ◌∙◌, List, [], ◌∷◌, ◌++◌, some, arith, length, take,
  length-append, append_assoc, take-append, take-append_add, drop-append, drop-append_add,
}
use rtmp_abr_transcoder.Base.Texts.{codes, IsWithout, find_from, find-append, find_from-append}
use rtmp_abr_transcoder.Net.Address.{rfind-append}
use rtmp_abr_transcoder.Relay.Addressing.{url_of}
use rtmp_abr_transcoder.Transcode.Publishing.{url_path, path_app, stream_name_of}

-- The server of an output, and the URL in front of the stream.
abbrev pub tc_url_of : List ℕ → List ℕ → List ℕ → List ℕ
tc_url_of protocol host app = protocol ++ ((58 ∷ 47 ∷ 47 ∷ []) ++ (host ++ (47 ∷ app)))

pub url_path-url_of :
    (protocol host app stream : List ℕ)
    → IsWithout 58 protocol
    → IsWithout 47 host
    → url_path (url_of protocol host app stream)
      ≡ some (length protocol + 3 + length host, 47 ∷ (app ++ (47 ∷ stream)))
unfolding url_path
url_path-url_of protocol host app stream w w' =
    let sep : List ℕ = 58 ∷ 47 ∷ 47 ∷ [] in
    let rest : List ℕ = host ++ ((47 ∷ []) ++ (app ++ (47 ∷ stream))) in
    let before : List ℕ = protocol ++ sep in
    let size : length protocol + 3 ≡ length before = omega (arith, length-append protocol sep) in
    let found : find_from (codes "/") (length protocol + 3) (url_of protocol host app stream)
        ≡ some (length protocol + 3 + length host) =
      rw (size, ← append_assoc protocol sep rest)
        (find_from-append 47 [] before host (app ++ (47 ∷ stream)) w') in
    rw
      (
        find-append 58 (47 ∷ 47 ∷ []) protocol rest w,
        found,
        drop-append_add (length protocol + 3 + length host) (3 + length host) protocol (sep ++ rest)
            (omega arith),
        drop-append_add (3 + length host) (length host) sep rest refl,
        drop-append (length host) host ((47 ∷ []) ++ (app ++ (47 ∷ stream))) refl,
      )
      refl

pub path_app-path :
    (app stream : List ℕ) → IsWithout 47 app → path_app (47 ∷ (app ++ (47 ∷ stream))) ≡ app
unfolding path_app
path_app-path app stream w =
    let back : 1 + length app - 1 ≡ length app = omega arith in
    rw
      (
        path_app,
        find_from-append 47 [] (47 ∷ []) app stream w,
        back,
        take-append (length app) app (47 ∷ stream) refl,
      )
      refl

pub take-url_of :
    (protocol host app stream : List ℕ)
    → take (length protocol + 3 + length host + length app + 1) (url_of protocol host app stream)
      ≡ tc_url_of protocol host app
take-url_of protocol host app stream =
    let sep : List ℕ = 58 ∷ 47 ∷ 47 ∷ [] in
    let path : List ℕ = (47 ∷ app) ++ (47 ∷ stream) in
    let n = length app + 1 in
    rw
      (
        take-append_add (length protocol + 3 + length host + length app + 1) (3 + length host + n)
            protocol (sep ++ (host ++ path)) (omega arith),
        take-append_add (3 + length host + n) (length host + n) sep (host ++ path) (omega arith),
        take-append_add (length host + n) n host path refl,
        take-append n (47 ∷ app) (47 ∷ stream) (omega arith),
      )
      refl

url_of-append :
    (protocol host app stream : List ℕ)
    → url_of protocol host app stream ≡ tc_url_of protocol host app ++ (47 ∷ stream)
url_of-append protocol host app stream =
    let sep : List ℕ = 58 ∷ 47 ∷ 47 ∷ [] in
    let path : List ℕ = 47 ∷ app in
    let back : List ℕ = 47 ∷ stream in
    sym (
      append_assoc protocol (sep ++ (host ++ path)) back
      ∙ ap (λ (xs : List ℕ). protocol ++ xs) (append_assoc sep (host ++ path) back)
      ∙ ap (λ (xs : List ℕ). protocol ++ (sep ++ xs)) (append_assoc host path back))

stream_name_of-append :
    (front stream : List ℕ) → IsWithout 47 stream → stream_name_of (front ++ (47 ∷ stream)) ≡ stream
unfolding stream_name_of
stream_name_of-append front stream w =
    rw
      (
        rfind-append 47 front stream w,
        stream_name_of,
        drop-append_add (length front + 1) 1 front (47 ∷ stream) refl,
      )
      refl

pub stream_name_of-url_of :
    (protocol host app stream : List ℕ)
    → IsWithout 47 stream
    → stream_name_of (url_of protocol host app stream) ≡ stream
stream_name_of-url_of protocol host app stream w =
    ap stream_name_of (url_of-append protocol host app stream)
    ∙ stream_name_of-append (tc_url_of protocol host app) stream w
