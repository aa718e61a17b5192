-- ===== src/Relay/Addressing.antt =====
-- The push URL of a stream, and what is sent of it.
use rtmp_abr_transcoder.Base.{
  ℕ, ◌+◌, ◌-◌, ◌<◌, ◌≡◌, ◌≢◌, refl, ap, sym, ◌∙◌, false, List, [], ◌∷◌, ◌++◌, some, arith, ◌==◌,
  if◌then◌else◌, Bool-cases, inl, inr, length-append, ◌^◌, ◌%◌, length, take-append, drop-append,
  drop-append_add, append_assoc, append-nil,
}
use rtmp_abr_transcoder.Base.Texts.{IsWithout, IsWithout-append, find-append, find_from-append}
use rtmp_abr_transcoder.Relay.Types.{StreamId}
use rtmp_abr_transcoder.Relay.Url.{
  app_placeholder, stream_placeholder, default_template, replace_first, ends_in_slash,
  build_push_url, path_start, path_of, app_of,
}

replace_first-append :
    (b : ℕ) (text new front rest : List ℕ)
    → IsWithout b front
    → replace_first (b ∷ text) new (front ++ ((b ∷ text) ++ rest)) ≡ front ++ (new ++ rest)
unfolding replace_first
replace_first-append b text new front rest w =
    rw
      (
        replace_first,
        find-append b text front rest w,
        take-append (length front) front ((b ∷ text) ++ rest) refl,
        drop-append_add (length front + length (b ∷ text)) (length (b ∷ text)) front
            ((b ∷ text) ++ rest) refl,
        drop-append (length (b ∷ text)) (b ∷ text) rest refl,
      )
      refl

template-default :
    (id : StreamId)
    → IsWithout 123 id.app
    → replace_first stream_placeholder id.stream
        (replace_first app_placeholder id.app default_template)
      ≡ id.app ++ (47 ∷ id.stream)
template-default id w =
    let stream_text : List ℕ = 115 ∷ 116 ∷ 114 ∷ 101 ∷ 97 ∷ 109 ∷ 125 ∷ [] in
    let app_done : replace_first app_placeholder id.app default_template
        ≡ id.app ++ (47 ∷ stream_placeholder) =
      replace_first-append 123 (97 ∷ 112 ∷ 112 ∷ 125 ∷ []) id.app [] (47 ∷ stream_placeholder) tt in
    let front : List ℕ = id.app ++ (47 ∷ []) in
    let other : 47 ≢ 123 = omega arith in
    rw (app_done, ← append_assoc id.app (47 ∷ []) stream_placeholder)
      (replace_first-append 123 stream_text id.stream front []
          (IsWithout-append 123 id.app (47 ∷ []) w (other, tt))
        ∙ append_assoc id.app (47 ∷ []) (id.stream ++ [])
        ∙ ap (λ (text : List ℕ). id.app ++ (47 ∷ text)) (append-nil id.stream))

-- With the default template and a push URL that is not empty, the URL of a stream is the push URL,
-- a slash if it does not end in one, the application, a slash and the stream, if the application
-- has no opening brace.
pub build_push_url-default :
    (push_url : List ℕ) (id : StreamId)
    → 0 < length push_url
    → IsWithout 123 id.app
    → build_push_url push_url default_template id
      ≡ (if ends_in_slash push_url then push_url else push_url ++ (47 ∷ []))
        ++ (id.app ++ (47 ∷ id.stream))
unfolding build_push_url
build_push_url-default push_url id pos w =
    let some_url : (length push_url == 0) ≡ false = ground arith in
    elim (Bool-cases (ends_in_slash push_url)) [
      | inl e ↦ rw (template-default id w, some_url, e) refl
      | inr e ↦
          rw (template-default id w, some_url, e)
            (sym (append_assoc push_url (47 ∷ []) (id.app ++ (47 ∷ id.stream))))
    ]

-- A URL of a protocol, a host and a path of two parts.
abbrev pub url_of : List ℕ → List ℕ → List ℕ → List ℕ → List ℕ
url_of protocol host app stream =
    protocol ++ ((58 ∷ 47 ∷ 47 ∷ []) ++ (host ++ ((47 ∷ []) ++ (app ++ (47 ∷ stream)))))

path_start-url_of :
    (protocol host app stream : List ℕ)
    → IsWithout 58 protocol
    → IsWithout 47 host
    → length protocol + 3 < 2 ^ 64
    → path_start (url_of protocol host app stream) ≡ some (length protocol + 3 + length host)
unfolding path_start
path_start-url_of protocol host app stream w w' fits =
    let sep : List ℕ = 58 ∷ 47 ∷ 47 ∷ [] in
    let rest : List ℕ = host ++ ((47 ∷ []) ++ (app ++ (47 ∷ stream))) in
    let before : List ℕ = protocol ++ sep in
    let from : (length protocol + 3) % 2 ^ 64 ≡ length before =
      omega (arith, length-append protocol sep) in
    rw (find-append 58 (47 ∷ 47 ∷ []) protocol rest w, from, ← append_assoc protocol sep rest)
      (find_from-append 47 [] before host (app ++ (47 ∷ stream)) w'
        ∙ ap (λ (n : ℕ). some n) (omega (arith, length-append protocol sep)))

path_of-url_of :
    (protocol host app stream : List ℕ)
    → IsWithout 58 protocol
    → IsWithout 47 host
    → length protocol + 3 < 2 ^ 64
    → path_of (url_of protocol host app stream) ≡ 47 ∷ (app ++ (47 ∷ stream))
unfolding path_of
path_of-url_of protocol host app stream w w' fits =
    let sep : List ℕ = 58 ∷ 47 ∷ 47 ∷ [] in
    let path : List ℕ = 47 ∷ (app ++ (47 ∷ stream)) in
    rw
      (
        path_of,
        path_start-url_of protocol host app stream w w' fits,
        drop-append_add (length protocol + 3 + length host) (3 + length host) protocol
            (sep ++ (host ++ path)) (omega arith),
        drop-append_add (3 + length host) (length host) sep (host ++ path) refl,
        drop-append (length host) host path refl,
      )
      refl

app_of-path : (app stream : List ℕ) → IsWithout 47 app → app_of (47 ∷ (app ++ (47 ∷ stream))) ≡ app
unfolding app_of
app_of-path app stream w =
    let back : 1 + length app - 1 ≡ length app = omega arith in
    rw
      (
        app_of,
        find_from-append 47 [] (47 ∷ []) app stream w,
        back,
        take-append (length app) app (47 ∷ stream) refl,
      )
      refl

-- A pusher whose push URL is a protocol and a host, without a slash at its end, and whose template
-- is the default one, connects to the application of its stream: the first part of the path of its
-- URL. The protocol has no colon, the host is not empty and has no slash, and the application has
-- neither a slash nor an opening brace.
pub app_of-build_push_url :
    (protocol host : List ℕ) (id : StreamId)
    → IsWithout 58 protocol
    → IsWithout 47 host
    → ends_in_slash (protocol ++ ((58 ∷ 47 ∷ 47 ∷ []) ++ host)) ≡ false
    → length protocol + 3 < 2 ^ 64
    → IsWithout 47 id.app
    → IsWithout 123 id.app
    → app_of
        (path_of (build_push_url (protocol ++ ((58 ∷ 47 ∷ 47 ∷ []) ++ host)) default_template id))
      ≡ id.app
app_of-build_push_url protocol host id w w' open_end fits slashes braces =
    let sep : List ℕ = 58 ∷ 47 ∷ 47 ∷ [] in
    let push_url : List ℕ = protocol ++ (sep ++ host) in
    let path : List ℕ = id.app ++ (47 ∷ id.stream) in
    let some_url : 0 < length push_url = omega (arith, length-append protocol (sep ++ host)) in
    let whole : build_push_url push_url default_template id
        ≡ url_of protocol host id.app id.stream =
      build_push_url-default push_url id some_url braces
      ∙ rw open_end (
          append_assoc push_url (47 ∷ []) path
          ∙ append_assoc protocol (sep ++ host) (47 ∷ path)
          ∙ ap (λ (xs : List ℕ). protocol ++ xs) (append_assoc sep host (47 ∷ path))) in
    rw (whole, path_of-url_of protocol host id.app id.stream w w' fits)
      (app_of-path id.app id.stream slashes)
