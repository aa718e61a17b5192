-- ===== src/Cli/OutputSpecs.antt =====
-- An output that is written in the format of the help is read back.
use rtmp_abr_transcoder.Base.{
  ℕ, ◌+◌, ◌-◌, ◌≡◌, refl, ap, sym, ◌∙◌, List, [], ◌∷◌, ◌++◌, some, arith, length, drop,
  length-append, append_assoc, take-append, drop-append_add,
}
use rtmp_abr_transcoder.Base.Texts.{find_from, IsWithout, find-append, find_from-append}
use rtmp_abr_transcoder.Base.Numbers.{pos, value, IsInt, stoi_digits, IsDigits-IsWithout}
use rtmp_abr_transcoder.Cli.{default_audio_bitrate, substr, parse_output_spec}

-- name:widthxheight@video_bitrate,url
abbrev pub spec_text : List ℕ → List ℕ → List ℕ → List ℕ → List ℕ → List ℕ
spec_text name w h v url =
    name ++ ((58 ∷ []) ++ (w ++ ((120 ∷ []) ++ (h ++ ((64 ∷ []) ++ (v ++ ((44 ∷ []) ++ url)))))))

-- The next separator of a text, and what stands before it.
find_field :
    (n b : ℕ) (before front rest text : List ℕ)
    → n ≡ length before
    → text ≡ before ++ (front ++ ((b ∷ []) ++ rest))
    → IsWithout b front
    → find_from (b ∷ []) n text ≡ some (n + length front)
find_field n b before front rest text e f w = rw (e, f) (find_from-append b [] before front rest w)

substr_field :
    (n m c : ℕ) (before field rest text : List ℕ)
    → n ≡ length before
    → text ≡ before ++ ((c ∷ field) ++ rest)
    → m ≡ length field
    → substr (n + 1) m text ≡ field
substr_field n m c before field rest text e f g =
    rw (f, drop-append_add (n + 1) 1 before ((c ∷ field) ++ rest) (omega (arith, e)))
      (take-append m field rest g)

-- An output that is written in the format of the help, name:widthxheight@bitrate,url, is read
-- back, and its audio bitrate goes with its video bitrate, whatever bytes the URL has. The name
-- has no colon, and the three numbers are digits that fit an int.
pub parse_output_spec-spec_text :
    (name w h v url : List ℕ)
    → IsWithout 58 name
    → IsInt w
    → IsInt h
    → IsInt v
    → parse_output_spec (spec_text name w h v url)
      ≡ some (record {
        name = name;
        width = pos (value 0 w);
        height = pos (value 0 h);
        video_bitrate_kbps = pos (value 0 v);
        audio_bitrate_kbps = default_audio_bitrate (pos (value 0 v));
        url = url;
      })
unfolding parse_output_spec
parse_output_spec-spec_text name w h v url plain iw ih iv =
    let text = spec_text name w h v url in
    let b : List ℕ = 58 ∷ w in
    let c : List ℕ = 120 ∷ h in
    let d : List ℕ = 64 ∷ v in
    let e : List ℕ = 44 ∷ url in
    let at_c : text ≡ (name ++ b) ++ (c ++ (d ++ e)) = sym (append_assoc name b (c ++ (d ++ e))) in
    let at_d : text ≡ ((name ++ b) ++ c) ++ (d ++ e) =
      at_c ∙ sym (append_assoc (name ++ b) c (d ++ e)) in
    let at_e : text ≡ (((name ++ b) ++ c) ++ d) ++ e =
      at_d ∙ sym (append_assoc ((name ++ b) ++ c) d e) in
    let n1 = length name in
    let n2 = n1 + length b in
    let n3 = n2 + length c in
    let n4 = n3 + length d in
    let len2 : n2 ≡ length (name ++ b) = omega (arith, length-append name b) in
    let len3 : n3 ≡ length ((name ++ b) ++ c) = omega (arith, len2, length-append (name ++ b) c) in
    let len4 : n4 ≡ length (((name ++ b) ++ c) ++ d) =
      omega (arith, len3, length-append ((name ++ b) ++ c) d) in
    let url_back : drop (n4 + 1) text ≡ url =
      ap (drop (n4 + 1)) at_e
      ∙ drop-append_add (n4 + 1) 1 (((name ++ b) ++ c) ++ d) e (omega (arith, len4)) in
    rw
      (
        find-append 58 [] name (w ++ (c ++ (d ++ e))) plain,
        find_field n1 120 name b (h ++ (d ++ e)) text refl refl
            (omega arith, IsDigits-IsWithout 120 w refl iw.digits),
        find_field n2 64 (name ++ b) c (v ++ e) text len2 at_c
            (omega arith, IsDigits-IsWithout 64 h refl ih.digits),
        find_field n3 44 ((name ++ b) ++ c) d url text len3 at_d
            (omega arith, IsDigits-IsWithout 44 v refl iv.digits),
        substr_field n1 (n2 - n1 - 1) 58 name w (c ++ (d ++ e)) text refl refl (omega arith),
        stoi_digits w iw.some_digit iw.digits iw.fits,
        substr_field n2 (n3 - n2 - 1) 120 (name ++ b) h (d ++ e) text len2 at_c (omega arith),
        stoi_digits h ih.some_digit ih.digits ih.fits,
        substr_field n3 (n4 - n3 - 1) 64 ((name ++ b) ++ c) v e text len3 at_d (omega arith),
        stoi_digits v iv.some_digit iv.digits iv.fits,
      )
      (rw (take-append n1 name (b ++ (c ++ (d ++ e))) refl, url_back) refl)
