-- ===== src/Base/Texts.antt =====
-- Texts as lists of bytes: what std::string's == and find do.
use Prim.Native.Char.{code}
use Prim.Native.String.{String}
use rtmp_abr_transcoder.Base.Options.{◌>>=◌}
use rtmp_abr_transcoder.Base.{
  ℕ, suc, ◌+◌, ◌≡◌, ◌≢◌, refl, Bool, true, false, ◌&&◌, List, [], ◌∷◌, ◌++◌, Option, none, some,
  arith, ◌==◌, if◌then◌else◌, ==_self, length, drop, drop-append, take, ◌-◌,
}

-- The bytes of an ASCII text.
abbrev pub codes : String → List ℕ
codes String.[] = []
codes (String.◌∷◌ c s) = code c ∷ codes s

-- `==` on `std::string`.
abbrev pub same_text : List ℕ → List ℕ → Bool
same_text [] [] = true
same_text [] (b ∷ bs) = false
same_text (a ∷ as') [] = false
same_text (a ∷ as') (b ∷ bs) = a == b && same_text as' bs

abbrev pub starts_with : List ℕ → List ℕ → Bool
starts_with [] s = true
starts_with (a ∷ text) [] = false
starts_with (a ∷ text) (b ∷ s) = a == b && starts_with text s

-- s.find(text): the first position of a text that is not empty.
unfoldable pub find : List ℕ → List ℕ → Option ℕ
find text [] = none
find text (b ∷ s) =
    let rest = find text s in
    if starts_with text (b ∷ s) then some 0 else elim rest [ none ↦ none | some i ↦ some (suc i) ]

-- s.find(text, from).
unfoldable pub find_from : List ℕ → ℕ → List ℕ → Option ℕ
find_from text from s = elim (find text (drop from s)) [ none ↦ none | some i ↦ some (from + i) ]

-- The host and the port of a URL, up to the path or to the end.
unfoldable pub host_port_of : List ℕ → Option (List ℕ)
host_port_of url = do
  proto_end ← find (codes "://") url
  some (elim (find_from (codes "/") (proto_end + 3) url) [
    | none ↦ drop (proto_end + 3) url
    | some path_start ↦ take (path_start - (proto_end + 3)) (drop (proto_end + 3) url)
  ])

-- A text without the byte `b`.
abbrev pub IsWithout : ℕ → List ℕ → Type 0
IsWithout b [] = Unit {0}
IsWithout b (a ∷ text) = (a ≢ b) × IsWithout b text

pub starts_with_self : (text rest : List ℕ) → starts_with text (text ++ rest) ≡ true
starts_with_self [] rest = refl
starts_with_self (a ∷ text) rest = rw (==_self a, starts_with_self text rest) refl

pub ==_other : (a b : ℕ) → a ≢ b → (b == a) ≡ false
==_other a b h = ground arith

pub ==_flip : (a b : ℕ) → a ≢ b → (a == b) ≡ false
==_flip a b h = ground arith

-- A text whose first byte comes nowhere before it is found just there.
pub find-append :
    (b : ℕ) (text front rest : List ℕ)
    → IsWithout b front
    → find (b ∷ text) (front ++ ((b ∷ text) ++ rest)) ≡ some (length front)
unfolding find
find-append b text [] rest w = rw (==_self b, starts_with_self text rest) refl
find-append b text (a ∷ front) rest (other, w) =
    rw (==_other a b other, find-append b text front rest w) refl

pub find_from-append :
    (b : ℕ) (text before front rest : List ℕ)
    → IsWithout b front
    → find_from (b ∷ text) (length before) (before ++ (front ++ ((b ∷ text) ++ rest)))
      ≡ some (length before + length front)
unfolding find_from
find_from-append b text before front rest w =
    rw
      (
        find_from,
        drop-append (length before) before (front ++ ((b ∷ text) ++ rest)) refl,
        find-append b text front rest w,
      )
      refl

pub IsWithout-append :
    (b : ℕ) (front back : List ℕ)
    → IsWithout b front
    → IsWithout b back
    → IsWithout b (front ++ back)
IsWithout-append b [] back w w' = w'
IsWithout-append b (a ∷ front) back (other, w) w' = (other, IsWithout-append b front back w w')
