-- ===== src/Auth/Groups.antt =====
-- A header of group names, written with commas, as `_parse_groups` reads it.
use Prim.Native.Char.{Char, code}
use Prim.Native.String.append
use nsi_aggregator_proxy.Auth.{parse_groups}
use nsi_aggregator_proxy.Common.{
  eqb, ◌<>◌, is_empty, join, keep, All, ℕ, String, ◌≡◌, refl, ap, ◌∙◌, Bool, true, false, not, ◌&&◌,
  List, [], ◌∷◌, map, arith,
}
use nsi_aggregator_proxy.Common.Words.{
  is_space, rstrip, strip, begins_word, attach, split, space, commas_to_spaces,
}

-- A character of a group's name: no space, and no comma.
abbrev pub is_plain : ℕ → Bool
is_plain c = not (is_space c) && not (eqb c b',')

abbrev pub all_plain : String → Bool
all_plain String.[] = true
all_plain (String.◌∷◌ c s) = is_plain (code c) && all_plain s

-- A name that is not empty and has neither spaces nor commas.
abbrev pub IsName : String → Type 0
IsName g = (is_empty g ≡ false) × (all_plain g ≡ true)

nil-append : (t : String) → String.[] <> t ≡ t
nil-append t = λ i. append.nil t i

cons-append : (c : Char) (s t : String) → (String.◌∷◌ c s) <> t ≡ String.◌∷◌ c (s <> t)
cons-append c s t = λ i. append.cons c s t i

plain_char :
    (c : Char) (s : String)
    → all_plain (String.◌∷◌ c s) ≡ true
    → (is_space (code c) ≡ false) × (eqb (code c) b',' ≡ false) × (all_plain s ≡ true)
plain_char c s h = (ground arith, ground arith, ground arith)

commas_to_spaces-append :
    (g t : String) → all_plain g ≡ true → commas_to_spaces (g <> t) ≡ g <> commas_to_spaces t
unfolding commas_to_spaces
commas_to_spaces-append String.[] t h = rw (nil-append t, nil-append (commas_to_spaces t)) refl
commas_to_spaces-append (String.◌∷◌ c s) t h =
    let (_, other, rest) = plain_char c s h in
    rw (cons-append c s t) (
      rw other (
        rw (cons-append c s (commas_to_spaces t))
          (ap (String.◌∷◌ c) (commas_to_spaces-append s t rest))))

commas_to_spaces_plain : (g : String) → all_plain g ≡ true → commas_to_spaces g ≡ g
unfolding commas_to_spaces
commas_to_spaces_plain String.[] h = refl
commas_to_spaces_plain (String.◌∷◌ c s) h =
    let (_, other, rest) = plain_char c s h in
    rw other (ap (String.◌∷◌ c) (commas_to_spaces_plain s rest))

begins_word-append :
    (c : Char) (s t : String)
    → all_plain (String.◌∷◌ c s) ≡ true
    → begins_word ((String.◌∷◌ c s) <> t) ≡ true
begins_word-append c s t h =
    let (visible, _, _) = plain_char c s h in rw (cons-append c s t) (rw visible refl)

-- A name before a space is the first word.
split-append :
    (c : Char) (s t : String)
    → all_plain (String.◌∷◌ c s) ≡ true
    → split ((String.◌∷◌ c s) <> String.◌∷◌ space t) ≡ String.◌∷◌ c s ∷ split t
unfolding split is_space
split-append c String.[] t h =
    let (visible, _, _) = plain_char c String.[] h in
    rw (cons-append c String.[] (String.◌∷◌ space t), nil-append (String.◌∷◌ space t))
      (rw visible refl)
split-append c (String.◌∷◌ d s) t h =
    let (visible, _, rest) = plain_char c (String.◌∷◌ d s) h in
    rw (cons-append c (String.◌∷◌ d s) (String.◌∷◌ space t)) (
      rw visible
        (rw (begins_word-append d s (String.◌∷◌ space t) rest) (rw (split-append d s t rest) refl)))

split_plain :
    (c : Char) (s : String)
    → all_plain (String.◌∷◌ c s) ≡ true
    → split (String.◌∷◌ c s) ≡ String.◌∷◌ c s ∷ []
unfolding split
split_plain c String.[] h = let (visible, _, _) = plain_char c String.[] h in rw visible refl
split_plain c (String.◌∷◌ d s) h =
    let (visible, _, rest) = plain_char c (String.◌∷◌ d s) h in
    let (visible', _, _) = plain_char d s rest in
    rw visible (
      ap (λ b. attach c (not b) (split (String.◌∷◌ d s))) visible'
      ∙ ap (attach c true) (split_plain d s rest))

rstrip_plain : (s : String) → all_plain s ≡ true → rstrip s ≡ s
unfolding rstrip
rstrip_plain String.[] h = refl
rstrip_plain (String.◌∷◌ c String.[]) h =
    let (visible, _, _) = plain_char c String.[] h in rw visible refl
rstrip_plain (String.◌∷◌ c (String.◌∷◌ d s)) h =
    let (_, _, rest) = plain_char c (String.◌∷◌ d s) h in
    rw (rstrip_plain (String.◌∷◌ d s) rest) refl

pub strip_plain : (s : String) → all_plain s ≡ true → strip s ≡ s
unfolding strip
strip_plain String.[] h = refl
strip_plain (String.◌∷◌ c s) h =
    let (visible, _, _) = plain_char c s h in rw visible (rstrip_plain (String.◌∷◌ c s) h)

kept : (gs : List String) → All IsName gs → map strip (keep (λ g. not (is_empty (strip g))) gs) ≡ gs
kept [] h = refl
kept (g ∷ gs) ((told, clean), rest) =
    rw (strip_plain g clean) (rw told (rw (strip_plain g clean) (ap (◌∷◌ g) (kept gs rest))))

split_nothing : split (commas_to_spaces "") ≡ []
unfolding split commas_to_spaces
split_nothing = refl

abbrev comma : Char
comma = ","

comma-append : (t : String) → "," <> t ≡ String.◌∷◌ comma t
comma-append t = cons-append comma String.[] t ∙ ap (String.◌∷◌ comma) (nil-append t)

comma_to_space : (t : String) → commas_to_spaces ("," <> t) ≡ String.◌∷◌ space (commas_to_spaces t)
unfolding commas_to_spaces
comma_to_space t = rw (comma-append t) refl

split-join : (gs : List String) → All IsName gs → split (commas_to_spaces (join "," gs)) ≡ gs
split-join [] h = split_nothing
split-join (String.[] ∷ gs) ((told, clean), rest) = cc (told)
split-join (String.◌∷◌ c s ∷ []) ((told, clean), rest) =
    rw (commas_to_spaces_plain (String.◌∷◌ c s) clean) (split_plain c s clean)
split-join (String.◌∷◌ c s ∷ h ∷ gs) ((told, clean), rest) =
    rw
      (
        commas_to_spaces-append (String.◌∷◌ c s) ("," <> join "," (h ∷ gs)) clean,
        comma_to_space (join "," (h ∷ gs)),
        split-append c s (commas_to_spaces (join "," (h ∷ gs))) clean,
      )
      (ap (◌∷◌ (String.◌∷◌ c s)) (split-join (h ∷ gs) rest))

-- Group names that are not empty and have neither spaces nor commas survive the header: joined by
-- commas, they are read back as they were.
pub parse_groups-join : (gs : List String) → All IsName gs → parse_groups (join "," gs) ≡ gs
unfolding parse_groups
parse_groups-join gs names = rw (split-join gs names) (kept gs names)
