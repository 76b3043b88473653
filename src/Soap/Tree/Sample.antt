-- ===== src/Soap/Tree/Sample.antt =====
-- An `Etree` whose elements are the trees themselves, for the concrete inputs of the theorems. It
-- reads documents by a table.
use mathlib.Core.Option
use nsi_aggregator_proxy.Common.Dict
use nsi_aggregator_proxy.Common.{
  if◌then◌else◌, Bool-cases, ◌==◌, is_empty, keep, first, All, Member, keep-Member, All-append, ℕ,
  suc, ◌+◌, ◌≤◌, ◌<◌, String, ◌≡◌, refl, ap, inl, inr, false, Option, none, some, List, [], ◌∷◌,
  map, arith,
}
use nsi_aggregator_proxy.Runtime.{Content, Parsed, value, value_error}
use nsi_aggregator_proxy.Soap.Etree.{plain, Etree}
use nsi_aggregator_proxy.Soap.Parser.Depth.{IsNested}
use nsi_aggregator_proxy.Soap.Tree.{
  children_of, Tree, node, Forest, leafless, grow, trees, tag_of, text_of, attributes_of, has_tag,
  child, child_text, texts_of, header_ids, header_ids_below,
}
use nsi_aggregator_proxy.Soap.Tree.Reading.{IsRead}

abbrev mutual
  pub size : Tree → ℕ
  size (node tag attributes text children) = suc (size_below children)

  pub size_below : Forest → ℕ
  size_below leafless = 0
  size_below (grow t f) = size t + size_below f

-- The place of a text in a list of numerals.
abbrev pub number_in : List String → ℕ → String → Parsed ℕ
number_in [] n text = value_error "invalid literal for int()"
number_in (numeral ∷ numerals) n text =
    let rest = number_in numerals (suc n) text in if text == numeral then value n else rest

abbrev pub numerals : List String
numerals = "0" ∷ "1" ∷ "2" ∷ "3" ∷ "4" ∷ "5" ∷ "6" ∷ "7" ∷ "8" ∷ "9" ∷ "10" ∷ []

abbrev pub tree_etree : (Content → Option Tree) → Etree Tree
tree_etree document = record {
  fromstring = document;
  find = λ t tag. child tag t;
  findtext = λ t tag. child_text tag t;
  findall = λ t tag. keep (has_tag tag) (children_of t);
  find_anywhere = λ t name. first (λ u. (tag_of u).localname == name) (children_of t);
  get = λ t name. Dict.lookup name (attributes_of t);
  children = children_of;
  tag = λ t. some (tag_of t);
  correlation_ids = header_ids;
  height = size;
  int = number_in numerals 0;
}

texts_of-told : (ts : List Tree) → All (λ text. is_empty text ≡ false) (texts_of ts)
texts_of-told [] = tt
texts_of-told (t ∷ ts) = elim (Bool-cases (is_empty (text_of t))) [
  | inl p ↦ rw p (texts_of-told ts)
  | inr q ↦ rw q (q, texts_of-told ts)
]

mutual
  unfolding header_ids

  header_ids-told : (t : Tree) → All (λ text. is_empty text ≡ false) (header_ids t)
  header_ids-told (node tag attributes text children) =
      All-append _ _ _
        (elim (Bool-cases (tag.localname == "nsiHeader")) [
          | inl p ↦
              rw p (
                texts_of-told
                  (keep (λ t. (tag_of t).localname == "correlationId") (trees children)))
          | inr q ↦ rw q tt
        ])
        (header_ids_below-told children)

  header_ids_below-told : (f : Forest) → All (λ text. is_empty text ≡ false) (header_ids_below f)
  header_ids_below-told leafless = tt
  header_ids_below-told (grow t f) = All-append _ _ _ (header_ids-told t) (header_ids_below-told f)

map-id : (o : Option Tree) → o ≡ Option.map (λ t. t) o
map-id none = refl
map-id (some t) = refl

map-id_list : (ts : List Tree) → ts ≡ map (λ t. t) ts
map-id_list [] = refl
map-id_list (t ∷ ts) = ap (◌∷◌ t) (map-id_list ts)

pub tree_etree-IsRead : (document : Content → Option Tree) → IsRead (tree_etree document) (λ t. t)
tree_etree-IsRead document = record {
  tagged = λ t. refl;
  found = λ t tag. map-id (child tag t);
  found_text = λ t tag. refl;
  listed = λ t. map-id_list (children_of t);
  identified = λ t. refl;
  told = header_ids-told;
}

size-Member : (t : Tree) (f : Forest) → Member t (trees f) → size t ≤ size_below f
size-Member t leafless m = elim m [ ]
size-Member t (grow u f) (inl e) = rw e (omega arith)
size-Member t (grow u f) (inr m) = omega (arith, size-Member t f m)

pub tree_etree-IsNested : (document : Content → Option Tree) → IsNested (tree_etree document)
tree_etree-IsNested document = record { lower = lower }
  where
    lower :
        (t c : Tree)
        → Member c (keep (has_tag (plain "childException")) (children_of t))
        → size c < size t
    lower (node tag attributes text children) c m =
        let (member, _) = keep-Member (has_tag (plain "childException")) c (trees children) m in
        omega (arith, size-Member c children member)
