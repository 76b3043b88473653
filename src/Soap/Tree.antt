-- ===== src/Soap/Tree.antt =====
-- The element trees that aggregator_proxy/nsi_soap/builder.py writes by `etree.Element` and
-- `etree.SubElement`: an element is its tag, its attributes, its text and its children.
pub mod Reading
pub mod Sample
use mathlib.Core.Option
use nsi_aggregator_proxy.Common.{
  if◌then◌else◌, ◌==◌, is_empty, keep, first, String, Bool, Option, List, [], ◌∷◌, ◌++◌,
}
use nsi_aggregator_proxy.Soap.Etree.{QName, same_name}

mutual
  pub data Tree : Type 0 where
    node :
        (tag : QName) (attributes : List (String × String)) (text : String) (children : Forest)
        → Tree

  pub data Forest : Type 0 where
    leafless : Forest
    grow : Tree → Forest → Forest

abbrev pub forest : List Tree → Forest
forest [] = leafless
forest (t ∷ ts) = grow t (forest ts)

abbrev pub trees : Forest → List Tree
trees leafless = []
trees (grow t f) = t ∷ trees f

-- `etree.SubElement(parent, tag).text = text`
abbrev pub leaf : QName → String → Tree
leaf tag text = node tag [] text leafless

-- An element with what is put below it.
abbrev pub branch : QName → List Tree → Tree
branch tag children = node tag [] "" (forest children)

abbrev pub tag_of : Tree → QName
tag_of (node tag attributes text children) = tag

abbrev pub text_of : Tree → String
text_of (node tag attributes text children) = text

abbrev pub attributes_of : Tree → List (String × String)
attributes_of (node tag attributes text children) = attributes

abbrev pub children_of : Tree → List Tree
children_of (node tag attributes text children) = trees children

abbrev pub has_tag : QName → Tree → Bool
has_tag tag t = same_name tag (tag_of t)

-- The first child of a tag, and its text.
abbrev pub child : QName → Tree → Option Tree
child tag t = first (has_tag tag) (children_of t)

abbrev pub child_text : QName → Tree → Option String
child_text tag t = Option.map text_of (child tag t)

abbrev pub texts_of : List Tree → List String
texts_of [] = []
texts_of (t ∷ ts) = if is_empty (text_of t) then texts_of ts else text_of t ∷ texts_of ts

-- The texts of the correlationIds of a header.
abbrev pub ids_of : List Tree → List String
ids_of children = texts_of (keep (λ t. (tag_of t).localname == "correlationId") children)

-- The texts of the correlationIds of every nsiHeader, in document order.
unfoldable mutual
  pub header_ids : Tree → List String
  header_ids (node tag attributes text children) =
      (if tag.localname == "nsiHeader" then ids_of (trees children) else [])
      ++ header_ids_below children

  pub header_ids_below : Forest → List String
  header_ids_below leafless = []
  header_ids_below (grow t f) = header_ids t ++ header_ids_below f
