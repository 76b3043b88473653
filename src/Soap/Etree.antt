-- ===== src/Soap/Etree.antt =====
-- What aggregator_proxy/nsi_soap asks of lxml, as an interface, with the namespaces of
-- namespaces.py and the outcome of a parser as a monad.
pub mod Laws
use nsi_aggregator_proxy.Common.{
  ◌==◌, ◌<>◌, ℕ, String, Bool, ◌&&◌, Option, none, some, List, [], ◌∷◌,
}
use nsi_aggregator_proxy.Runtime.{Content, Parsed, value, value_error, ◌>>◌}
use nsi_aggregator_proxy.Store.{get}

-- A tag as `{namespace}localname`; the namespace is "" where the source writes none.
pub record QName : Type 0 where
  pub namespace : String
  pub localname : String

abbrev pub plain : String → QName
plain name = record { namespace = ""; localname = name }

-- NSMAP, as far as the parser and the builder use it.
abbrev pub soapenv : String
soapenv = "http://schemas.xmlsoap.org/soap/envelope/"

abbrev pub nsi_headers : String
nsi_headers = "http://schemas.ogf.org/nsi/2013/12/framework/headers"

abbrev pub nsi_ctypes : String
nsi_ctypes = "http://schemas.ogf.org/nsi/2013/12/connection/types"

abbrev pub nsi_p2p : String
nsi_p2p = "http://schemas.ogf.org/nsi/2013/12/services/point2point"

abbrev pub in_soapenv : String → QName
in_soapenv name = record { namespace = soapenv; localname = name }

abbrev pub in_headers : String → QName
in_headers name = record { namespace = nsi_headers; localname = name }

abbrev pub in_ctypes : String → QName
in_ctypes name = record { namespace = nsi_ctypes; localname = name }

abbrev pub in_p2p : String → QName
in_p2p name = record { namespace = nsi_p2p; localname = name }

abbrev pub same_name : QName → QName → Bool
same_name a b = a.namespace == b.namespace && a.localname == b.localname

-- The calls of lxml, and Python's `int` on a text.
pub record Etree (Element : Type 0) : Type 0 where
  -- `none` for an XMLSyntaxError.
  pub fromstring : Content → Option Element
  -- The direct children of a tag: the first, its text ("" if it has none), and all.
  pub find : Element → QName → Option Element
  pub findtext : Element → QName → Option String
  pub findall : Element → QName → List Element
  -- `find(".//{*}name")`
  pub find_anywhere : Element → String → Option Element
  pub get : Element → String → Option String
  -- The nodes below an element, comments included; the tag of a comment is no text.
  pub children : Element → List Element
  pub tag : Element → Option QName
  -- `xpath("//*[local-name()='nsiHeader']/*[local-name()='correlationId']/text()")`
  pub correlation_ids : Element → List String
  -- How deep the elements below an element are nested.
  pub height : Element → ℕ
  pub int : String → Parsed ℕ

module _ {A B : Type 0} where
  infixl 5 ◌>>=◌
  abbrev pub ◌>>=◌ : Parsed A → (A → Parsed B) → Parsed B
  value a >>= f = f a
  value_error message >>= f = value_error message

module _ {A B : Type 0} where
  -- `[f(x) for x in xs]`, where `f` may raise.
  unfoldable pub read_all : (A → Parsed B) → List A → Parsed (List B)
  read_all f [] = value []
  read_all f (x ∷ xs) = do y ← f x; ys ← read_all f xs; value (y ∷ ys)

  -- `f(x) if x is not None else None`
  abbrev pub read_optional : (A → Parsed B) → Option A → Parsed (Option B)
  read_optional f none = value none
  read_optional f (some a) = do b ← f a; value (some b)

-- A value that may be missing, and what is done without it.
abbrev pub found_or : {A : Type 0} → Option A → Parsed A → Parsed A
found_or none missing = missing
found_or (some a) missing = value a

module _ {Element : Type 0} (etree : Etree Element) where
  abbrev pub name_of : Option QName → Parsed String
  name_of none = value_error "Invalid tag name"
  name_of (some name) = value name.localname

  -- `etree.QName(element.tag).localname`
  abbrev pub local_name : Element → Parsed String
  local_name element = name_of (etree.tag element)

  -- `_require`
  unfoldable pub require : Element → String → Parsed String
  require element tag = found_or (etree.findtext element (plain tag)) (do
    local ← local_name element
    value_error ("Required element <" <> tag <> "> not found inside <" <> local <> ">"))

  -- `int(_require(element, tag))` and `_require(element, tag) == "true"`
  unfoldable pub require_int : Element → String → Parsed ℕ
  unfolding require
  require_int element tag = do text ← require element tag; etree.int text

  unfoldable pub require_flag : Element → String → Parsed Bool
  unfolding require
  require_flag element tag = do text ← require element tag; value (text == "true")
