-- ===== src/Soap/Tree/Reading.antt =====
-- What lxml makes of a tree that it has written and read again.
use mathlib.Core.Option
use nsi_aggregator_proxy.Common.{is_empty, All, ◌≡◌, false, some, map}
use nsi_aggregator_proxy.Soap.Etree.{QName, Etree}
use nsi_aggregator_proxy.Soap.Tree.{children_of, Tree, tag_of, child, child_text, header_ids}

-- `element t` is the element that is read where `t` was written. The texts that the XPath selects
-- are text nodes, which are not empty.
pub record IsRead {Element : Type 0} (etree : Etree Element) (element : Tree → Element)
    : Type 0 where
  pub tagged : (t : Tree) → etree.tag (element t) ≡ some (tag_of t)
  pub found :
      (t : Tree) (tag : QName) → etree.find (element t) tag ≡ Option.map element (child tag t)
  pub found_text : (t : Tree) (tag : QName) → etree.findtext (element t) tag ≡ child_text tag t
  pub listed : (t : Tree) → etree.children (element t) ≡ map element (children_of t)
  pub identified : (t : Tree) → etree.correlation_ids (element t) ≡ header_ids t
  pub told : (e : Element) → All (λ id. is_empty id ≡ false) (etree.correlation_ids e)
