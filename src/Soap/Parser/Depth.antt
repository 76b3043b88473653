-- ===== src/Soap/Parser/Depth.antt =====
-- An exception is read whole: the height of an element is enough for the recursion.
-- The elements below an element are nested less deep than it is.
use nsi_aggregator_proxy.Common.{Member, ℕ, zero, suc, ◌<◌, ◌≡◌, refl, arith}
use nsi_aggregator_proxy.Soap.Etree.{plain, Etree}
use nsi_aggregator_proxy.Soap.Etree.Laws.{read_all-congr}
use nsi_aggregator_proxy.Soap.Parser.Exceptions.{
  read_exception, exceptions_to, parse_service_exception,
}

pub record IsNested {Element : Type 0} (etree : Etree Element) : Type 0 where
  pub lower :
      (element child : Element)
      → Member child (etree.findall element (plain "childException"))
      → etree.height child < etree.height element

module _ {Element : Type 0} (etree : Etree Element) (nested : IsNested etree) where
  exceptions_to-eq :
      (n m : ℕ) (element : Element)
      → etree.height element < n
      → etree.height element < m
      → exceptions_to etree n element ≡ exceptions_to etree m element
  unfolding exceptions_to read_exception
  exceptions_to-eq zero m element h k = elim h [ ]
  exceptions_to-eq (suc n) zero element h k = elim k [ ]
  exceptions_to-eq (suc n) (suc m) element h k =
      rw
        (read_all-congr (exceptions_to etree n) (exceptions_to etree m)
          (etree.findall element (plain "childException"))
          (λ x member.
            exceptions_to-eq n m x (omega (arith, nested.lower element x member))
              (omega (arith, nested.lower element x member))))
        refl

  -- If child exceptions are nested less deep than the exception that holds them, then
  -- `_parse_service_exception` is the recursion of the source, without a bound: what it makes of an
  -- element is what one round makes of it that reads the child exceptions by the function itself.
  pub parse_service_exception_lem :
      (element : Element)
      → parse_service_exception etree element
        ≡ read_exception etree (parse_service_exception etree) element
  unfolding parse_service_exception exceptions_to read_exception
  parse_service_exception_lem element =
      rw
        (read_all-congr (exceptions_to etree (etree.height element)) (parse_service_exception etree)
          (etree.findall element (plain "childException"))
          (λ x member.
            exceptions_to-eq (etree.height element) (suc (etree.height x)) x
              (nested.lower element x member) (omega arith)))
        refl
