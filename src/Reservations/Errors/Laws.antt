-- ===== src/Reservations/Errors/Laws.antt =====
-- The root causes of an exception tree.
use mathlib.Core.Path.{subst}
use nsi_aggregator_proxy.Common.{
  All, Member, All-append, All-Member, Member-append, append-Member, String, ◌≡◌, refl, ◌↔◌, ◌⊎◌,
  inl, inr, Option, List,
}
use nsi_aggregator_proxy.Reservations.Errors.{root_causes, causes_below, causes_of, child_list}
use nsi_aggregator_proxy.Soap.Messages.{
  Variable, ServiceException, exception, ChildExceptions, absent, present, ExceptionList, nil, cons,
}

-- An exception that wraps no other.
abbrev pub IsLeaf : ServiceException → Type 0
IsLeaf (exception nsa connection error text variables children) = child_list children ≡ nil

mutual
  unfolding root_causes

  root_causes-leaves : (e : ServiceException) → All IsLeaf (root_causes e)
  root_causes-leaves (exception n c i t v children) = below-leaves children n c i t v

  below-leaves :
      (children : ChildExceptions) (n : String) (c : Option String) (i t : String)
      (v : Option (List Variable))
      → All IsLeaf (causes_below children (exception n c i t v children))
  below-leaves absent n c i t v = (refl, tt)
  below-leaves (present nil) n c i t v = (refl, tt)
  below-leaves (present (cons e es)) n c i t v =
      All-append IsLeaf (root_causes e) (causes_of es) (root_causes-leaves e) (list-leaves es)

  list-leaves : (es : ExceptionList) → All IsLeaf (causes_of es)
  list-leaves nil = tt
  list-leaves (cons e es) =
      All-append IsLeaf (root_causes e) (causes_of es) (root_causes-leaves e) (list-leaves es)

abbrev pub MemberOf : ServiceException → ExceptionList → Type 0
MemberOf x nil = ⊥
MemberOf x (cons e es) = (x ≡ e) ⊎ MemberOf x es

abbrev pub children_of : ServiceException → ExceptionList
children_of (exception nsa connection error text variables children) = child_list children

-- `x` is `e` or stands in the tree below it.
pub data Descends (x : ServiceException) : ServiceException → Type 0 where
  itself : Descends x x
  below : {c e : ServiceException} → MemberOf c (children_of e) → Descends x c → Descends x e

module _ (x : ServiceException) where
  causes_of_child :
      (c : ServiceException) (es : ExceptionList)
      → MemberOf c es
      → Member x (root_causes c)
      → Member x (causes_of es)
  unfolding root_causes
  causes_of_child c nil m n = absurd m
  causes_of_child c (cons e es) (inl p) n =
      Member-append x (root_causes e) (causes_of es) (inl (rw p at n))
  causes_of_child c (cons e es) (inr m) n =
      Member-append x (root_causes e) (causes_of es) (inr (causes_of_child c es m n))

  root_causes_of_children :
      (e : ServiceException) → Member x (causes_of (children_of e)) → Member x (root_causes e)
  unfolding root_causes
  root_causes_of_children (exception n c i t v absent) m = absurd m
  root_causes_of_children (exception n c i t v (present nil)) m = absurd m
  root_causes_of_children (exception n c i t v (present (cons e es))) m = m

  root_causes_of_leaf : (e : ServiceException) → IsLeaf e → Member e (root_causes e)
  unfolding root_causes
  root_causes_of_leaf (exception n c i t v absent) h = inl refl
  root_causes_of_leaf (exception n c i t v (present nil)) h = inl refl
  root_causes_of_leaf (exception n c i t v (present (cons e es))) h = absurd (cc h)

  root_causes_complete : {e : ServiceException} → Descends x e → IsLeaf x → Member x (root_causes e)
  root_causes_complete itself h = root_causes_of_leaf x h
  root_causes_complete {e} (below {c} m d) h =
      root_causes_of_children e (causes_of_child c (children_of e) m (root_causes_complete d h))

-- The place of a cause among the children's.
abbrev Among : ServiceException → ExceptionList → Type 0
Among x es = (c : ServiceException) × MemberOf c es × Descends x c

self_only : {x e : ServiceException} → (x ≡ e) ⊎ ⊥ → Descends x e
self_only {x} (inl p) = subst (Descends x) p itself
self_only (inr m) = absurd m

Among-below : {x e : ServiceException} → Among x (children_of e) → Descends x e
Among-below (c, m, d) = below m d

Among-cons :
    {x : ServiceException} (e : ServiceException) (es : ExceptionList)
    → Descends x e ⊎ Among x es
    → Among x (cons e es)
Among-cons e es (inl d) = (e, inl refl, d)
Among-cons e es (inr (c, m, d)) = (c, inr m, d)

mutual
  unfolding root_causes

  cause-Descends : (e x : ServiceException) → Member x (root_causes e) → Descends x e
  cause-Descends (exception n c i t v children) x m = cause_below children x n c i t v m

  cause_below :
      (children : ChildExceptions) (x : ServiceException) (n : String) (c : Option String)
      (i t : String) (v : Option (List Variable))
      → Member x (causes_below children (exception n c i t v children))
      → Descends x (exception n c i t v children)
  cause_below absent x n c i t v m = self_only m
  cause_below (present nil) x n c i t v m = self_only m
  cause_below (present (cons e es)) x n c i t v m = Among-below (
      Among-cons e es (elim (append-Member x (root_causes e) (causes_of es) m) [
        | inl h ↦ inl (cause-Descends e x h)
        | inr h ↦ inr (cause-Among es x h)
      ]))

  cause-Among : (es : ExceptionList) (x : ServiceException) → Member x (causes_of es) → Among x es
  cause-Among nil x m = absurd m
  cause-Among (cons e es) x m =
      Among-cons e es (elim (append-Member x (root_causes e) (causes_of es) m) [
        | inl h ↦ inl (cause-Descends e x h)
        | inr h ↦ inr (cause-Among es x h)
      ])

-- The root causes of an exception are exactly the exceptions without children in its tree, the
-- exception itself included.
pub root_causes_iff :
    (x e : ServiceException) → Member x (root_causes e) ↔ (Descends x e × IsLeaf x)
root_causes_iff x e = (
  λ m. (cause-Descends e x m, All-Member IsLeaf x (root_causes e) (root_causes-leaves e) m),
  λ (d, h). root_causes_complete x d h,
)
