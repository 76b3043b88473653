-- ===== src/Runtime/Views.antt =====
-- Actions that leave a view of the world as it is: a part of the trace, say, or of the store.
use nsi_aggregator_proxy.Common.{Bool-cases, ◌≡◌, refl, ◌∙◌, inl, inr}
use nsi_aggregator_proxy.Runtime.{
  World, M, Exception, is_exception, Result, ok, err, pure, raise, lift, capture, continue, ◌>>=◌,
  handle, attempt, try_some,
}

module _ {X : Type 0} (view : World → X) where
  abbrev pub Same : {A : Type 0} → M A → Type 0
  Same m = (w : World) → view (m w).1 ≡ view w

  -- What one answer leads to, and what an exception.
  continue-Same :
      {A B : Type 0} (r : Result A) (f : A → M B)
      → ((a : A) → Same (f a))
      → (w : World) → view (continue r f w).1 ≡ view w
  continue-Same (ok a) f h w = h a w
  continue-Same (err x) f h w = refl

  pub Same-bind :
      {A B : Type 0} (m : M A) (f : A → M B) → Same m → ((a : A) → Same (f a)) → Same (m >>= f)
  unfolding ◌>>=◌
  Same-bind m f h g w = continue-Same (m w).0 f g (m w).1 ∙ h w

  -- An end that leaves the view alone leaves what comes before it.
  pub view-bind :
      {A B : Type 0} (m : M A) (f : A → M B)
      → ((a : A) → Same (f a))
      → (w : World) → view ((m >>= f) w).1 ≡ view (m w).1
  unfolding ◌>>=◌
  view-bind m f g w = continue-Same (m w).0 f g (m w).1

  handle-Same :
      {A : Type 0} (r : Result A) (h : Exception → M A)
      → ((x : Exception) → Same (h x))
      → (w : World) → view (handle r h w).1 ≡ view w
  handle-Same (ok a) h q w = refl
  handle-Same (err x) h q w = elim (Bool-cases (is_exception x)) [
    | inl caught ↦ rw caught (q x w)
    | inr passed ↦ rw passed refl
  ]

  pub view-attempt :
      {A : Type 0} (m : M A) (h : Exception → M A)
      → ((x : Exception) → Same (h x))
      → (w : World) → view (attempt m h w).1 ≡ view (m w).1
  unfolding attempt
  view-attempt m h r w = handle-Same (m w).0 h r (m w).1

  pub Same-attempt :
      {A : Type 0} (m : M A) (h : Exception → M A)
      → Same m
      → ((x : Exception) → Same (h x))
      → Same (attempt m h)
  unfolding attempt
  Same-attempt m h q r w = handle-Same (m w).0 h r (m w).1 ∙ q w

  pub Same-try_some : {A : Type 0} (m : M A) → Same m → Same (try_some m)
  unfolding try_some
  Same-try_some m q w = q w

  pub Same-capture : {A : Type 0} (m : M A) → Same m → Same (capture m)
  unfolding capture
  Same-capture m q w = q w

  pub Same-pure : {A : Type 0} (a : A) → Same (pure a)
  unfolding pure
  Same-pure a w = refl

  pub Same-raise : (A : Type 0) (x : Exception) → Same (raise {A = A} x)
  unfolding raise
  Same-raise A x w = refl

  pub Same-lift : {A : Type 0} (r : Result A) → Same (lift r)
  unfolding lift
  Same-lift r w = refl
