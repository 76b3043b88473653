-- ===== src/Runtime/Laws.antt =====
-- Actions that return whatever the world is, and keep an invariant of it.
use nsi_aggregator_proxy.Common.{
  Bool-cases, ℕ, String, ◌≡◌, refl, ◌≢◌, ◌⊎◌, inl, inr, true, Option, none, some, List,
}
use nsi_aggregator_proxy.Providers.{P}
use nsi_aggregator_proxy.Runtime.{
  Request, Event, World, Response, is_success, Parsed, value, value_error, Env, M, from_library,
  from_parser, draw_urn, post, raise_for_status, post_checked,
}
use nsi_aggregator_proxy.Runtime.Monad.{
  Exception, error, is_exception, Result, ok, err, pure, raise, lift, continue, ◌>>=◌, handle,
  attempt, try_some,
}

-- The action returns, and the invariant still holds.
abbrev pub Keeps : (World → Type 0) → {A : Type 0} → M A → Type 0
Keeps I {A} m = (w : World) → I w → ((a : A) × ((m w).0 ≡ ok a)) × I (m w).1

-- It returns, or raises what `except Exception` catches.
abbrev pub Tame : {A : Type 0} → Result A → Type 0
Tame {A} r = ((a : A) × (r ≡ ok a)) ⊎ ((x : Exception) × (r ≡ err x) × (is_exception x ≡ true))

abbrev pub KeepsTame : (World → Type 0) → {A : Type 0} → M A → Type 0
KeepsTame I m = (w : World) → I w → Tame (m w).0 × I (m w).1

from_library-Tame : {A : Type 0} (name : String) (o : Option A) → Tame (from_library name o)
from_library-Tame name none = inr (error name, refl, refl)
from_library-Tame name (some a) = inl (a, refl)

pub from_parser-Tame : {A : Type 0} (p : Parsed A) → Tame (from_parser p)
from_parser-Tame (value a) = inl (a, refl)
from_parser-Tame (value_error message) = inr (error message, refl, refl)

-- The invariant does not depend on what the coroutine drew and sent, and outlives a turn of the other
-- tasks, which every await gives them.
pub record IsStable (e : Env) (I : World → Type 0) : Type 0 where
  pub draws : (w : World) (n : ℕ) → I w → I (record w { drawn = n })
  pub sends : (w : World) (events : List Event) → I w → I (record w { trace = events })
  pub yields : (w : World) → I w → I (record w { store = e.others w })

module _ (I : World → Type 0) where
  pub Keeps-pure : {A : Type 0} (a : A) → Keeps I (pure a)
  unfolding pure
  Keeps-pure a w i = ((a, refl), i)

  pub KeepsTame-lift : {A : Type 0} (r : Result A) → Tame r → KeepsTame I (lift r)
  unfolding lift
  KeepsTame-lift r tame w i = (tame, i)

  pub Keeps-bind :
      {A B : Type 0} (m : M A) (f : A → M B)
      → Keeps I m
      → ((a : A) → Keeps I (f a))
      → Keeps I (m >>= f)
  unfolding ◌>>=◌
  Keeps-bind m f h g w i = let ((a, e), j) = h w i in rw e (g a (m w).1 j)

  pub KeepsTame-bind :
      {A B : Type 0} (m : M A) (f : A → M B)
      → KeepsTame I m
      → ((a : A) → KeepsTame I (f a))
      → KeepsTame I (m >>= f)
  unfolding ◌>>=◌
  KeepsTame-bind m f h g w i =
      let (tame, j) = h w i in
      elim tame [
        | inl (a, e) ↦ rw e (g a (m w).1 j)
        | inr (x, e, caught) ↦ rw e (inr (x, refl, caught), j)
      ]

  -- A handler for what the action raises, which keeps the invariant too.
  pub KeepsTame-attempt :
      {A : Type 0} (m : M A) (h : Exception → M A)
      → KeepsTame I m
      → ((x : Exception) → KeepsTame I (h x))
      → KeepsTame I (attempt m h)
  unfolding attempt
  KeepsTame-attempt m h g k w i =
      let (tame, j) = g w i in
      elim tame [
        | inl (a, e) ↦ rw e (inl (a, refl), j)
        | inr (x, e, caught) ↦ rw e (rw caught (k x (m w).1 j))
      ]

  pub KeepsTame-raise :
      {A : Type 0} (x : Exception) → is_exception x ≡ true → KeepsTame I (raise {A = A} x)
  unfolding raise
  KeepsTame-raise x caught w i = (inr (x, refl, caught), i)

  pub KeepsTame-Keeps : {A : Type 0} (m : M A) → Keeps I m → KeepsTame I m
  KeepsTame-Keeps m h w i = let (returned, j) = h w i in (inl returned, j)

  pub Keeps-try_some : {A : Type 0} (m : M A) → KeepsTame I m → Keeps I (try_some m)
  unfolding try_some
  Keeps-try_some m h w i =
      let (tame, j) = h w i in
      elim tame [
        | inl (a, e) ↦ rw e ((some a, refl), j)
        | inr (x, e, caught) ↦ rw e (rw caught ((none, refl), j))
      ]

  module _ (e : Env) (stable : IsStable e I) where
    pub Keeps-draw_urn : Keeps I (draw_urn e)
    unfolding draw_urn
    Keeps-draw_urn w i = ((_, refl), stable.draws w _ i)

    KeepsTame-post : (request : Request) → KeepsTame I (post e request)
    unfolding post
    KeepsTame-post request w i = (from_library-Tame "httpx" _, stable.yields _ (stable.sends w _ i))

    raise_for_status-Tame : (response : Response) → Tame (raise_for_status e response)
    raise_for_status-Tame response = elim (Bool-cases (is_success response.status_code)) [
      | inl s ↦ rw s (inl (response, refl))
      | inr f ↦ rw f (inr (error "HTTPStatusError", refl, refl))
    ]

    pub KeepsTame-post_checked : (request : Request) → KeepsTame I (post_checked e request)
    unfolding post_checked
    KeepsTame-post_checked request =
        KeepsTame-bind (post e request) _ (KeepsTame-post request)
          (λ response. KeepsTame-lift _ (raise_for_status-Tame response))

-- From any world with the invariant, the action ends as `Q` says.
abbrev pub Ends : (World → Type 0) → {A : Type 0} → (Result A × World → Type 0) → M A → Type 0
Ends I Q m = (w : World) → I w → Q (m w)

pub Ends-bind :
    (I : World → Type 0) {A B : Type 0} (Q : Result B × World → Type 0) (m : M A) (f : A → M B)
    → Keeps I m
    → ((a : A) → Ends I Q (f a))
    → Ends I Q (m >>= f)
unfolding ◌>>=◌
Ends-bind I Q m f h g w i = let ((a, e), j) = h w i in rw e (g a (m w).1 j)

-- What follows an action that returns here.
pub Ends-after :
    {A B : Type 0} (J : A → World → Type 0) (Q : Result B × World → Type 0) (m : M A) (f : A → M B)
    (w : World)
    → (a : A) × ((m w).0 ≡ ok a) × J a (m w).1
    → ((a : A) (w' : World) → J a w' → Q (f a w'))
    → Q ((m >>= f) w)
unfolding ◌>>=◌
Ends-after J Q m f w (a, e, j) g = rw e (g a (m w).1 j)

-- If the action returns from a world with `I`, then with `P`.
abbrev pub IfOk : (World → Type 0) → {A : Type 0} → M A → (A → World → Type 0) → Type 0
IfOk I {A} m P = (w : World) → I w → (a : A) → (m w).0 ≡ ok a → P a (m w).1

continue-IfOk :
    {A B : Type 0} (Q : A → World → Type 0) (f : A → M B) (P : B → World → Type 0)
    → ((a : A) → IfOk (Q a) (f a) P)
    → (r : Result A) (w : World) → ((a : A) → r ≡ ok a → Q a w)
    → (b : B) → (continue r f w).0 ≡ ok b
    → P b (continue r f w).1
continue-IfOk Q f P g (ok a) w h b e = g a w (h a refl) b e
continue-IfOk Q f P g (err x) w h b e = cc (e)

pub IfOk-bind :
    (I : World → Type 0) {A B : Type 0} (Q : A → World → Type 0) (m : M A) (f : A → M B)
    (P : B → World → Type 0)
    → IfOk I m Q
    → ((a : A) → IfOk (Q a) (f a) P)
    → IfOk I (m >>= f) P
unfolding ◌>>=◌
IfOk-bind I Q m f P h g w i b e = continue-IfOk Q f P g (m w).0 (m w).1 (h w i) b e

handle-IfOk :
    {A : Type 0} (P : A → World → Type 0) (h : Exception → M A)
    → ((x : Exception) (w : World) (a : A) → (h x w).0 ≢ ok a)
    → (r : Result A) (w : World) → ((a : A) → r ≡ ok a → P a w)
    → (a : A) → (handle r h w).0 ≡ ok a
    → P a (handle r h w).1
handle-IfOk P h raises (ok b) w g a e = g a e
handle-IfOk P h raises (err x) w g a e = elim (Bool-cases (is_exception x)) [
  | inl caught ↦ absurd (raises x w a (rw caught at e))
  | inr passed ↦ cc (rw passed at e)
]

-- A handler that only raises adds no way to return.
pub IfOk-attempt :
    (I : World → Type 0) {A : Type 0} (m : M A) (h : Exception → M A) (P : A → World → Type 0)
    → IfOk I m P
    → ((x : Exception) (w : World) (a : A) → (h x w).0 ≢ ok a)
    → IfOk I (attempt m h) P
unfolding attempt
IfOk-attempt I m h P g raises w i a e = handle-IfOk P h raises (m w).0 (m w).1 (g w i) a e
