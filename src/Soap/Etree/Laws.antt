-- ===== src/Soap/Etree/Laws.antt =====
-- The laws of the outcome of a parser, of `_require`, and of a comprehension whose body may raise.
use mathlib.Core.Path.{subst}
use nsi_aggregator_proxy.Common.{Member, String, ◌≡◌, refl, inl, inr, some, List, [], ◌∷◌, arith}
use nsi_aggregator_proxy.Runtime.{Parsed, value, value_error}
use nsi_aggregator_proxy.Soap.Etree.{◌>>=◌, plain, Etree, read_all, require}

pub >>=-value :
    {A B : Type 0} (m : Parsed A) (f : A → Parsed B) {b : B}
    → m >>= f ≡ value b
    → (a : A) × (m ≡ value a) × (f a ≡ value b)
>>=-value (value a) f h = (a, refl, h)
>>=-value (value_error message) f h = cc (h)

module _ {A : Type 0} (P : A → Type 0) where
  -- What holds of the value of a parser, if it has one.
  abbrev pub Ensures : Parsed A → Type 0
  Ensures (value a) = P a
  Ensures (value_error message) = Unit {0}

  pub Ensures-bind :
      {B : Type 0} (m : Parsed B) (f : B → Parsed A)
      → ((b : B) → m ≡ value b → Ensures (f b))
      → Ensures (m >>= f)
  Ensures-bind (value b) f h = h b refl
  Ensures-bind (value_error message) f h = tt

  pub Ensures-value : (m : Parsed A) (a : A) → Ensures m → m ≡ value a → P a
  Ensures-value (value b) a h e = let q : b ≡ a = cc (e) in subst P q h
  Ensures-value (value_error message) a h e = cc (e)

module _ {A B : Type 0} where
  -- Two lists are as long, and related place by place.
  abbrev pub Pairwise : (A → B → Type 0) → List A → List B → Type 0
  Pairwise R [] [] = Unit {0}
  Pairwise R [] (y ∷ ys) = ⊥
  Pairwise R (x ∷ xs) [] = ⊥
  Pairwise R (x ∷ xs) (y ∷ ys) = R x y × Pairwise R xs ys

  pub Pairwise-imp :
      (R S : A → B → Type 0)
      → ((x : A) (y : B) → R x y → S x y)
      → (xs : List A) (ys : List B) → Pairwise R xs ys
      → Pairwise S xs ys
  Pairwise-imp R S imp [] [] h = tt
  Pairwise-imp R S imp [] (y ∷ ys) h = elim h [ ]
  Pairwise-imp R S imp (x ∷ xs) [] h = elim h [ ]
  Pairwise-imp R S imp (x ∷ xs) (y ∷ ys) (p, h) = (imp x y p, Pairwise-imp R S imp xs ys h)

module _ {A B : Type 0} (f : A → Parsed B) where
  -- `ys` has one value for each of `xs`, in their order, the one that `f` reads.
  abbrev pub ReadBy : List A → List B → Type 0
  ReadBy = Pairwise (λ x y. f x ≡ value y)

  pub read_all-ReadBy : (xs : List A) (ys : List B) → read_all f xs ≡ value ys → ReadBy xs ys
  unfolding read_all
  read_all-ReadBy [] [] h = tt
  read_all-ReadBy [] (y ∷ ys) h = ground arith
  read_all-ReadBy (x ∷ xs) [] h = ground arith
  read_all-ReadBy (x ∷ xs) (y ∷ ys) h = ground (arith, read_all-ReadBy xs ys)

  pub ReadBy-read_all : (xs : List A) (ys : List B) → ReadBy xs ys → read_all f xs ≡ value ys
  unfolding read_all
  ReadBy-read_all [] [] h = refl
  ReadBy-read_all [] (y ∷ ys) h = elim h [ ]
  ReadBy-read_all (x ∷ xs) [] h = elim h [ ]
  ReadBy-read_all (x ∷ xs) (y ∷ ys) (p, h) = rw p (rw (ReadBy-read_all xs ys h) refl)

  -- Two readers that agree on the elements of a list read it alike.
  pub read_all-congr :
      (g : A → Parsed B) (xs : List A)
      → ((x : A) → Member x xs → f x ≡ g x)
      → read_all f xs ≡ read_all g xs
  unfolding read_all
  read_all-congr g [] h = refl
  read_all-congr g (x ∷ xs) h =
      rw (h x (inl refl)) (rw (read_all-congr g xs (λ y m. h y (inr m))) refl)

module _ {Element : Type 0} (etree : Etree Element) where
  pub require-eq :
      (element : Element) (tag text : String)
      → require etree element tag ≡ value text
      → etree.findtext element (plain tag) ≡ some text
  unfolding require
  require-eq element tag text h = ground arith
