-- ===== src/Base/Post.antt =====
-- Reasoning on methods: what holds after a method that returns a value, when something held before.
use payment_gateway.Base.Action.{Result, ok, err}
use payment_gateway.Base.Method.{Method, pure, raise_if, lift, get, modify, ◌>>=◌}
use mathlib.Core.Path.{◌≡◌, refl, ap}
use mathlib.Core.Bool.{Bool, true, false}

module _ {S E : Type 0} where
  -- `Q` of the value and of the state that is left; nothing where there is an error.
  abbrev pub Okay : {A : Type 0} → (A → S → Type 0) → Result E A → S → Type 0
  Okay Q (ok a) s = Q a s
  Okay Q (err e) s = Unit {0}

  -- The triple of a method.
  pub record Post {A : Type 0} (P : S → Type 0) (m : Method S E A) (Q : A → S → Type 0)
      : Type 0 where
    pub holds : (s : S) → P s → Okay Q (m s).0 (m s).1

  bind-Okay :
      {A B : Type 0} (Q : A → S → Type 0) (R : B → S → Type 0) (f : A → Method S E B)
      (r : Result E A) (s : S)
      → Okay Q r s
      → ((a : A) → Post (Q a) (f a) R)
      → (let out : Result E B × S = elim r [ ok a ↦ f a s | err e ↦ (err e, s) ] in
          Okay R out.0 out.1)
  bind-Okay Q R f (ok a) s q k = (k a).holds s q
  bind-Okay Q R f (err e) s q k = tt

  weaken-Okay :
      {A : Type 0} (Q R : A → S → Type 0) (r : Result E A) (s : S)
      → Okay Q r s
      → ((a : A) (s : S) → Q a s → R a s)
      → Okay R r s
  weaken-Okay Q R (ok a) s q k = k a s q
  weaken-Okay Q R (err e) s q k = tt

  pub bind_post :
      {A B : Type 0} {P : S → Type 0} {Q : A → S → Type 0} {R : B → S → Type 0} {m : Method S E A}
      {f : A → Method S E B}
      → Post P m Q
      → ((a : A) → Post (Q a) (f a) R)
      → Post P (m >>= f) R
  bind_post {Q = Q} {R = R} {m = m} {f = f} h k = record {
    holds = λ s p. bind-Okay Q R f (m s).0 (m s).1 (h.holds s p) k;
  }

  -- A chain after a value.
  pub bind_ok :
      {A B : Type 0} (m : Method S E A) (f : A → Method S E B) (s t : S) (a : A)
      → m s ≡ (ok a, t)
      → (m >>= f) s ≡ f a t
  bind_ok {A = A} {B = B} m f s t a h =
      let go : Result E A × S → Result E B × S =
        λ x. elim x.0 [ ok a ↦ f a x.1 | err e ↦ (err e, x.1) ] in
      ap go h

  pub pure_post : {A : Type 0} {Q : A → S → Type 0} (a : A) → Post (Q a) (pure a) Q
  pure_post a = record { holds = λ s q. q }

  pub modify_post :
      {P : S → Type 0} {Q : Unit {0} → S → Type 0} (f : S → S)
      → ((s : S) → P s → Q tt (f s))
      → Post P (modify f) Q
  modify_post f h = record { holds = h }

  -- After a test that raises an error, the test was false.
  pub raise_if_post :
      {P : S → Type 0} (b : Bool) (e : E) → Post P (raise_if b e) (λ _ s. P s × (b ≡ false))
  raise_if_post true e = record { holds = λ s p. tt }
  raise_if_post false e = record { holds = λ s p. (p, refl) }

  pub lift_post :
      {F A : Type 0} {P : S → Type 0} (g : F → E) (r : Result F A) → Post P (lift g r) (λ _ s. P s)
  lift_post g (ok a) = record { holds = λ s p. p }
  lift_post g (err e) = record { holds = λ s p. tt }

  pub get_post : {P : S → Type 0} → Post P get (λ _ s. P s)
  get_post = record { holds = λ s p. p }

  pub weaken_post :
      {A : Type 0} {P : S → Type 0} {Q R : A → S → Type 0} {m : Method S E A}
      → Post P m Q
      → ((a : A) (s : S) → Q a s → R a s)
      → Post P m R
  weaken_post {Q = Q} {R = R} {m = m} h k = record {
    holds = λ s p. weaken-Okay Q R (m s).0 (m s).1 (h.holds s p) k;
  }

  pub before_post :
      {A : Type 0} {P O : S → Type 0} {Q : A → S → Type 0} {m : Method S E A}
      → Post P m Q
      → ((s : S) → O s → P s)
      → Post O m Q
  before_post h k = record { holds = λ s o. h.holds s (k s o) }

  -- A fact that does not depend on the state is a hypothesis.
  pub given_post :
      {A F : Type 0} {P : S → Type 0} {Q : A → S → Type 0} {m : Method S E A}
      → (F → Post P m Q)
      → Post (λ s. P s × F) m Q
  given_post k = record { holds = λ s h. (k h.1).holds s h.0 }

  -- What a method keeps, whether it returns a value or an error.
  pub record Always {A : Type 0} (I : S → Type 0) (m : Method S E A) : Type 0 where
    pub keeps : (s : S) → I s → I (m s).1

  always_after :
      {A B : Type 0} (I : S → Type 0) (f : A → Method S E B) (r : Result E A) (s : S)
      → I s
      → ((a : A) → Always I (f a))
      → (let out : Result E B × S = elim r [ ok a ↦ f a s | err e ↦ (err e, s) ] in I out.1)
  always_after I f (ok a) s i k = (k a).keeps s i
  always_after I f (err e) s i k = i

  Okay-of : {A : Type 0} (I : S → Type 0) (r : Result E A) (s : S) → I s → Okay (λ _ t. I t) r s
  Okay-of I (ok a) s i = i
  Okay-of I (err e) s i = tt

  pub Always-bind :
      {A B : Type 0} {I : S → Type 0} {m : Method S E A} {f : A → Method S E B}
      → Always I m
      → ((a : A) → Always I (f a))
      → Always I (m >>= f)
  Always-bind {I = I} {m = m} {f = f} h k = record {
    keeps = λ s i. always_after I f (m s).0 (m s).1 (h.keeps s i) k;
  }

  pub Always-raise_if : {I : S → Type 0} (b : Bool) (e : E) → Always I (raise_if b e)
  Always-raise_if true e = record { keeps = λ s i. i }
  Always-raise_if false e = record { keeps = λ s i. i }

  pub Always-get : {I : S → Type 0} → Always I get
  Always-get = record { keeps = λ s i. i }

  pub Always-modify : {I : S → Type 0} (f : S → S) → ((s : S) → I s → I (f s)) → Always I (modify f)
  Always-modify f h = record { keeps = h }

  pub Always-Post :
      {A : Type 0} {I : S → Type 0} {m : Method S E A} → Always I m → Post I m (λ _ s. I s)
  Always-Post {I = I} {m = m} h = record { holds = λ s i. Okay-of I (m s).0 (m s).1 (h.keeps s i) }
