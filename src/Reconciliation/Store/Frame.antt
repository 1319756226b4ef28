-- ===== src/Reconciliation/Store/Frame.antt =====
-- internal/reconciliation/app/porttest/fakes.go: the operations that leave the files and the runs of
-- the store as they are.
use payment_gateway.Base.{
  ◌↔◌, true, ◌≡◌, refl, sym, ◌∙◌, subst, String, List, [], ◌∷◌, ◌++◌, text_eq, Option-cases, inl,
  inr, arith,
}
use payment_gateway.Base.Action.{Result, ok, err}
use payment_gateway.Base.Dict.{lookup}
use payment_gateway.Base.Method.{pure, modify, ◌>>=◌}
use payment_gateway.Base.Post.{Okay, Post, Always}
use payment_gateway.Ids.{Uuid}
use payment_gateway.Reconciliation.Discrepancy.{ReconError, Discrepancy}
use payment_gateway.Reconciliation.Event.{OutboxMessage}
use payment_gateway.Reconciliation.Run.{Run}
use payment_gateway.Reconciliation.Settlement.{SettlementFile, SettlementLine}
use payment_gateway.Reconciliation.Store.{
  uuid_eq, Store, M, injected, insert_lines, insert_line, insert_each, insert_discrepancies,
  put_discrepancies, insert_outbox, fail_update, get_file_by_id, get_run_by_id,
}

pub uuid_eq_iff : (a b : Uuid) → (uuid_eq a b ≡ true) ↔ (a ≡ b)
uuid_eq_iff a b = (λ h. ground (arith, h), λ h. ground (arith, h))

abbrev pub Files : Type 0
Files = List (Uuid × SettlementFile)

abbrev pub Runs : Type 0
Runs = List (Uuid × Run)

-- A method that leaves the files and the runs.
pub record Keeps {A : Type 0} (m : M A) : Type 0 where
  pub files : (s : Store) → (m s).1.files ≡ s.files
  pub runs : (s : Store) → (m s).1.runs ≡ s.runs

keeps-Okay :
    {A : Type 0} (V : Files → Runs → Type 0) (r : Result ReconError A) (s : Store)
    → V s.files s.runs
    → Okay (λ _ t. V t.files t.runs) r s
keeps-Okay V (ok a) s v = v
keeps-Okay V (err e) s v = tt

pub Keeps-Post :
    {A : Type 0} {m : M A} (V : Files → Runs → Type 0)
    → Keeps m
    → Post (λ s. V s.files s.runs) m (λ _ s. V s.files s.runs)
Keeps-Post {m = m} V k = record {
  holds = λ s v.
      keeps-Okay V (m s).0 (m s).1
        (subst (λ fs. V fs (m s).1.runs) (sym (k.files s)) (subst (V s.files) (sym (k.runs s)) v));
}

pub Keeps-Always :
    {A : Type 0} {m : M A} (V : Files → Runs → Type 0) → Keeps m → Always (λ s. V s.files s.runs) m
Keeps-Always {m = m} V k = record {
  keeps = λ s v.
      subst (λ fs. V fs (m s).1.runs) (sym (k.files s)) (subst (V s.files) (sym (k.runs s)) v);
}

after_files :
    {A B : Type 0} (f : A → M B) (r : Result ReconError A) (s : Store)
    → ((a : A) → Keeps (f a))
    → (let out : Result ReconError B × Store = elim r [ ok a ↦ f a s | err e ↦ (err e, s) ] in
        out.1.files ≡ s.files)
after_files f (ok a) s k = (k a).files s
after_files f (err e) s k = refl

after_runs :
    {A B : Type 0} (f : A → M B) (r : Result ReconError A) (s : Store)
    → ((a : A) → Keeps (f a))
    → (let out : Result ReconError B × Store = elim r [ ok a ↦ f a s | err e ↦ (err e, s) ] in
        out.1.runs ≡ s.runs)
after_runs f (ok a) s k = (k a).runs s
after_runs f (err e) s k = refl

pub Keeps-bind :
    {A B : Type 0} {m : M A} {f : A → M B} → Keeps m → ((a : A) → Keeps (f a)) → Keeps (m >>= f)
Keeps-bind {m = m} {f = f} h k = record {
  files = λ s. after_files f (m s).0 (m s).1 k ∙ h.files s;
  runs = λ s. after_runs f (m s).0 (m s).1 k ∙ h.runs s;
}

pub Keeps-pure : {A : Type 0} (a : A) → Keeps (pure a)
Keeps-pure a = record { files = λ s. refl; runs = λ s. refl }

Keeps-modify :
    (f : Store → Store)
    → ((s : Store) → (f s).files ≡ s.files)
    → ((s : Store) → (f s).runs ≡ s.runs)
    → Keeps (modify f)
Keeps-modify f h k = record { files = h; runs = k }

pub injected-Keeps : (key : String) → Keeps (injected key)
unfolding injected
injected-Keeps key = record {
  files = λ s. elim (Option-cases (lookup text_eq key s.errs)) [
    | inl e ↦ rw (e, injected) refl
    | inr (x, e) ↦ rw (e, injected) refl
  ];
  runs = λ s. elim (Option-cases (lookup text_eq key s.errs)) [
    | inl e ↦ rw (e, injected) refl
    | inr (x, e) ↦ rw (e, injected) refl
  ];
}

insert_line-keeps :
    (l : SettlementLine) (s : Store)
    → ((insert_line l s).files ≡ s.files) × ((insert_line l s).runs ≡ s.runs)
insert_line-keeps l s = ground arith

insert_each-keeps :
    (ls : List SettlementLine) (s : Store)
    → ((insert_each ls s).files ≡ s.files) × ((insert_each ls s).runs ≡ s.runs)
insert_each-keeps [] s = (refl, refl)
insert_each-keeps (l ∷ ls) s =
    let rest = insert_each-keeps ls (insert_line l s) in
    let here = insert_line-keeps l s in (rest.0 ∙ here.0, rest.1 ∙ here.1)

pub insert_lines-Keeps : (ls : List SettlementLine) → Keeps (insert_lines ls)
unfolding insert_lines
insert_lines-Keeps ls = Keeps-bind (injected-Keeps "lines.insert") (λ _.
    Keeps-modify (insert_each ls) (λ s. (insert_each-keeps ls s).0)
      (λ s. (insert_each-keeps ls s).1))

put_discrepancies-keeps :
    (ds : List Discrepancy) (s : Store)
    → ((put_discrepancies ds s).files ≡ s.files) × ((put_discrepancies ds s).runs ≡ s.runs)
put_discrepancies-keeps [] s = (refl, refl)
put_discrepancies-keeps (d ∷ ds) s = put_discrepancies-keeps ds _

pub insert_discrepancies-Keeps : (ds : List Discrepancy) → Keeps (insert_discrepancies ds)
unfolding insert_discrepancies
insert_discrepancies-Keeps ds = Keeps-bind (injected-Keeps "discrepancies.insert") (λ _.
    Keeps-modify (put_discrepancies ds) (λ s. (put_discrepancies-keeps ds s).0)
      (λ s. (put_discrepancies-keeps ds s).1))

pub insert_outbox-Keeps : (m : OutboxMessage) → Keeps (insert_outbox m)
unfolding insert_outbox
insert_outbox-Keeps m =
    Keeps-bind (injected-Keeps "outbox.insert")
      (λ _. Keeps-modify (λ s. record s { outbox = s.outbox ++ m ∷ [] }) (λ s. refl) (λ s. refl))

pub fail_update-Keeps : Keeps fail_update
unfolding fail_update
fail_update-Keeps = record { files = λ s. ground arith; runs = λ s. ground arith }

pub get_file_by_id-Keeps : (id : Uuid) → Keeps (get_file_by_id id)
unfolding get_file_by_id
get_file_by_id-Keeps id = record { files = λ s. ground arith; runs = λ s. ground arith }

pub get_run_by_id-Keeps : (id : Uuid) → Keeps (get_run_by_id id)
unfolding get_run_by_id
get_run_by_id-Keeps id = record { files = λ s. ground arith; runs = λ s. ground arith }
