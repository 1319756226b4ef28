-- ===== src/Reconciliation/Store/Filed.antt =====
-- internal/reconciliation/app/porttest/fakes.go: the file of a content and the run of a file, through
-- the operations that write them.
use payment_gateway.Base.{
  ◌≡◌, ◌⊎◌, refl, sym, ◌∙◌, subst, arith, String, ◌+◌, ◌==◌, not, ltb, Bool, true, false, Option,
  none, some, List, [], ◌∷◌, text_eq, text_eq_refl, text_eq_iff, any, find-take, find-skip, All,
  Bool-cases, is_some, inl, inr,
}
use payment_gateway.Base.Dict.{insert}
use payment_gateway.Base.Method.{modify, pure, ◌>>◌}
use payment_gateway.Base.Post.{
  Post, bind_post, modify_post, raise_if_post, get_post, Always, Always-bind, Always-get,
  Always-raise_if, Always-modify,
}
use payment_gateway.Reconciliation.Discrepancy.{ReconError, concurrent_modification, duplicate_file}
use payment_gateway.Reconciliation.Run.{Run}
use payment_gateway.Reconciliation.Settlement.{SettlementFile}
use payment_gateway.Reconciliation.Store.{
  uuid_eq, values, file_by_hash, run_of_file, create_file, update_file, create_run, update_run,
  put_file, put_run, latest,
}
use payment_gateway.Reconciliation.Store.Frame.{
  Files, Runs, Keeps-Post, Keeps-Always, injected-Keeps, fail_update-Keeps, get_file_by_id-Keeps,
  get_run_by_id-Keeps,
}

-- Every file stands under its own id.
abbrev pub Keyed : Files → Type 0
Keyed m = All (λ e. e.0 ≡ e.1.id) m

-- The file of a content.
abbrev pub Filed : String → SettlementFile → Files → Type 0
Filed hash f m = Keyed m × (file_by_hash hash m ≡ some f)

-- Some run is of the file.
abbrev pub HasRun : String → Runs → Type 0
HasRun file m = any (λ r. text_eq r.summary.file_id file) (values m) ≡ true

abbrev of_hash : String → SettlementFile → Bool
of_hash hash f = text_eq f.file_hash hash

insert-Keyed : (f : SettlementFile) (m : Files) → Keyed m → Keyed (insert uuid_eq f.id f m)
insert-Keyed f [] h = (refl, tt)
insert-Keyed f ((j, v) ∷ m) h = elim (Bool-cases (uuid_eq j f.id)) [
  | inl e ↦ rw e (ground (arith, e), h.1)
  | inr e ↦ rw e (h.0, insert-Keyed f m h.1)
]

-- A new file is the one that is found.
find-insert_new :
    (hash : String) (f : SettlementFile) (m : Files)
    → of_hash hash f ≡ true
    → file_by_hash hash m ≡ none
    → file_by_hash hash (insert uuid_eq f.id f m) ≡ some f
find-insert_new hash f [] p h = find-take (of_hash hash) f [] p
find-insert_new hash f ((j, v) ∷ m) p h = elim (Bool-cases (of_hash hash v)) [
  | inl q ↦ absurd (ground (arith, sym (find-take (of_hash hash) v (values m) q) ∙ h))
  | inr q ↦
      let rest : file_by_hash hash m ≡ none = sym (find-skip (of_hash hash) v (values m) q) ∙ h in
      elim (Bool-cases (uuid_eq j f.id)) [
        | inl e ↦ rw e (find-take (of_hash hash) f (values m) p)
        | inr e ↦ rw e (find-skip (of_hash hash) v _ q ∙ find-insert_new hash f m p rest)
      ]
]

-- A file that is written again under its id is found again.
find-insert_again :
    (hash : String) (f g : SettlementFile) (m : Files)
    → of_hash hash g ≡ true
    → g.id ≡ f.id
    → Keyed m
    → file_by_hash hash m ≡ some f
    → file_by_hash hash (insert uuid_eq g.id g m) ≡ some g
find-insert_again hash f g [] p e k h = absurd (ground (arith, h))
find-insert_again hash f g ((j, v) ∷ m) p e k h = elim (Bool-cases (uuid_eq j g.id)) [
  | inl q ↦ rw q (find-take (of_hash hash) g (values m) p)
  | inr q ↦ elim (Bool-cases (of_hash hash v)) [
    | inl t ↦
        let same : some v ≡ some f = sym (find-take (of_hash hash) v (values m) t) ∙ h in
        absurd (ground (arith, q, k.0, e, same))
    | inr t ↦
        let rest : file_by_hash hash m ≡ some f =
          sym (find-skip (of_hash hash) v (values m) t) ∙ h in
        rw q (find-skip (of_hash hash) v _ t ∙ find-insert_again hash f g m p e k.1 rest)
  ]
]

-- What is found has the hash.
pub find-hash :
    (hash : String) (f : SettlementFile) (m : Files)
    → file_by_hash hash m ≡ some f
    → of_hash hash f ≡ true
find-hash hash f [] h = absurd (ground (arith, h))
find-hash hash f ((j, v) ∷ m) h = elim (Bool-cases (of_hash hash v)) [
  | inl t ↦
      let same : some v ≡ some f = sym (find-take (of_hash hash) v (values m) t) ∙ h in
      ground (arith, t, same)
  | inr t ↦ find-hash hash f m (sym (find-skip (of_hash hash) v (values m) t) ∙ h)
]

insert-HasRun :
    (file : String) (r : Run) (m : Runs)
    → r.summary.file_id ≡ file
    → HasRun file (insert uuid_eq r.id r m)
insert-HasRun file r [] e = rw e (rw (text_eq_refl file) refl)
insert-HasRun file r ((j, v) ∷ m) e = elim (Bool-cases (uuid_eq j r.id)) [
  | inl q ↦ rw q (rw e (rw (text_eq_refl file) refl))
  | inr q ↦ rw q (ground (arith, insert-HasRun file r m e))
]

-- A file that has a run is answered with one.
pub run_of_file-some :
    (file : String) (rs : List Run) (best : Option Run)
    → (is_some best ≡ true) ⊎ (any (λ r. text_eq r.summary.file_id file) rs ≡ true)
    → is_some (run_of_file file best rs) ≡ true
run_of_file-some file [] best (inl h) = h
run_of_file-some file [] best (inr h) = absurd (ground (arith, h))
run_of_file-some file (r ∷ rs) best h = elim (Bool-cases (text_eq r.summary.file_id file)) [
  | inl q ↦ rw q (run_of_file-some file rs (some (latest best r)) (inl refl))
  | inr q ↦ rw q (run_of_file-some file rs best (ground (arith, q, h)))
]

pub create_file-Post :
    (hash : String) (f : SettlementFile)
    → f.file_hash ≡ hash
    → Post
        (λ s. Keyed s.files × (file_by_hash hash s.files ≡ none))
        (create_file f)
        (λ _ s. Filed hash f s.files)
unfolding create_file
create_file-Post hash f e =
    let Before : Files → Runs → Type 0 = λ fs _. Keyed fs × (file_by_hash hash fs ≡ none) in
    bind_post (Keeps-Post Before (injected-Keeps "files.create")) (λ _. bind_post get_post (λ t.
      bind_post (raise_if_post (is_some (file_by_hash f.file_hash t.files)) duplicate_file) (λ _.
        modify_post (put_file f) (λ s h. (
          insert-Keyed f s.files h.0.0,
          find-insert_new hash f s.files (rw e (text_eq_refl hash)) h.0.1,
        )))))

put_again-Post :
    (hash : String) (f g : SettlementFile) {b : Bool}
    → g.id ≡ f.id
    → g.file_hash ≡ f.file_hash
    → Post {E = ReconError}
        (λ s. Filed hash f s.files × (b ≡ false))
        (do modify (put_file g); pure g)
        (λ r s. Filed hash r s.files × (r ≡ g))
put_again-Post hash f g e eh = record {
  holds = λ s h. (
    (
      insert-Keyed g s.files h.0.0,
      find-insert_again hash f g s.files (rw eh (find-hash hash f s.files h.0.1)) e h.0.0 h.0.1,
    ),
    refl,
  );
}

-- A creation keeps the files keyed, also where it fails.
pub create_file-Keyed : (f : SettlementFile) → Always (λ s. Keyed s.files) (create_file f)
unfolding create_file
create_file-Keyed f =
    Always-bind (Keeps-Always (λ fs _. Keyed fs) (injected-Keeps "files.create")) (λ _.
      Always-bind Always-get (λ t.
        Always-bind (Always-raise_if (is_some (file_by_hash f.file_hash t.files)) duplicate_file)
          (λ _. Always-modify (put_file f) (λ s h. insert-Keyed f s.files h))))

-- Without a run there is no answer.
pub run_of_file-none :
    (file : String) (rs : List Run) (best : Option Run)
    → any (λ r. text_eq r.summary.file_id file) rs ≡ false
    → run_of_file file best rs ≡ best
run_of_file-none file [] best h = refl
run_of_file-none file (r ∷ rs) best h =
    let q : text_eq r.summary.file_id file ≡ false = ground (arith, h) in
    rw q (run_of_file-none file rs best (ground (arith, h, q)))

abbrev BestOf : String → Option Run → Type 0
BestOf file none = Unit {0}
BestOf file (some r) = r.summary.file_id ≡ file

latest-BestOf :
    (file : String) (best : Option Run) (r : Run)
    → BestOf file best
    → r.summary.file_id ≡ file
    → (latest best r).summary.file_id ≡ file
latest-BestOf file none r h e = e
latest-BestOf file (some best) r h e = elim (Bool-cases (ltb best.created_at r.created_at)) [
  | inl q ↦ rw q e
  | inr q ↦ rw q h
]

-- The answer is of the file.
pub run_of_file-OfFile :
    (file : String) (rs : List Run) (best : Option Run) (r : Run)
    → BestOf file best
    → run_of_file file best rs ≡ some r
    → r.summary.file_id ≡ file
run_of_file-OfFile file [] none r h e = absurd (ground (arith, e))
run_of_file-OfFile file [] (some best) r h e =
    let same : best ≡ r = ground (arith, e) in subst (λ b. b.summary.file_id ≡ file) same h
run_of_file-OfFile file (x ∷ rs) best r h e = elim (Bool-cases (text_eq x.summary.file_id file)) [
  | inl q ↦
      run_of_file-OfFile file rs (some (latest best x)) r
        (latest-BestOf file best x h ((text_eq_iff x.summary.file_id file).0 q)) (rw q at e)
  | inr q ↦ run_of_file-OfFile file rs best r h (rw q at e)
]

pub update_file-Post :
    (hash : String) (f g : SettlementFile)
    → g.id ≡ f.id
    → g.file_hash ≡ f.file_hash
    → Post
        (λ s. Filed hash f s.files)
        (update_file g)
        (λ r s. Filed hash r s.files × (r ≡ record g { version = g.version + 1 }))
unfolding update_file
update_file-Post hash f g e eh =
    let Before : Files → Runs → Type 0 = λ fs _. Filed hash f fs in
    let g' : SettlementFile = record g { version = g.version + 1 } in
    bind_post (Keeps-Post Before fail_update-Keeps) (λ _.
      bind_post (Keeps-Post Before (get_file_by_id-Keeps g.id)) (λ old.
        bind_post (raise_if_post (not (old.version == g.version)) concurrent_modification)
          (λ _. put_again-Post hash f g' e eh)))

pub create_run-Post :
    (V : Files → Type 0) (r : Run) → Post (λ s. V s.files) (create_run r) (λ _ s. V s.files)
unfolding create_run
create_run-Post V r =
    bind_post (Keeps-Post (λ fs _. V fs) (injected-Keeps "runs.create"))
      (λ _. modify_post (put_run r) (λ s h. h))

pub update_run-Post :
    (V : Files → Type 0) (file : String) (r : Run)
    → r.summary.file_id ≡ file
    → Post (λ s. V s.files) (update_run r) (λ _ s. V s.files × HasRun file s.runs)
unfolding update_run
update_run-Post V file r e = bind_post (Keeps-Post (λ fs _. V fs) fail_update-Keeps) (λ _.
    bind_post (Keeps-Post (λ fs _. V fs) (get_run_by_id-Keeps r.id)) (λ old.
      bind_post (raise_if_post (ltb r.version old.version) concurrent_modification)
        (λ _. modify_post (put_run r) (λ s h. (h.0, insert-HasRun file r s.runs e)))))
