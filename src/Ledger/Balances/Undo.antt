-- ===== src/Ledger/Balances/Undo.antt =====
-- What `Apply` of internal/ledger/domain/balances.go does to a balance, and what a reversal undoes.
use payment_gateway.Base.{
  Bool-cases, inl, inr, subst, ◌⊎◌, ◌≡◌, ◌≢◌, refl, sym, ap, ◌∙◌, arith, String, Option, some, none,
  List, [], ◌∷◌, map, All, if◌then◌else◌,
}
use payment_gateway.Base.Action.{ok, err}
use payment_gateway.Base.Bags.{lookup-insert}
use payment_gateway.Base.Dict.{lookup}
use payment_gateway.Base.Clock.{Time}
use payment_gateway.Base.Int.{
  ℤ, pos, ◌+ℤ◌, ◌-ℤ◌, ◌<ℤ◌, wrap64, add64, IsInt64, wrap64-IsInt64, wrap64_of_IsInt64,
}
use payment_gateway.Base.Int.Wrap.{
  wrap64-add, +ℤ_zero, +ℤ_assoc, zero_+ℤ, neg64_exact, neg_neg, neg_zero, neg_sum, there_and_back,
}
use payment_gateway.Ids.{Uuid, nil_uuid}
use payment_gateway.Ledger.Account.{AccountKey, key_eq, kind_of_key}
use payment_gateway.Ledger.Chart.{NormalBalance}
use payment_gateway.Ledger.Journal.{Journal, Entry, Direction, opposite, validate, currency_of}
use payment_gateway.Ledger.Journal.Sound.{IsSound, IsPostable, HasInt64Amount}
use payment_gateway.Ledger.Journal.Validate.{validate-of_IsSound}
use payment_gateway.Ledger.Reversal.{mirror, reversal_journal}
use payment_gateway.Ledger.Reversal.Mirror.{reversal_journal-IsSound}
use payment_gateway.Ledger.Reversal.Check.{key_eq_iff}
use payment_gateway.Ledger.Balances.{
  Balances, balance_of, add_to, delta_of, signed_delta, normal_of_kind, apply_entries, apply,
}

-- What the entries add to one account's balance, exactly.
abbrev pub net : AccountKey → List Entry → ℤ
net key [] = pos 0
net key (e ∷ es) = (if key_eq e.account key then delta_of e else pos 0) +ℤ net key es

balance_of-add_to :
    (key k : AccountKey) (d : ℤ) (b : Balances)
    → balance_of (add_to k d b) key
      ≡ (if key_eq k key then add64 (balance_of b k) d else balance_of b key)
unfolding add_to balance_of
balance_of-add_to key k d b =
    let v = add64 (balance_of b k) d in
    let value : Option ℤ → ℤ = λ o. elim o [ some n ↦ n | none ↦ pos 0 ] in
    let law = ap value (lookup-insert key_eq key_eq_iff key k v b) in
    elim (Bool-cases (key_eq k key)) [
      | inl e ↦ rw e (law ∙ ap (λ t. value (if t then some v else lookup key_eq key b)) e)
      | inr e ↦ rw e (law ∙ ap (λ t. value (if t then some v else lookup key_eq key b)) e)
    ]

balance_of-add_to-IsInt64 :
    (key k : AccountKey) (d : ℤ) (b : Balances)
    → IsInt64 (balance_of b key)
    → IsInt64 (balance_of (add_to k d b) key)
balance_of-add_to-IsInt64 key k d b h = elim (Bool-cases (key_eq k key)) [
  | inl e ↦
      subst IsInt64
        (sym (
          balance_of-add_to key k d b
          ∙ ap (λ t. if t then add64 (balance_of b k) d else balance_of b key) e))
        (unfold add64 in wrap64-IsInt64 (balance_of b k +ℤ d))
  | inr e ↦
      subst IsInt64
        (sym (
          balance_of-add_to key k d b
          ∙ ap (λ t. if t then add64 (balance_of b k) d else balance_of b key) e))
        h
]

-- One entry and those after it.
one_more :
    (key : AccountKey) (e : Entry) (b : Balances) (rest : ℤ)
    → wrap64 (balance_of (add_to e.account (delta_of e) b) key +ℤ rest)
      ≡ wrap64 (balance_of b key +ℤ ((if key_eq e.account key then delta_of e else pos 0) +ℤ rest))
unfolding add64
one_more key e b rest =
    let d = delta_of e in
    let law = balance_of-add_to key e.account d b in
    elim (Bool-cases (key_eq e.account key)) [
      | inl q ↦
          let same : e.account ≡ key = (key_eq_iff e.account key).0 q in
          let after : balance_of (add_to e.account d b) key ≡ wrap64 (balance_of b key +ℤ d) =
            law
            ∙ ap (λ t. if t then add64 (balance_of b e.account) d else balance_of b key) q
            ∙ ap (λ k. add64 (balance_of b k) d) same in
          rw (after, q, wrap64-add (balance_of b key +ℤ d) rest, +ℤ_assoc (balance_of b key) d rest)
            refl
      | inr q ↦
          let after : balance_of (add_to e.account d b) key ≡ balance_of b key =
            law ∙ ap (λ t. if t then add64 (balance_of b e.account) d else balance_of b key) q in
          rw (after, q, zero_+ℤ rest) refl
    ]

-- A balance after the entries of a journal is the balance before, plus what they add to it, as an
-- int64.
pub balance_of-apply_entries :
    (key : AccountKey) (es : List Entry) (b : Balances)
    → IsInt64 (balance_of b key)
    → balance_of (apply_entries es b) key ≡ wrap64 (balance_of b key +ℤ net key es)
unfolding apply_entries
balance_of-apply_entries key [] b h =
    rw (+ℤ_zero (balance_of b key)) (sym (wrap64_of_IsInt64 (balance_of b key) h))
balance_of-apply_entries key (e ∷ es) b h =
    balance_of-apply_entries key es (add_to e.account (delta_of e) b)
      (balance_of-add_to-IsInt64 key e.account (delta_of e) b h)
    ∙ one_more key e b (net key es)

-- The other side of an account counts with the other sign.
signed_delta-opposite :
    (n : NormalBalance) (d : Direction) (a : ℤ)
    → IsInt64 a
    → pos 0 <ℤ a
    → (d ≡ Direction.debit) ⊎ (d ≡ Direction.credit)
    → signed_delta n (opposite d) a ≡ pos 0 -ℤ signed_delta n d a
signed_delta-opposite NormalBalance.normal_debit Direction.debit a i p s = neg64_exact a i p
signed_delta-opposite NormalBalance.normal_debit Direction.credit a i p s =
    sym (ap (λ x. pos 0 -ℤ x) (neg64_exact a i p) ∙ neg_neg a)
signed_delta-opposite NormalBalance.normal_credit Direction.debit a i p s =
    sym (ap (λ x. pos 0 -ℤ x) (neg64_exact a i p) ∙ neg_neg a)
signed_delta-opposite NormalBalance.normal_credit Direction.credit a i p s = neg64_exact a i p
signed_delta-opposite n (Direction.other t) a i p s = absurd (ground (arith, s))

-- The reversal's entries add the opposite.
net-mirror :
    (key : AccountKey) (j : Journal) (c : String) (es : List Entry)
    → All (IsPostable j c) es
    → All HasInt64Amount es
    → net key (map mirror es) ≡ pos 0 -ℤ net key es
net-mirror key j c [] p i = sym (neg_zero)
net-mirror key j c (e ∷ es) p i =
    let rest = net-mirror key j c es p.1 i.1 in
    let one =
      signed_delta-opposite (normal_of_kind (kind_of_key e.account)) e.direction
        e.amount.amount_minor i.0 p.0.positive p.0.side in
    elim (Bool-cases (key_eq e.account key)) [
      | inl q ↦ rw (q, rest, one) (neg_sum (delta_of e) (net key es))
      | inr q ↦
          let skip = ap (λ z. z +ℤ (pos 0 -ℤ net key es)) (sym neg_zero) in
          rw (q, rest) (skip ∙ neg_sum (pos 0) (net key es))
    ]

apply_valid :
    (j : Journal) (b : Balances)
    → validate j ≡ ok tt
    → apply j b ≡ (ok tt, apply_entries j.entries b)
unfolding apply
apply_valid j b v =
    ap (λ r. elim r [ ok _ ↦ (ok tt, apply_entries j.entries b) | err e ↦ (err e, b) ]) v

-- The entries and their mirrors.
entries_restore :
    (key : AccountKey) (j : Journal) (c : String) (es : List Entry) (b : Balances)
    → All (IsPostable j c) es
    → All HasInt64Amount es
    → IsInt64 (balance_of b key)
    → balance_of (apply_entries (map mirror es) (apply_entries es b)) key ≡ balance_of b key
entries_restore key j c es b p i h =
    let x = balance_of b key in
    let y = net key es in
    let once = balance_of-apply_entries key es b h in
    let range : IsInt64 (balance_of (apply_entries es b) key) =
      subst IsInt64 (sym once) (wrap64-IsInt64 (x +ℤ y)) in
    balance_of-apply_entries key (map mirror es) (apply_entries es b) range
    ∙ ap (λ z. wrap64 (z +ℤ net key (map mirror es))) once
    ∙ ap (λ z. wrap64 (wrap64 (x +ℤ y) +ℤ z)) (net-mirror key j c es p i)
    ∙ there_and_back x y h

-- Applying a sound journal and then its reversal, under any event id but the nil one, brings every
-- int64 balance back to what it was, even where a balance wraps around in between; and neither
-- application fails.
pub reversal_restores :
    (j : Journal) (event_id : Uuid) (description : String) (now : Time) (b : Balances)
    (key : AccountKey)
    → IsSound j
    → All HasInt64Amount j.entries
    → event_id ≢ nil_uuid
    → IsInt64 (balance_of b key)
    → let first = apply j b in
      let second = apply (reversal_journal j event_id description now) first.1 in
      (first.0 ≡ ok tt) × (second.0 ≡ ok tt) × (balance_of second.1 key ≡ balance_of b key)
unfolding reversal_journal
reversal_restores j event_id description now b key s i n h =
    let rev = reversal_journal j event_id description now in
    let first = apply_valid j b (validate-of_IsSound j s) in
    let undone =
      validate-of_IsSound rev (reversal_journal-IsSound j event_id description now s n) in
    let second =
      ap (λ p. apply rev p.1) first ∙ apply_valid rev (apply_entries j.entries b) undone in
    (
      ap (λ p. p.0) first,
      ap (λ p. p.0) second,
      ap (λ p. balance_of p.1 key) second
          ∙ entries_restore key j (currency_of j.entries) j.entries b s.postable i h,
    )
