-- ===== src/Ledger/Journal/Sound.antt =====
-- What `Journal.Validate` of internal/ledger/domain/journal.go accepts, described apart from it: the
-- entries one by one, and the exact sums of the two sides.
use payment_gateway.Base.{
  ℕ, String, true, List, [], ◌∷◌, ◌≡◌, ◌≢◌, ◌⊎◌, arith, ◌+◌, ◌<◌, ◌≤◌, ◌^◌, length, All,
  if◌then◌else◌, text_eq_iff, sym, ◌∙◌,
}
use native.Mathlib.Nat.{add_assoc}
use payment_gateway.Base.Action.{ok, err}
use payment_gateway.Base.Int.{ℤ, pos, pos_part, ◌<ℤ◌, IsInt64, add64, sub64, wrap64, ◌+ℤ◌, ◌-ℤ◌}
use payment_gateway.Ids.{nil_uuid}
use payment_gateway.Money
use payment_gateway.Money.Currency.{is_supported_currency}
use payment_gateway.Ledger.Account.{is_system, validate_key}
use payment_gateway.Ledger.Chart.{entry_amount_invalid}
use payment_gateway.Ledger.Journal.{
  Journal, Entry, Direction, is_debit, is_valid_reference, currency_of, check_entry, accumulate,
  validate_entries,
}

-- An entry that may stand in the journal `j` of a currency.
pub record IsPostable (j : Journal) (currency : String) (e : Entry) : Type 0 where
  pub side : (e.direction ≡ Direction.debit) ⊎ (e.direction ≡ Direction.credit)
  pub supported : is_supported_currency e.amount.currency ≡ true
  pub positive : pos 0 <ℤ e.amount.amount_minor
  pub same_currency : e.amount.currency ≡ currency
  pub account_valid : validate_key e.account ≡ ok tt
  pub account_currency : e.account.currency ≡ currency
  pub account_livemode : e.account.livemode ≡ j.livemode
  pub owner :
      (is_system e.account ≡ true)
      ⊎ (j.merchant_id ≡ nil_uuid)
      ⊎ (e.account.merchant_id ≡ j.merchant_id)

-- One entry's amount on each side, and the two sums, as unbounded numbers.
abbrev pub debit_part : Entry → ℕ
debit_part e = if is_debit e.direction then pos_part e.amount.amount_minor else 0

abbrev pub credit_part : Entry → ℕ
credit_part e = if is_debit e.direction then 0 else pos_part e.amount.amount_minor

abbrev pub debit_sum : List Entry → ℕ
debit_sum [] = 0
debit_sum (e ∷ es) = debit_part e + debit_sum es

abbrev pub credit_sum : List Entry → ℕ
credit_sum [] = 0
credit_sum (e ∷ es) = credit_part e + credit_sum es

abbrev pub HasInt64Amount : Entry → Type 0
HasInt64Amount e = IsInt64 e.amount.amount_minor

pub record IsSound (j : Journal) : Type 0 where
  pub identified : j.event_id ≢ nil_uuid
  pub known_reference : is_valid_reference j.reference_type ≡ true
  pub two_entries : 2 ≤ length j.entries
  pub postable : All (IsPostable j (currency_of j.entries)) j.entries
  pub balanced : debit_sum j.entries ≡ credit_sum j.entries
  pub bounded : debit_sum j.entries < 2 ^ 63

pub IsPostable-of_check :
    (j : Journal) (c : String) (e : Entry) → check_entry j c e ≡ ok tt → IsPostable j c e
unfolding check_entry Money.validate
IsPostable-of_check j c e h =
    ground (arith, text_eq_iff e.amount.currency c, text_eq_iff e.account.currency c)

pub check-of_IsPostable :
    (j : Journal) (c : String) (e : Entry) → IsPostable j c e → check_entry j c e ≡ ok tt
unfolding check_entry Money.validate
check-of_IsPostable j c e h =
    ground (arith, text_eq_iff e.amount.currency c, text_eq_iff e.account.currency c)

-- A running total grows exactly, or its overflow is an error.
accumulate_exact : (s a : ℕ) → s + a < 2 ^ 63 → accumulate (pos s) (pos a) ≡ ok (pos (s + a))
unfolding accumulate add64 sub64 wrap64 ◌+ℤ◌ ◌-ℤ◌
accumulate_exact s a h = ground arith

accumulate_overflow :
    (s a : ℕ) → a < 2 ^ 63 → 2 ^ 63 ≤ s + a → accumulate (pos s) (pos a) ≡ err entry_amount_invalid
unfolding accumulate add64 sub64 wrap64 ◌+ℤ◌ ◌-ℤ◌
accumulate_overflow s a h o = ground arith

-- One round of the loop of `Validate`, on an entry that may stand in the journal.
round_exact :
    (j : Journal) (c : String) (d k : ℕ) (e : Entry) (es : List Entry)
    → IsPostable j c e
    → d + debit_part e < 2 ^ 63
    → k + credit_part e < 2 ^ 63
    → validate_entries j c (pos d) (pos k) (e ∷ es)
      ≡ validate_entries j c (pos (d + debit_part e)) (pos (k + credit_part e)) es
unfolding validate_entries
round_exact j c d k e es p hd hk = ground (
  arith,
  check-of_IsPostable j c e p,
  accumulate_exact d (pos_part e.amount.amount_minor),
  accumulate_exact k (pos_part e.amount.amount_minor),
)

-- A round that does not fail had an entry that may stand in the journal, and room for it.
round_inv :
    (j : Journal) (c : String) (d k : ℕ) (e : Entry) (es : List Entry) {r : ℤ × ℤ}
    → HasInt64Amount e
    → d < 2 ^ 63
    → k < 2 ^ 63
    → validate_entries j c (pos d) (pos k) (e ∷ es) ≡ ok r
    → IsPostable j c e × (d + debit_part e < 2 ^ 63) × (k + credit_part e < 2 ^ 63)
unfolding validate_entries
round_inv j c d k e es i hd hk h =
    let p : IsPostable j c e = IsPostable-of_check j c e (ground arith) in
    let checked = check-of_IsPostable j c e p in
    let a = pos_part e.amount.amount_minor in
    (
      p,
      ground (arith, p, checked, accumulate_overflow d a),
      ground (arith, p, checked, accumulate_overflow k a),
    )

-- The loop on entries that may stand in the journal returns the exact sums.
pub entries_exact :
    (j : Journal) (c : String) (d k : ℕ) (es : List Entry)
    → All (IsPostable j c) es
    → d + debit_sum es < 2 ^ 63
    → k + credit_sum es < 2 ^ 63
    → validate_entries j c (pos d) (pos k) es ≡ ok (pos (d + debit_sum es), pos (k + credit_sum es))
entries_exact j c d k [] p hd hk = unfold validate_entries in ground arith
entries_exact j c d k (e ∷ es) p hd hk =
    let rest =
      entries_exact j c (d + debit_part e) (k + credit_part e) es p.1 (omega arith) (omega arith) in
    rw (
      round_exact j c d k e es p.0 (omega arith) (omega arith),
      rest,
      add_assoc d (debit_part e) (debit_sum es),
      add_assoc k (credit_part e) (credit_sum es),
    )

-- The loop that does not fail had such entries, and returned the exact sums.
pub entries_inv :
    (j : Journal) (c : String) (d k : ℕ) (es : List Entry) {r : ℤ × ℤ}
    → All HasInt64Amount es
    → d < 2 ^ 63
    → k < 2 ^ 63
    → validate_entries j c (pos d) (pos k) es ≡ ok r
    → All (IsPostable j c) es × (d + debit_sum es < 2 ^ 63) × (k + credit_sum es < 2 ^ 63)
entries_inv j c d k [] i hd hk h = (tt, omega arith, omega arith)
entries_inv j c d k (e ∷ es) i hd hk h =
    let (p, hd', hk') = round_inv j c d k e es i.0 hd hk h in
    let (ps, bd, bk) =
      entries_inv j c (d + debit_part e) (k + credit_part e) es i.1 hd' hk'
        (sym (round_exact j c d k e es p hd' hk') ∙ h) in
    ((p, ps), omega arith, omega arith)
