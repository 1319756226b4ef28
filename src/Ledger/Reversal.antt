-- ===== src/Ledger/Reversal.antt =====
-- internal/ledger/domain/journal.go: the accounts that a journal touches, its reversal, and the check
-- of a reversal that the caller wrote.
pub mod Mirror
pub mod Check
pub mod Accepted
use payment_gateway.Base.{
  ℕ, String, Bool, true, false, Option, none, some, List, [], ◌∷◌, ◌==◌, ◌&&◌, ◌||◌, ◌-◌, ◌+◌, not,
  length, text_eq, if◌then◌else◌, any, map, concat,
}
use payment_gateway.Base.Action.{Result, ok, err, fail_if, ◌>>◌}
use payment_gateway.Base.Dict.{lookup, insert}
use payment_gateway.Base.Int.{ℤ, eqb_ℤ}
use payment_gateway.Base.Clock.{Time}
use payment_gateway.Ids.{Uuid, nil_uuid}
use payment_gateway.Ledger.Account.{AccountKey, key_eq}
use payment_gateway.Ledger.Chart.{
  LedgerError, journal_not_found, journal_already_reversed, reversal_mismatch,
}
use payment_gateway.Ledger.Journal.{
  Journal, Entry, Direction, direction_eq, opposite, ReferenceType, SourceType, validate,
}

-- The loop of `AccountKeys`; `seen` is in order.
unfoldable pub keys_from : List AccountKey → List Entry → List AccountKey
keys_from seen [] = []
keys_from seen (e ∷ es) =
    let rest = keys_from seen es in
    let fresh = keys_from (e.account ∷ seen) es in
    if any (λ k. key_eq k e.account) seen then rest else e.account ∷ fresh

-- `AccountKeys`: each account once, in the order of its first entry.
unfoldable pub account_keys : Journal → List AccountKey
unfolding keys_from
account_keys j = keys_from [] j.entries

abbrev is_own_key : String → Bool
is_own_key k = text_eq k "template" || text_eq k "source_type" || text_eq k "source_id"

-- The metadata that a reversal keeps: all but the template and the source.
abbrev pub kept_metadata : List (String × String) → List (String × String)
kept_metadata [] = []
kept_metadata ((k, v) ∷ m) = if is_own_key k then kept_metadata m else (k, v) ∷ kept_metadata m

-- The mirrored entry: the other side, and no id yet.
abbrev pub mirror : Entry → Entry
mirror e = record {
  id = nil_uuid;
  account_id = e.account_id;
  account = e.account;
  direction = opposite e.direction;
  amount = e.amount;
  description = concat "reversal: " e.description;
  created_at = 0;
}

-- The journal that `Reverse` builds.
unfoldable pub reversal_journal : Journal → Uuid → String → Time → Journal
reversal_journal orig event_id description now = record {
  id = nil_uuid;
  public_id = "";
  event_id = event_id;
  merchant_id = orig.merchant_id;
  livemode = orig.livemode;
  source_type = SourceType.reversal;
  source_id = orig.public_id;
  reference_type = ReferenceType.reversal;
  reference_id = orig.public_id;
  description =
      if text_eq description "" then concat "Reversal of " orig.public_id else description;
  template = "J-REV";
  reversal_of = some orig.id;
  reversed_by = none;
  effective_at = now;
  posted_at = now;
  metadata = kept_metadata orig.metadata;
  entries = map mirror orig.entries;
}

abbrev pub is_some : Option Uuid → Bool
is_some none = false
is_some (some _) = true

-- `Reverse`; `none` is a nil journal.
unfoldable pub reverse : Option Journal → Uuid → String → Time → Result LedgerError Journal
unfolding reversal_journal
reverse none event_id description now = err journal_not_found
reverse (some orig) event_id description now = do
  fail_if (is_some orig.reversed_by) journal_already_reversed
  fail_if (orig.id == nil_uuid) journal_not_found
  let rev = reversal_journal orig event_id description now
  validate rev
  ok rev

-- `line`: what a reversal must mirror of an entry.
pub record Line : Type 0 where
  pub acct : AccountKey
  pub dir : Direction
  pub amt : ℤ

unfoldable pub line_eq : Line → Line → Bool
unfolding key_eq
line_eq a b = key_eq a.acct b.acct && direction_eq a.dir b.dir && eqb_ℤ a.amt b.amt

abbrev pub mirrored_line : Entry → Line
mirrored_line e = record {
  acct = e.account;
  dir = opposite e.direction;
  amt = e.amount.amount_minor;
}

abbrev pub line_of : Entry → Line
line_of e = record { acct = e.account; dir = e.direction; amt = e.amount.amount_minor }

-- `expect[l]`, 0 for a line that is not there.
abbrev pub expected : Line → List (Line × ℕ) → ℕ
expected l m = elim (lookup line_eq l m) [ some n ↦ n | none ↦ 0 ]

-- The loop that counts the original's mirrored lines.
unfoldable pub count_lines : List Entry → List (Line × ℕ) → List (Line × ℕ)
unfolding line_eq
count_lines [] m = m
count_lines (e ∷ es) m =
    let l = mirrored_line e in count_lines es (insert line_eq l (expected l m + 1) m)

-- The loop that takes the reversal's lines off the count.
unfoldable pub take_lines : List Entry → List (Line × ℕ) → Result LedgerError (Unit {0})
unfolding line_eq
take_lines [] m = ok tt
take_lines (e ∷ es) m =
    let l = line_of e in
    let rest = take_lines es (insert line_eq l (expected l m - 1) m) in
    if expected l m == 0 then err reversal_mismatch else rest

abbrev points_to : Option Uuid → Uuid → Bool
points_to none id = false
points_to (some r) id = r == id

-- `ValidateReversal`; `none` is a nil original.
unfoldable pub validate_reversal : Option Journal → Journal → Result LedgerError (Unit {0})
unfolding count_lines take_lines
validate_reversal none rev = err journal_not_found
validate_reversal (some orig) rev = do
  fail_if (is_some orig.reversed_by) journal_already_reversed
  fail_if (not (length orig.entries == length rev.entries)) reversal_mismatch
  take_lines rev.entries (count_lines orig.entries [])
  fail_if (not (points_to rev.reversal_of orig.id)) reversal_mismatch
