-- ===== src/Ledger/Reversal/Accepted.antt =====
-- What `Reverse` of internal/ledger/domain/journal.go makes, `ValidateReversal` accepts.
use payment_gateway.Base.{
  ◌≡◌, inl, inr, refl, sym, ap, arith, none, some, String, List, [], ◌∷◌, map, length-map,
}
use payment_gateway.Base.Action.{ok, Result-cases}
use payment_gateway.Base.Bags.{occurs}
use payment_gateway.Base.Clock.{Time}
use payment_gateway.Ids.{Uuid}
use payment_gateway.Ledger.Journal.{Journal, Entry, validate}
use payment_gateway.Ledger.Reversal.{
  line_eq, mirrored_line, line_of, mirror, reverse, reversal_journal, validate_reversal,
}
use payment_gateway.Ledger.Reversal.Check.{IsReversalOf, validate_reversal_iff}

lines-mirror : (es : List Entry) → map line_of (map mirror es) ≡ map mirrored_line es
lines-mirror [] = refl
lines-mirror (e ∷ es) = ap (λ ls. mirrored_line e ∷ ls) (lines-mirror es)

reversal_journal-IsReversalOf :
    (orig : Journal) (event_id : Uuid) (description : String) (now : Time)
    → orig.reversed_by ≡ none
    → IsReversalOf orig (reversal_journal orig event_id description now)
unfolding reversal_journal
reversal_journal-IsReversalOf orig event_id description now h = record {
  unreversed = h;
  points = refl;
  same_size = sym (length-map orig.entries mirror);
  mirrored = λ l. ap (occurs line_eq l) (lines-mirror orig.entries);
}

reverse_ok :
    (orig : Journal) (event_id : Uuid) (description : String) (now : Time) {rev : Journal}
    → reverse (some orig) event_id description now ≡ ok rev
    → (orig.reversed_by ≡ none) × (rev ≡ reversal_journal orig event_id description now)
unfolding reverse
reverse_ok orig event_id description now h =
    elim (Result-cases (validate (reversal_journal orig event_id description now))) [
      | inl (_, e) ↦ ground (arith, h, e)
      | inr (_, e) ↦ ground (arith, h, e)
    ]

-- Every journal that `Reverse` returns passes `ValidateReversal` against its original, which is then
-- not reversed yet.
pub validate_reversal-reverse :
    (orig : Journal) (event_id : Uuid) (description : String) (now : Time) {rev : Journal}
    → reverse (some orig) event_id description now ≡ ok rev
    → validate_reversal (some orig) rev ≡ ok tt
validate_reversal-reverse orig event_id description now h =
    let (unreversed, made) = reverse_ok orig event_id description now h in
    rw made (
      (validate_reversal_iff orig _).1
        (reversal_journal-IsReversalOf orig event_id description now unreversed))
