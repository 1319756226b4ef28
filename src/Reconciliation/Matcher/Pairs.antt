-- ===== src/Reconciliation/Matcher/Pairs.antt =====
-- `Match` of internal/reconciliation/domain/matcher.go: the pairs of a line and a record.
use payment_gateway.Base.{
  ◌≡◌, refl, ◌∙◌, arith, ℕ, ◌≤◌, true, false, List, [], ◌∷◌, countp, All, Member, if◌then◌else◌,
}
use payment_gateway.Base.Clock.{Time}
use payment_gateway.Ids.{Uuid}
use payment_gateway.Money.{Money}
use payment_gateway.Reconciliation.Settlement.{
  SettlementLine, MatchKey, key_eq, line_key, matchable,
}
use payment_gateway.Reconciliation.Record.{PaymentRecord, record_key, is_settleable}
use payment_gateway.Reconciliation.Matcher.{
  MatchInput, MatchedPair, MatchResult, Scan, Index, contains, fee_differs, scan_records,
  miss_record, passed_over, is_foreign,
}

-- What a line and a record have in common that count as settled.
pub record Agrees (i : MatchInput) (p : MatchedPair) : Type 0 where
  pub in_file : Member p.line i.lines
  pub is_known : Member p.rec i.records
  pub takes_part : matchable p.line.line_type ≡ true
  pub own : is_foreign i.provider p.rec ≡ false
  pub same_key : record_key p.rec ≡ line_key p.line
  pub settles : is_settleable p.rec ≡ true
  pub same_amount : p.line.amount ≡ p.rec.amount
  pub same_fee : fee_differs p.rec.fee p.line.fee ≡ false

module _ (P : PaymentRecord → Type 0) where
  -- An entry of the index: the record under its own key.
  abbrev Entry : MatchKey × PaymentRecord → Type 0
  Entry e = (record_key e.1 ≡ e.0) × P e.1

-- How many pairs a key has.
abbrev pub pairs_of : MatchKey → List MatchedPair → ℕ
pairs_of k ps = countp (λ p. key_eq (line_key p.line) k) ps

abbrev pair : SettlementLine → PaymentRecord → MatchedPair
pair l r = record { line = l; rec = r }

-- Every entry of the index is a known record of the provider.
abbrev IsIndexed : MatchInput → Index → Type 0
IsIndexed i = All (Entry (λ r. Member r i.records × (is_foreign i.provider r ≡ false)))

module _ (i : MatchInput) (k : MatchKey) where
  -- The pairs so far agree, and the key has a pair only if it is taken.
  abbrev IsSound : Scan → Type 0
  IsSound s =
      All (Agrees i) s.res.matched
      × (pairs_of k s.res.matched ≤ (if contains k s.consumed then 1 else 0))

-- The loop over the records makes no pairs.
pub scan_records-matched :
    (fresh : ℕ → Uuid) (i : MatchInput) (now : Time) (consumed seen : List MatchKey)
    (rs : List PaymentRecord) (res : MatchResult)
    → (scan_records fresh i now consumed seen rs res).matched ≡ res.matched
unfolding scan_records miss_record
scan_records-matched fresh i now consumed seen [] res = refl
scan_records-matched fresh i now consumed seen (r ∷ rs) res =
    let kept : (if passed_over consumed seen r
          then res
          else miss_record fresh i.provider now i.grace_period r res).matched
        ≡ res.matched =
      ground arith in
    let seen' = if passed_over consumed seen r then seen else record_key r ∷ seen in
    scan_records-matched fresh i now consumed seen' rs _ ∙ kept
