-- ===== src/Reconciliation/Matcher/Sums.antt =====
-- `Match` of internal/reconciliation/domain/matcher.go: the totals of a file, by currency.
use payment_gateway.Base.{
  ◌≡◌, refl, sym, ap, ◌∙◌, arith, ℕ, String, Bool, true, false, Option, some, List, [], ◌∷◌,
  Bool-cases, inl, inr, ◌&&◌, text_eq, text_eq_iff, if◌then◌else◌, ◌==◌,
}
use payment_gateway.Base.Bags.{lookup-insert}
use payment_gateway.Base.Clock.{Time}
use payment_gateway.Base.Dict.{lookup}
use payment_gateway.Base.Int.{ℤ, pos, eqb_ℤ, eqb_ℤ_iff, ◌+ℤ◌, add64, wrap64}
use payment_gateway.Base.Int.Wrap.{wrap64-add, +ℤ_assoc, +ℤ_zero, zero_+ℤ}
use payment_gateway.Ids.{Uuid}
use payment_gateway.Reconciliation.Settlement.{
  LineType, SettlementLine, MatchKey, type_eq, matchable,
}
use payment_gateway.Reconciliation.Record.{PaymentRecord, record_key}
use payment_gateway.Reconciliation.Matcher.{
  MatchInput, MatchResult, Scan, Index, Sums, Totals, sum_of, sum_or_zero, add_to, accumulate,
  accumulate_amount, accumulate_fee, settle_line, match_line, scan_line, scan_lines, start_scan,
  scan_records, miss_record, match_lines, index_records, passed_over, no_totals,
}

sum_or_zero-if :
    (b : Bool) (v : ℤ) (o : Option ℤ)
    → sum_or_zero (if b then some v else o) ≡ (if b then v else sum_or_zero o)
sum_or_zero-if true v o = refl
sum_or_zero-if false v o = refl

if-same {κ} :
    {A : Type κ} (b : Bool) (x y z : A)
    → (b ≡ true → x ≡ y)
    → (if b then x else z) ≡ (if b then y else z)
if-same true x y z h = h refl
if-same false x y z h = refl

-- A sum under a currency after an addition.
sum_of-add_to :
    (c cur : String) (x : ℤ) (m : Sums)
    → sum_of c (add_to cur x m) ≡ (if text_eq cur c then add64 (sum_of c m) x else sum_of c m)
sum_of-add_to c cur x m =
    ap sum_or_zero (lookup-insert text_eq text_eq_iff c cur (add64 (sum_of cur m) x) m)
    ∙ sum_or_zero-if (text_eq cur c) (add64 (sum_of cur m) x) (lookup text_eq c m)
    ∙ if-same (text_eq cur c) (add64 (sum_of cur m) x) (add64 (sum_of c m) x) (sum_of c m)
        (λ e. ap (λ k. add64 (sum_of k m) x) ((text_eq_iff cur c).0 e))

match_line-totals :
    (fresh : ℕ → Uuid) (p : String) (idx : Index) (l : SettlementLine) (s : Scan)
    → (match_line fresh p idx l s).res.totals ≡ s.res.totals
unfolding match_line settle_line
match_line-totals fresh p idx l s = ground arith

scan_line-totals :
    (fresh : ℕ → Uuid) (p : String) (idx : Index) (l : SettlementLine) (s : Scan)
    → (scan_line fresh p idx l s).res.totals ≡ accumulate l s.res.totals
unfolding scan_line
scan_line-totals fresh p idx l s = elim (Bool-cases (matchable l.line_type)) [
  | inl e ↦ rw (e, scan_line) (match_line-totals fresh p idx l _)
  | inr e ↦ rw (e, scan_line) refl
]

-- The loop over the records adds nothing to the totals.
scan_records-totals :
    (fresh : ℕ → Uuid) (i : MatchInput) (now : Time) (consumed seen : List MatchKey)
    (rs : List PaymentRecord) (res : MatchResult)
    → (scan_records fresh i now consumed seen rs res).totals ≡ res.totals
unfolding scan_records miss_record
scan_records-totals fresh i now consumed seen [] res = refl
scan_records-totals fresh i now consumed seen (r ∷ rs) res =
    let kept : (if passed_over consumed seen r
          then res
          else miss_record fresh i.provider now i.grace_period r res).totals
        ≡ res.totals =
      ground arith in
    let seen' = if passed_over consumed seen r then seen else record_key r ∷ seen in
    scan_records-totals fresh i now consumed seen' rs _ ∙ kept

-- The sum of what the lines give to one of the totals.
abbrev pub total : (SettlementLine → ℤ) → List SettlementLine → ℤ
total f [] = pos 0
total f (l ∷ ls) = f l +ℤ total f ls

module _ (c : String) where
  -- The amount of a line of a type, in the currency.
  abbrev pub gross : LineType → SettlementLine → ℤ
  gross t l =
      if type_eq l.line_type t && text_eq l.amount.currency c then l.amount.amount_minor else pos 0

  -- The amount of a line of fees, and every line's own fee.
  abbrev pub fees_of : SettlementLine → ℤ
  fees_of l =
      gross LineType.fee l +ℤ (if text_eq l.amount.currency c then l.fee.amount_minor else pos 0)

  -- One addition, to a sum that is right up to multiples of 2 ^ 64.
  sum_of-round :
      (cur : String) (x s : ℤ) (m : Sums)
      → sum_of c m ≡ wrap64 s
      → sum_of c (add_to cur x m) ≡ wrap64 (s +ℤ (if text_eq cur c then x else pos 0))
  unfolding add64
  sum_of-round cur x s m h = sum_of-add_to c cur x m ∙ elim (Bool-cases (text_eq cur c)) [
    | inl e ↦ rw (e, h) (wrap64-add s x)
    | inr e ↦ rw e (h ∙ ap wrap64 (sym (+ℤ_zero s)))
  ]

  sum_of-keep : (s : ℤ) (m : Sums) → sum_of c m ≡ wrap64 s → sum_of c m ≡ wrap64 (s +ℤ pos 0)
  sum_of-keep s m h = h ∙ ap wrap64 (sym (+ℤ_zero s))

  -- The four sums of a file after the lines so far, whose true totals are given.
  pub record IsRight (t : Totals) (settled refunds chargebacks fees : ℤ) : Type 0 where
    pub settled_right : sum_of c t.settled ≡ wrap64 settled
    pub refunds_right : sum_of c t.refunds ≡ wrap64 refunds
    pub chargebacks_right : sum_of c t.chargebacks ≡ wrap64 chargebacks
    pub fees_right : sum_of c t.fees ≡ wrap64 fees

  no_totals-IsRight : IsRight no_totals (pos 0) (pos 0) (pos 0) (pos 0)
  unfolding wrap64
  no_totals-IsRight = record {
    settled_right = refl;
    refunds_right = refl;
    chargebacks_right = refl;
    fees_right = refl;
  }

  abbrev share : Bool → String → ℤ → ℤ
  share b cur x = if b && text_eq cur c then x else pos 0

  accumulate_amount-IsRight :
      (ty : LineType) (cur : String) (x s r b f : ℤ) (t : Totals)
      → IsRight t s r b f
      → IsRight
          (accumulate_amount ty cur x t)
          (s +ℤ share (type_eq ty LineType.payment) cur x)
          (r +ℤ share (type_eq ty LineType.refund) cur x)
          (b +ℤ share (type_eq ty LineType.chargeback) cur x)
          (f +ℤ share (type_eq ty LineType.fee) cur x)
  unfolding accumulate_amount
  accumulate_amount-IsRight LineType.payment cur x s r b f t v = record {
    settled_right = sum_of-round cur x s t.settled v.settled_right;
    refunds_right = sum_of-keep r t.refunds v.refunds_right;
    chargebacks_right = sum_of-keep b t.chargebacks v.chargebacks_right;
    fees_right = sum_of-keep f t.fees v.fees_right;
  }
  accumulate_amount-IsRight LineType.refund cur x s r b f t v = record {
    settled_right = sum_of-keep s t.settled v.settled_right;
    refunds_right = sum_of-round cur x r t.refunds v.refunds_right;
    chargebacks_right = sum_of-keep b t.chargebacks v.chargebacks_right;
    fees_right = sum_of-keep f t.fees v.fees_right;
  }
  accumulate_amount-IsRight LineType.chargeback cur x s r b f t v = record {
    settled_right = sum_of-keep s t.settled v.settled_right;
    refunds_right = sum_of-keep r t.refunds v.refunds_right;
    chargebacks_right = sum_of-round cur x b t.chargebacks v.chargebacks_right;
    fees_right = sum_of-keep f t.fees v.fees_right;
  }
  accumulate_amount-IsRight LineType.fee cur x s r b f t v = record {
    settled_right = sum_of-keep s t.settled v.settled_right;
    refunds_right = sum_of-keep r t.refunds v.refunds_right;
    chargebacks_right = sum_of-keep b t.chargebacks v.chargebacks_right;
    fees_right = sum_of-round cur x f t.fees v.fees_right;
  }
  accumulate_amount-IsRight LineType.adjustment cur x s r b f t v = record {
    settled_right = sum_of-keep s t.settled v.settled_right;
    refunds_right = sum_of-keep r t.refunds v.refunds_right;
    chargebacks_right = sum_of-keep b t.chargebacks v.chargebacks_right;
    fees_right = sum_of-keep f t.fees v.fees_right;
  }
  accumulate_amount-IsRight LineType.other cur x s r b f t v = record {
    settled_right = sum_of-keep s t.settled v.settled_right;
    refunds_right = sum_of-keep r t.refunds v.refunds_right;
    chargebacks_right = sum_of-keep b t.chargebacks v.chargebacks_right;
    fees_right = sum_of-keep f t.fees v.fees_right;
  }

  accumulate_fee-IsRight :
      (cur : String) (x s r b f : ℤ) (t : Totals)
      → IsRight t s r b f
      → IsRight (accumulate_fee cur x t) s r b (f +ℤ (if text_eq cur c then x else pos 0))
  unfolding accumulate_fee
  accumulate_fee-IsRight cur x s r b f t v = elim (Bool-cases (eqb_ℤ x (pos 0))) [
    | inl e ↦
        let nothing : x ≡ pos 0 = (eqb_ℤ_iff x (pos 0)).0 e in
        let share_nothing : (if text_eq cur c then x else pos 0) ≡ pos 0 =
          ground (arith, nothing) in
        rw share_nothing (
          rw (e, accumulate_fee)
            (record {
              settled_right = v.settled_right;
              refunds_right = v.refunds_right;
              chargebacks_right = v.chargebacks_right;
              fees_right = sum_of-keep f t.fees v.fees_right;
            }))
    | inr e ↦
        rw (e, accumulate_fee)
          (record {
            settled_right = v.settled_right;
            refunds_right = v.refunds_right;
            chargebacks_right = v.chargebacks_right;
            fees_right = sum_of-round cur x f t.fees v.fees_right;
          })
  ]

  accumulate-IsRight :
      (l : SettlementLine) (s r b f : ℤ) (t : Totals)
      → IsRight t s r b f
      → IsRight
          (accumulate l t)
          (s +ℤ gross LineType.payment l)
          (r +ℤ gross LineType.refund l)
          (b +ℤ gross LineType.chargeback l)
          (f +ℤ fees_of l)
  unfolding accumulate
  accumulate-IsRight l s r b f t v =
      let own : ℤ = if text_eq l.amount.currency c then l.fee.amount_minor else pos 0 in
      rw (← +ℤ_assoc f (gross LineType.fee l) own) (
        accumulate_fee-IsRight l.amount.currency l.fee.amount_minor _ _ _ _ _ (
          accumulate_amount-IsRight l.line_type l.amount.currency l.amount.amount_minor s r b f t
            v))

  scan_lines-IsRight :
      (fresh : ℕ → Uuid) (p : String) (idx : Index) (ls : List SettlementLine) (s r b f : ℤ)
      (x : Scan)
      → IsRight x.res.totals s r b f
      → IsRight
          (scan_lines fresh p idx ls x).res.totals
          (s +ℤ total (gross LineType.payment) ls)
          (r +ℤ total (gross LineType.refund) ls)
          (b +ℤ total (gross LineType.chargeback) ls)
          (f +ℤ total fees_of ls)
  unfolding scan_lines
  scan_lines-IsRight fresh p idx [] s r b f x v = rw (+ℤ_zero s, +ℤ_zero r, +ℤ_zero b, +ℤ_zero f) v
  scan_lines-IsRight fresh p idx (l ∷ ls) s r b f x v =
      let after : IsRight (scan_line fresh p idx l x).res.totals (s +ℤ gross LineType.payment l)
          (r +ℤ gross LineType.refund l) (b +ℤ gross LineType.chargeback l) (f +ℤ fees_of l) =
        rw (scan_line-totals fresh p idx l x) (accumulate-IsRight l s r b f x.res.totals v) in
      rw (← +ℤ_assoc s (gross LineType.payment l) (total (gross LineType.payment) ls)) (
        rw (← +ℤ_assoc r (gross LineType.refund l) (total (gross LineType.refund) ls)) (
          rw (← +ℤ_assoc b (gross LineType.chargeback l) (total (gross LineType.chargeback) ls)) (
            rw (← +ℤ_assoc f (fees_of l) (total fees_of ls))
              (scan_lines-IsRight fresh p idx ls _ _ _ _ (scan_line fresh p idx l x) after))))

-- For every currency the totals that `Match` reports are the true sums over the lines of the file,
-- as int64 holds them (up to multiples of 2 ^ 64): the amounts of its payments, of its refunds and
-- of its chargebacks, and for the fees the amounts of its fee lines and the fees of all its lines.
pub match_lines-totals :
    (fresh : ℕ → Uuid) (wall_clock : Time) (i : MatchInput) (c : String)
    → let t = (match_lines fresh wall_clock i).totals in
      (sum_of c t.settled ≡ wrap64 (total (gross c LineType.payment) i.lines))
      × (sum_of c t.refunds ≡ wrap64 (total (gross c LineType.refund) i.lines))
      × (sum_of c t.chargebacks ≡ wrap64 (total (gross c LineType.chargeback) i.lines))
      × (sum_of c t.fees ≡ wrap64 (total (fees_of c) i.lines))
unfolding match_lines
match_lines-totals fresh wall_clock i c =
    let idx = index_records i.provider i.records [] in
    let s = scan_lines fresh i.provider idx i.lines (start_scan i.lines) in
    let v =
      scan_lines-IsRight c fresh i.provider idx i.lines (pos 0) (pos 0) (pos 0) (pos 0)
        (start_scan i.lines) (no_totals-IsRight c) in
    rw
      (scan_records-totals fresh i (if i.now == 0 then wall_clock else i.now) s.consumed []
        i.records s.res)
      (
        v.settled_right ∙ ap wrap64 (zero_+ℤ _),
        v.refunds_right ∙ ap wrap64 (zero_+ℤ _),
        v.chargebacks_right ∙ ap wrap64 (zero_+ℤ _),
        v.fees_right ∙ ap wrap64 (zero_+ℤ _),
      )
