-- ===== src/Ledger/Reversal/Check.antt =====
-- `ValidateReversal` of internal/ledger/domain/journal.go accepts exactly the mirrors, whatever the
-- order of their entries.
use payment_gateway.Base.{
  ◌≡◌, ◌↔◌, refl, sym, ap, ◌∙◌, arith, ℕ, true, none, some, List, [], ◌∷◌, ◌+◌, ◌-◌, ◌≤◌, map,
  length, length-map, text_eq_iff, if◌then◌else◌,
}
use payment_gateway.Base.Action.{ok}
use payment_gateway.Base.Bags.{occurs, counter-insert, occurs-full}
use payment_gateway.Base.Dict.{insert}
use payment_gateway.Base.Int.{eqb_ℤ_iff}
use payment_gateway.Ledger.Account.{AccountKey, key_eq}
use payment_gateway.Ledger.Journal.{Journal, Entry, Direction, direction_eq}
use payment_gateway.Ledger.Reversal.{
  Line, line_eq, mirrored_line, line_of, expected, count_lines, take_lines, validate_reversal,
}

pub key_eq_iff : (a b : AccountKey) → (key_eq a b ≡ true) ↔ (a ≡ b)
unfolding key_eq
key_eq_iff a b = (
  λ h. ground (arith, text_eq_iff a.code b.code, text_eq_iff a.currency b.currency),
  λ h. ground (arith, text_eq_iff a.code b.code, text_eq_iff a.currency b.currency),
)

direction_eq_iff : (a b : Direction) → (direction_eq a b ≡ true) ↔ (a ≡ b)
direction_eq_iff (Direction.other s) (Direction.other t) =
    (λ h. ap Direction.other ((text_eq_iff s t).0 h), λ h. (text_eq_iff s t).1 (cc))
direction_eq_iff a b = ground arith

line_eq_iff : (a b : Line) → (line_eq a b ≡ true) ↔ (a ≡ b)
unfolding line_eq
line_eq_iff a b = (
  λ h.
      ground (arith, key_eq_iff a.acct b.acct, direction_eq_iff a.dir b.dir, eqb_ℤ_iff a.amt b.amt),
  λ h.
      ground (arith, key_eq_iff a.acct b.acct, direction_eq_iff a.dir b.dir, eqb_ℤ_iff a.amt b.amt),
)

count-expected :
    (l : Line) (es : List Entry) (m : List (Line × ℕ))
    → expected l (count_lines es m) ≡ expected l m + occurs line_eq l (map mirrored_line es)
unfolding count_lines
count-expected l [] m = omega arith
count-expected l (e ∷ es) m =
    let k = mirrored_line e in
    let m' = insert line_eq k (expected k m + 1) m in
    let rest = count-expected l es m' in
    let set = counter-insert line_eq line_eq_iff l k (expected k m + 1) m in
    let same : line_eq k l ≡ true → expected k m ≡ expected l m =
      λ h. ap (λ x. expected x m) ((line_eq_iff k l).0 h) in
    ground (arith, rest, set, same)

-- The loop takes every line, where the counters suffice for all of them, and fails where not.
take-of_enough :
    (es : List Entry) (m : List (Line × ℕ))
    → ((l : Line) → occurs line_eq l (map line_of es) ≤ expected l m)
    → take_lines es m ≡ ok tt
unfolding take_lines
take-of_enough [] m h = refl
take-of_enough (e ∷ es) m h =
    let k = line_of e in
    let m' = insert line_eq k (expected k m - 1) m in
    let self = (line_eq_iff k k).1 refl in
    let set : (l : Line)
        → expected l m' ≡ (if line_eq k l then expected k m - 1 else expected l m) =
      λ l. counter-insert line_eq line_eq_iff l k (expected k m - 1) m in
    let same : (l : Line) → line_eq k l ≡ true → expected k m ≡ expected l m =
      λ l q. ap (λ x. expected x m) ((line_eq_iff k l).0 q) in
    let rest = take-of_enough es m' (λ l. ground (arith, h l, set l, same l)) in
    ground (arith, h k, self, rest)

enough-of_take :
    (es : List Entry) (m : List (Line × ℕ)) (l : Line)
    → take_lines es m ≡ ok tt
    → occurs line_eq l (map line_of es) ≤ expected l m
unfolding take_lines
enough-of_take [] m l h = omega arith
enough-of_take (e ∷ es) m l h =
    let k = line_of e in
    let m' = insert line_eq k (expected k m - 1) m in
    let set = counter-insert line_eq line_eq_iff l k (expected k m - 1) m in
    let same : line_eq k l ≡ true → expected k m ≡ expected l m =
      λ q. ap (λ x. expected x m) ((line_eq_iff k l).0 q) in
    let rest = enough-of_take es m' l in ground (arith, h, rest, set, same)

-- A reversal of `orig`, whatever the order: the original is not reversed yet, the reversal points at
-- it, and every line of account, side and amount occurs in it as often as mirrored in the original.
pub record IsReversalOf (orig rev : Journal) : Type 0 where
  pub unreversed : orig.reversed_by ≡ none
  pub points : rev.reversal_of ≡ some orig.id
  pub same_size : length orig.entries ≡ length rev.entries
  pub mirrored :
      (l : Line)
      → occurs line_eq l (map line_of rev.entries)
        ≡ occurs line_eq l (map mirrored_line orig.entries)

IsReversalOf-of_ok :
    (orig rev : Journal) → validate_reversal (some orig) rev ≡ ok tt → IsReversalOf orig rev
unfolding validate_reversal
IsReversalOf-of_ok orig rev h =
    let taken : take_lines rev.entries (count_lines orig.entries []) ≡ ok tt = ground (arith, h) in
    let size : length orig.entries ≡ length rev.entries = ground (arith, h) in
    let enough : (l : Line)
        → occurs line_eq l (map line_of rev.entries)
          ≤ occurs line_eq l (map mirrored_line orig.entries) =
      λ l. omega (
        arith,
        enough-of_take rev.entries (count_lines orig.entries []) l taken,
        count-expected l orig.entries [],
      ) in
    record {
      unreversed = ground (arith, h);
      points = ground (arith, h);
      same_size = size;
      mirrored =
          occurs-full line_eq line_eq_iff (map line_of rev.entries) (map mirrored_line orig.entries)
            (length-map rev.entries line_of
              ∙ sym size
              ∙ sym (length-map orig.entries mirrored_line))
            enough;
    }

ok-of_IsReversalOf :
    (orig rev : Journal) → IsReversalOf orig rev → validate_reversal (some orig) rev ≡ ok tt
unfolding validate_reversal
ok-of_IsReversalOf orig rev r =
    let taken =
      take-of_enough rev.entries (count_lines orig.entries [])
        (λ l. omega (arith, r.mirrored l, count-expected l orig.entries [])) in
    ground (arith, r.unreversed, r.points, r.same_size, taken)

-- `ValidateReversal` returns no error exactly when the original is not reversed yet, the reversal
-- points at it and has as many entries, and each line of account, side and amount occurs in the
-- reversal exactly as often as the original has it with the other side, in any order.
pub validate_reversal_iff :
    (orig rev : Journal) → (validate_reversal (some orig) rev ≡ ok tt) ↔ IsReversalOf orig rev
validate_reversal_iff orig rev = (IsReversalOf-of_ok orig rev, ok-of_IsReversalOf orig rev)
