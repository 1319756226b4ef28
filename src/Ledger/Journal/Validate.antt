-- ===== src/Ledger/Journal/Validate.antt =====
-- `Journal.Validate` accepts exactly the sound journals.
use payment_gateway.Base.{◌≡◌, ◌↔◌, arith, All, inl, inr}
use payment_gateway.Base.Action.{ok, Result-cases}
use payment_gateway.Base.Int.{ℤ, pos}
use payment_gateway.Ledger.Journal.{Journal, currency_of, validate_entries, validate}
use payment_gateway.Ledger.Journal.Sound.{IsSound, HasInt64Amount, entries_exact, entries_inv}

pub validate-of_IsSound : (j : Journal) → IsSound j → validate j ≡ ok tt
unfolding validate
validate-of_IsSound j s =
    ground (arith, s.identified, entries_exact j (currency_of j.entries) 0 0 j.entries s.postable)

-- The loop's result, where `Validate` did not fail.
loop_result :
    (j : Journal)
    → validate j ≡ ok tt
    → (r : ℤ × ℤ) × (validate_entries j (currency_of j.entries) (pos 0) (pos 0) j.entries ≡ ok r)
unfolding validate
loop_result j h =
    let loop = validate_entries j (currency_of j.entries) (pos 0) (pos 0) j.entries in
    elim (Result-cases loop) [ inl found ↦ found | inr (x, e) ↦ absurd (ground (arith, e)) ]

pub IsSound-of_validate :
    (j : Journal) → All HasInt64Amount j.entries → validate j ≡ ok tt → IsSound j
unfolding validate
IsSound-of_validate j i h =
    let (r, e) = loop_result j h in
    let (p, bd, bk) =
      entries_inv j (currency_of j.entries) 0 0 j.entries i (omega arith) (omega arith) e in
    let exact = entries_exact j (currency_of j.entries) 0 0 j.entries p bd bk in
    record {
      identified = ground arith;
      known_reference = ground arith;
      two_entries = ground arith;
      postable = p;
      balanced = ground (arith, exact);
      bounded = omega arith;
    }

-- On entries with int64 amounts `Validate` returns no error exactly when the journal is identified,
-- has a known reference type and at least two entries that may stand in it, and the exact sums of
-- the two sides are equal and fit an int64.
pub validate_iff : (j : Journal) → All HasInt64Amount j.entries → (validate j ≡ ok tt) ↔ IsSound j
validate_iff j i = (IsSound-of_validate j i, validate-of_IsSound j)
