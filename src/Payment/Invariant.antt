-- ===== src/Payment/Invariant.antt =====
-- The bookkeeping invariant of a payment's amounts (internal/payment/domain/payment.go).
pub mod Keeps
pub mod Refunds
pub mod Reserve
use payment_gateway.Base.{◌≡◌, ◌+◌, ◌≤◌, ◌<◌, Bool, true, false, String}
use payment_gateway.Base.Int.{ℤ, pos, ◌≤ℤ◌, ◌<ℤ◌, ◌+ℤ◌, pos_part, neg_part}
use payment_gateway.Money
use payment_gateway.Money.{Money}
use payment_gateway.Payment.Status.{Status}
use payment_gateway.Payment.Model.{Payment}

-- States in which no money has been captured.
abbrev pub before_capture : Status → Bool
before_capture Status.created = true
before_capture Status.requires_action = true
before_capture Status.authorized = true
before_capture Status.voided = true
before_capture Status.failed = true
before_capture Status.expired = true
before_capture _ = false

-- An amount of the currency that is not negative.
abbrev pub IsAmountOf : String → Money → Type 0
IsAmountOf c m = (m.currency ≡ c) × (pos 0 ≤ℤ m.amount_minor)

pub record IsValid (p : Payment) : Type 0 where
  pub amount_valid : Money.IsValid p.amount
  pub amount_positive : pos 0 <ℤ p.amount.amount_minor
  pub authorized : IsAmountOf p.amount.currency p.amount_authorized
  pub captured : IsAmountOf p.amount.currency p.amount_captured
  pub refunded : IsAmountOf p.amount.currency p.amount_refunded
  pub pending : IsAmountOf p.amount.currency p.amount_refund_pending
  pub authorized_le : p.amount_authorized.amount_minor ≤ℤ p.amount.amount_minor
  pub captured_le : p.amount_captured.amount_minor ≤ℤ p.amount_authorized.amount_minor
  -- What was refunded and what is reserved never exceed what was captured.
  pub reserved_le :
      (p.amount_refunded.amount_minor +ℤ p.amount_refund_pending.amount_minor)
      ≤ℤ p.amount_captured.amount_minor
  pub authorized_whole : p.status ≡ Status.authorized → p.amount_authorized ≡ p.amount
  pub none_captured : before_capture p.status ≡ true → p.amount_captured.amount_minor ≡ pos 0
  pub some_captured : before_capture p.status ≡ false → pos 0 <ℤ p.amount_captured.amount_minor
  pub none_refunded : p.status ≡ Status.captured → p.amount_refunded.amount_minor ≡ pos 0
  pub part_refunded :
      p.status ≡ Status.partially_refunded
      → (pos 0 <ℤ p.amount_refunded.amount_minor)
        × (p.amount_refunded.amount_minor <ℤ p.amount_captured.amount_minor)
  pub all_refunded : p.status ≡ Status.refunded → p.amount_refunded ≡ p.amount_captured
